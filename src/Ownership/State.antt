-- ===== src/Ownership/State.antt =====
-- The maps of addon/js/background/state.js, and the two-level maps among them.
pub mod Tables
use ff_web_hid.Prelude.{
  ℕ, zero, suc, String, List, [], ◌∷◌, Option, none, some, Bool, true, false, Eq, nat_eq,
}
use ff_web_hid.Prelude.Maps.{Map, get, put, del}

-- The owner of a session. `ref` is the identity of the object: the code compares owners by `===`.
pub record Owner : Type 0 where
  pub ref : ℕ
  pub tab_id : ℕ
  pub origin : String
  pub frame_key : String
  pub bridge_instance_id : String
  pub client_key : String

pub record Orphan : Type 0 where
  pub device_id : ℕ
  pub attempts : ℕ

-- `next_ref` is the identity of the next owner object.
pub record State : Type 0 where
  pub device_tabs : Map ℕ (Map ℕ ℕ)
  pub device_sessions : Map ℕ (Map String Owner)
  pub frame_lifetimes : Map ℕ (Map String ℕ)
  pub orphan_cleanup : Map String Orphan
  pub next_ref : ℕ

abbrev pub empty : State
empty = record {
  device_tabs = [];
  device_sessions = [];
  frame_lifetimes = [];
  orphan_cleanup = [];
  next_ref = 0;
}

module _ {ℓ κ ι} {D : Type ℓ} {K : Type κ} {V : Type ι} ⦃e : Eq D⦄ ⦃f : Eq K⦄ where
  -- The inner map of a key, empty for a key that is not there.
  unfoldable pub inner : D → Map D (Map K V) → Map K V
  inner d t = elim (get d t) [ none ↦ [] | some m ↦ m ]

  -- `let m = t.get(d); if (!m) { m = new Map(); t.set(d, m) } m.set(k, v)`
  unfoldable pub put_in : D → K → V → Map D (Map K V) → Map D (Map K V)
  unfolding inner
  put_in d k v t = put d (put k v (inner d t)) t

  -- `if (m.size === 0) t.delete(d)` once the inner map `m` of `d` has been changed.
  unfoldable pub drop_empty : D → Map K V → Map D (Map K V) → Map D (Map K V)
  drop_empty d [] t = del d t
  drop_empty d (entry ∷ m) t = put d (entry ∷ m) t

  -- The value under two keys: `t.get(d)?.get(k)`.
  unfoldable pub get_in : D → K → Map D (Map K V) → Option V
  unfolding inner
  get_in d k t = get k (inner d t)
