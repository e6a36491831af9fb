-- ===== src/Prelude/Maps.antt =====
-- A JavaScript `Map` as an association list in insertion order: `set` keeps the place of a key
-- that is there and appends one that is not, `delete` drops the key. `HasDistinctKeys` is what every
-- map built by them satisfies.
use ff_web_hid.Prelude.Tests.{if◌then◌else◌, Bool-cases}
use ff_web_hid.Prelude.Equality.{Eq, ◌==◌}
use mathlib.Core.Path.{◌≡◌, refl}
use mathlib.Core.Logic.{inl, inr, ◌≢◌}
use mathlib.Core.Bool.{Bool, true, false}
use mathlib.Core.List.{List, [], ◌∷◌}
use mathlib.Core.Option.{Option, none, some}
use native.Mathlib.Omega.{arith}

abbrev pub Map {ℓ κ} : Type ℓ → Type κ → Type (ℓ ⊔ κ)
Map K V = List (K × V)

module _ {ℓ κ} {K : Type ℓ} {V : Type κ} ⦃e : Eq K⦄ where
  unfoldable pub get : K → Map K V → Option V
  get k [] = none
  get k ((j, v) ∷ m) = if j == k then some v else get k m

  unfoldable pub put : K → V → Map K V → Map K V
  put k v [] = (k, v) ∷ []
  put k v ((j, w) ∷ m) = if j == k then (j, v) ∷ m else (j, w) ∷ put k v m

  unfoldable pub del : K → Map K V → Map K V
  del k [] = []
  del k ((j, w) ∷ m) = if j == k then del k m else (j, w) ∷ del k m

  -- `for (const [k, v] of m) if (p(k, v)) m.delete(k)`, on a map with distinct keys.
  unfoldable pub del_where : (K → V → Bool) → Map K V → Map K V
  del_where p [] = []
  del_where p ((j, w) ∷ m) = if p j w then del_where p m else (j, w) ∷ del_where p m

  -- The keys of the entries that pass the test, in order.
  unfoldable pub keys_where : (K → V → Bool) → Map K V → List K
  keys_where p [] = []
  keys_where p ((j, w) ∷ m) = if p j w then j ∷ keys_where p m else keys_where p m

  unfoldable pub has : K → Map K V → Bool
  has k m = elim (get k m) [ none ↦ false | some _ ↦ true ]

  abbrev pub HasDistinctKeys : Map K V → Type κ
  HasDistinctKeys [] = Unit {κ}
  HasDistinctKeys ((k, v) ∷ m) = (get k m ≡ none) × HasDistinctKeys m

module _ {ℓ} {K : Type ℓ} ⦃e : Eq K⦄ where
  unfoldable pub contains : K → List K → Bool
  contains k [] = false
  contains k (j ∷ js) = if j == k then true else contains k js

  pub eq_refl : (k : K) → (k == k) ≡ true
  eq_refl k = (e.beq_iff k k).1 refl

  pub eq_of_beq : (j k : K) → (j == k) ≡ true → j ≡ k
  eq_of_beq j k h = (e.beq_iff j k).0 h

abbrev pub keep_if {κ} : {V : Type κ} → (V → Bool) → Option V → Option V
keep_if p none = none
keep_if p (some v) = if p v then some v else none

abbrev pub holds {κ} : {V : Type κ} → (V → Bool) → Option V → Bool
holds p none = false
holds p (some v) = p v

module _ {ℓ κ} {K : Type ℓ} {V : Type κ} ⦃e : Eq K⦄ where
  pub get-put :
      (k j : K) (v : V) (m : Map K V) → get j (put k v m) ≡ (if k == j then some v else get j m)
  unfolding get put
  get-put k j v [] = refl
  get-put k j v ((i, w) ∷ m) =
      ground (arith, e.beq_iff k j, e.beq_iff i k, e.beq_iff i j, get-put k j v m)

  pub get-del : (k j : K) (m : Map K V) → get j (del k m) ≡ (if k == j then none else get j m)
  unfolding get del
  get-del k j [] = ground arith
  get-del k j ((i, w) ∷ m) =
      ground (arith, e.beq_iff k j, e.beq_iff i k, e.beq_iff i j, get-del k j m)

  pub put-ne-nil : (k : K) (v : V) (m : Map K V) → put k v m ≢ []
  unfolding put
  put-ne-nil k v [] h = cc
  put-ne-nil k v ((i, w) ∷ m) h = ground arith

  get-del_where-none :
      (p : K → V → Bool) (j : K) (m : Map K V) → get j m ≡ none → get j (del_where p m) ≡ none
  unfolding get del_where
  get-del_where-none p j [] h = refl
  get-del_where-none p j ((i, w) ∷ m) h = ground (arith, get-del_where-none p j m)

  pub get-del_where :
      (p : K → V → Bool) (j : K) (m : Map K V)
      → HasDistinctKeys m
      → get j (del_where p m) ≡ keep_if (λ v. if p j v then false else true) (get j m)
  unfolding get del_where
  get-del_where p j [] h = refl
  get-del_where p j ((i, w) ∷ m) (h, hs) =
      ground (arith, e.beq_iff i j, get-del_where p j m hs, get-del_where-none p i m h)

  contains-keys_where-none :
      (p : K → V → Bool) (j : K) (m : Map K V)
      → get j m ≡ none
      → contains j (keys_where p m) ≡ false
  unfolding get keys_where contains
  contains-keys_where-none p j [] h = refl
  contains-keys_where-none p j ((i, w) ∷ m) h = ground (arith, contains-keys_where-none p j m)

  pub contains-keys_where :
      (p : K → V → Bool) (j : K) (m : Map K V)
      → HasDistinctKeys m
      → contains j (keys_where p m) ≡ holds (p j) (get j m)
  unfolding get keys_where contains
  contains-keys_where p j [] h = refl
  contains-keys_where p j ((i, w) ∷ m) (h, hs) =
      ground (arith, e.beq_iff i j, contains-keys_where p j m hs, contains-keys_where-none p i m h)

  pub put-HasDistinctKeys :
      (k : K) (v : V) (m : Map K V) → HasDistinctKeys m → HasDistinctKeys (put k v m)
  unfolding put get
  put-HasDistinctKeys k v [] h = (refl, tt)
  put-HasDistinctKeys k v ((i, w) ∷ m) (h, hs) = elim (Bool-cases (i == k)) [
    | inl same ↦ rw same (h, hs)
    | inr differ ↦ rw differ (
      ground (arith, get-put k i v m, e.beq_iff k i, e.beq_iff i k),
      put-HasDistinctKeys k v m hs,
    )
  ]

  pub del-HasDistinctKeys : (k : K) (m : Map K V) → HasDistinctKeys m → HasDistinctKeys (del k m)
  unfolding del get
  del-HasDistinctKeys k [] h = tt
  del-HasDistinctKeys k ((i, w) ∷ m) (h, hs) = elim (Bool-cases (i == k)) [
    | inl same ↦ rw same (del-HasDistinctKeys k m hs)
    | inr differ ↦ rw differ (ground (arith, get-del k i m), del-HasDistinctKeys k m hs)
  ]

  pub del_where-HasDistinctKeys :
      (p : K → V → Bool) (m : Map K V) → HasDistinctKeys m → HasDistinctKeys (del_where p m)
  unfolding del_where get
  del_where-HasDistinctKeys p [] h = tt
  del_where-HasDistinctKeys p ((i, w) ∷ m) (h, hs) = elim (Bool-cases (p i w)) [
    | inl gone ↦ rw gone (del_where-HasDistinctKeys p m hs)
    | inr kept ↦ rw kept (get-del_where-none p i m h, del_where-HasDistinctKeys p m hs)
  ]
