-- ===== src/Page/Calls/Kept.antt =====
-- What every operation on a device keeps: the promises of reports, the ports, and the tables of what is
-- pending.
pub mod Ports
pub mod Messages
pub mod Planes
pub mod Reports
pub mod Calls
use ff_web_hid.Prelude.{
  ℕ, suc, zero, ◌+◌, ◌<◌, ◌≤◌, List, [], ◌∷◌, ◌++◌, Option, none, some, Bool, true, false, not,
  ◌&&◌, ◌||◌, leb, ◌==◌, nat_eq, if◌then◌else◌, ◌≡◌, refl, arith,
}
use ff_web_hid.Prelude.Maps.{
  Map, get, put, del, has, del_where, keys_where, HasDistinctKeys, get-put, get-del, get-del_where,
  put-HasDistinctKeys, del-HasDistinctKeys, del_where-HasDistinctKeys,
}
use ff_web_hid.Page.State.{
  Device, Effect, sent, replied, dispatched, promised, settled, posted, offered, closed, reported,
  plane_answered, plane_closed, plane_auth_failed,
}

abbrev pub one_if : Bool → ℕ
one_if b = if b then 1 else 0

-- How often an effect makes, and settles, the promise of the report with that id, and how often it opens,
-- and closes, that port.
abbrev pub makes : ℕ → Effect → ℕ
makes r (promised q) = one_if (q == r)
makes r effect = 0

abbrev pub settles : ℕ → Effect → ℕ
settles r (settled q outcome) = one_if (q == r)
settles r effect = 0

abbrev pub opens : ℕ → Effect → ℕ
opens p (offered q generation has_worker) = one_if (q == p)
opens p effect = 0

abbrev pub closes : ℕ → Effect → ℕ
closes p (closed q) = one_if (q == p)
closes p effect = 0

-- The sum over effects.
unfoldable pub total : (Effect → ℕ) → List Effect → ℕ
total f [] = 0
total f (effect ∷ effects) = f effect + total f effects

pub total-append :
    (f : Effect → ℕ) (xs ys : List Effect) → total f (xs ++ ys) ≡ total f xs + total f ys
unfolding total
total-append f [] ys = omega arith
total-append f (x ∷ xs) ys = omega (arith, total-append f xs ys)

-- The reports that are pending, and the port that is open.
abbrev pub is_pending : ℕ → Device → ℕ
is_pending r d = one_if (has r d.data_pending) + one_if (has r d.in_page_pending)

abbrev pub is_port : ℕ → Option ℕ → ℕ
is_port p none = 0
is_port p (some q) = one_if (q == p)

-- A table of pending requests whose ids were all given out.
pub record IsTable {V : Type 0} (next : ℕ) (m : Map ℕ V) : Type 0 where
  pub distinct : HasDistinctKeys m
  pub fresh : (r : ℕ) → next < r → get r m ≡ none

pub IsTable-nil : {V : Type 0} (next : ℕ) → IsTable {V = V} next []
unfolding get
IsTable-nil next = record { distinct = tt; fresh = λ r h. refl }

pub IsTable-later :
    {V : Type 0} (next next' : ℕ) (m : Map ℕ V) → next ≤ next' → IsTable next m → IsTable next' m
IsTable-later next next' m h t = record {
  distinct = t.distinct;
  fresh = λ r g. t.fresh r (omega arith);
}

pub IsTable-put :
    {V : Type 0} (next : ℕ) (v : V) (m : Map ℕ V)
    → IsTable next m
    → IsTable (next + 1) (put (next + 1) v m)
IsTable-put next v m t = record {
  distinct = put-HasDistinctKeys (next + 1) v m t.distinct;
  fresh = λ r h. ground (arith, get-put (next + 1) r v m, t.fresh r);
}

pub IsTable-del : {V : Type 0} (next r : ℕ) (m : Map ℕ V) → IsTable next m → IsTable next (del r m)
IsTable-del next r m t = record {
  distinct = del-HasDistinctKeys r m t.distinct;
  fresh = λ j h. ground (arith, get-del r j m, t.fresh j);
}

pub IsTable-del_where :
    {V : Type 0} (next : ℕ) (p : ℕ → V → Bool) (m : Map ℕ V)
    → IsTable next m
    → IsTable next (del_where p m)
IsTable-del_where next p m t = record {
  distinct = del_where-HasDistinctKeys p m t.distinct;
  fresh = λ j h. ground (arith, get-del_where p j m t.distinct, t.fresh j);
}

pub record IsWell (d : Device) : Type 0 where
  pub on_port : IsTable d.next_req_id d.data_pending
  pub in_page : IsTable d.next_req_id d.in_page_pending
  pub calm : (d.plane_ready && d.plane_unavailable) ≡ false

pub record IsKept (d : Device) (x : Device × List Effect) : Type 0 where
  pub tally :
      (r : ℕ) → total (makes r) x.1 + is_pending r d ≡ total (settles r) x.1 + is_pending r x.0
  pub numbered :
      (r : ℕ) → total (makes r) x.1 + one_if (leb r d.next_req_id) ≤ one_if (leb r x.0.next_req_id)
  pub ports :
      (p : ℕ)
      → total (opens p) x.1 + is_port p d.data_port ≡ total (closes p) x.1 + is_port p x.0.data_port
  pub well : IsWell x.0

pub IsKept-then :
    (d : Device) (x y : Device × List Effect)
    → IsKept d x
    → IsKept x.0 y
    → IsKept d (y.0, x.1 ++ y.1)
IsKept-then d x y h k = record {
  tally = λ r. omega (
    arith,
    h.tally r,
    k.tally r,
    total-append (makes r) x.1 y.1,
    total-append (settles r) x.1 y.1,
  );
  numbered = λ r. omega (arith, h.numbered r, k.numbered r, total-append (makes r) x.1 y.1);
  ports = λ p. omega (
    arith,
    h.ports p,
    k.ports p,
    total-append (opens p) x.1 y.1,
    total-append (closes p) x.1 y.1,
  );
  well = k.well;
}

pub IsKept-if :
    (d : Device) (b : Bool) (x y : Device × List Effect)
    → IsKept d x
    → IsKept d y
    → IsKept d (if b then x else y)
IsKept-if d true x y h k = h
IsKept-if d false x y h k = k

pub IsKept-split :
    (d : Device) (b : Bool) (x y : Device × List Effect)
    → (b ≡ true → IsKept d x)
    → (b ≡ false → IsKept d y)
    → IsKept d (if b then x else y)
IsKept-split d true x y h k = h refl
IsKept-split d false x y h k = k refl

-- An effect on neither reports nor ports.
abbrev pub is_quiet : Effect → Bool
is_quiet (promised r) = false
is_quiet (settled r outcome) = false
is_quiet (offered p generation has_worker) = false
is_quiet (closed p) = false
is_quiet effect = true

unfoldable pub are_quiet : List Effect → Bool
are_quiet [] = true
are_quiet (effect ∷ effects) = is_quiet effect && are_quiet effects

total-are_quiet :
    (f : Effect → ℕ) (effects : List Effect)
    → ((effect : Effect) → is_quiet effect ≡ true → f effect ≡ 0)
    → are_quiet effects ≡ true
    → total f effects ≡ 0
unfolding total are_quiet
total-are_quiet f [] quiet h = refl
total-are_quiet f (effect ∷ effects) quiet h =
    ground (arith, quiet effect, total-are_quiet f effects quiet)

makes-quiet : (n : ℕ) (effect : Effect) → is_quiet effect ≡ true → makes n effect ≡ 0
makes-quiet n (promised r) h = absurd (ground arith)
makes-quiet n _ h = refl

settles-quiet : (n : ℕ) (effect : Effect) → is_quiet effect ≡ true → settles n effect ≡ 0
settles-quiet n (settled r outcome) h = absurd (ground arith)
settles-quiet n _ h = refl

opens-quiet : (n : ℕ) (effect : Effect) → is_quiet effect ≡ true → opens n effect ≡ 0
opens-quiet n (offered p generation has_worker) h = absurd (ground arith)
opens-quiet n _ h = refl

closes-quiet : (n : ℕ) (effect : Effect) → is_quiet effect ≡ true → closes n effect ≡ 0
closes-quiet n (closed p) h = absurd (ground arith)
closes-quiet n _ h = refl

-- A change of a device that leaves its tables and its port alone.
pub record IsBeside (d d' : Device) : Type 0 where
  pub on_port : d'.data_pending ≡ d.data_pending
  pub in_page : d'.in_page_pending ≡ d.in_page_pending
  pub next : d'.next_req_id ≡ d.next_req_id
  pub port : d'.data_port ≡ d.data_port

pub IsKept-quiet :
    (d d' : Device) (effects : List Effect)
    → IsBeside d d'
    → (d'.plane_ready && d'.plane_unavailable) ≡ false
    → are_quiet effects ≡ true
    → IsWell d
    → IsKept d (d', effects)
IsKept-quiet d d' effects same calm quiet h = record {
  tally = λ r.
      rw (same.on_port, same.in_page)
        (omega (
          arith,
          total-are_quiet (makes r) effects (makes-quiet r) quiet,
          total-are_quiet (settles r) effects (settles-quiet r) quiet,
        ));
  numbered =
      λ r. rw same.next (omega (arith, total-are_quiet (makes r) effects (makes-quiet r) quiet));
  ports = λ p. rw same.port (
      omega (
        arith,
        total-are_quiet (opens p) effects (opens-quiet p) quiet,
        total-are_quiet (closes p) effects (closes-quiet p) quiet,
      ));
  well = record {
    on_port = rw (same.on_port, same.next) h.on_port;
    in_page = rw (same.in_page, same.next) h.in_page;
    calm = calm;
  };
}

abbrev pub beside : {d : Device} → IsBeside d d
beside = record { on_port = refl; in_page = refl; next = refl; port = refl }

pub IsKept-idle :
    (d : Device) (effects : List Effect)
    → are_quiet effects ≡ true
    → IsWell d
    → IsKept d (d, effects)
IsKept-idle d effects quiet h = IsKept-quiet d d effects beside h.calm quiet h
