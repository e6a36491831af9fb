-- ===== src/Policy/Allowlists/Reading.antt =====
-- What an allowlist allows, and what the policies of a document's declarations allow together.
use ff_web_hid.Prelude.{
  String, List, [], ◌∷◌, Bool, true, false, not, ◌&&◌, ◌||◌, ◌==◌, string_eq, ◌≡◌, refl, arith, All,
}
use ff_web_hid.Prelude.Maps.{contains}
use ff_web_hid.Policy.Allowlists.{
  Allowlist, all_allowed, none_allowed, origins, list_of, common, intersect_allowlists, list_allows,
  resolve_origins, resolve_self, intersect_from, own_policy,
}

contains-common :
    (o : String) (a b : List String) → contains o (common a b) ≡ (contains o a && contains o b)
unfolding contains common
contains-common o [] b = refl
contains-common o (p ∷ a) b = ground (arith, contains-common o a b, string_eq.beq_iff p o)

list_allows-list_of : (os : List String) (o : String) → list_allows (list_of os) o ≡ contains o os
unfolding list_allows list_of contains
list_allows-list_of [] o = refl
list_allows-list_of (p ∷ os) o = refl

-- Membership in the intersection of two allowlists, for texts that are not resolved.
list_allows-intersect_allowlists :
    (a b : Allowlist) (o : String)
    → list_allows (intersect_allowlists a b) o ≡ (list_allows a o && list_allows b o)
unfolding intersect_allowlists list_allows
list_allows-intersect_allowlists none_allowed b o = refl
list_allows-intersect_allowlists all_allowed b o = refl
list_allows-intersect_allowlists (origins a) none_allowed o = ground arith
list_allows-intersect_allowlists (origins a) all_allowed o = ground arith
list_allows-intersect_allowlists (origins a) (origins b) o =
    ground (arith, list_allows-list_of (common a b) o, contains-common o a b)

contains-resolve_origins :
    (self o : String) (os : List String)
    → contains o (resolve_origins self os)
      ≡ ((self == o && contains "self" os) || (not (o == "self") && contains o os))
unfolding contains resolve_origins
contains-resolve_origins self o [] = ground arith
contains-resolve_origins self o (p ∷ os) = ground (
  arith,
  contains-resolve_origins self o os,
  string_eq.beq_iff p "self",
  string_eq.beq_iff p o,
  string_eq.beq_iff self o,
)

-- Every declaration allows it.
unfoldable pub all_allow : List Allowlist → String → Bool
all_allow [] o = true
all_allow (d ∷ ds) o = list_allows d o && all_allow ds o

list_allows-intersect_from :
    (a : Allowlist) (ds : List Allowlist) (o : String)
    → list_allows (intersect_from a ds) o ≡ all_allow (a ∷ ds) o
unfolding intersect_from all_allow
list_allows-intersect_from a [] o = ground arith
list_allows-intersect_from a (b ∷ bs) o = ground (
  arith,
  list_allows-intersect_from (intersect_allowlists a b) bs o,
  list_allows-intersect_allowlists a b o,
)

list_allows-resolve_self :
    (self o : String) (a : Allowlist)
    → (o == "self") ≡ false
    → list_allows (resolve_self self a) o ≡ ((self == o && list_allows a "self") || list_allows a o)
unfolding list_allows resolve_self
list_allows-resolve_self self o all_allowed h = ground arith
list_allows-resolve_self self o none_allowed h = ground arith
list_allows-resolve_self self o (origins os) h = ground (arith, contains-resolve_origins self o os)

-- The policy of a document's own declarations allows an origin exactly when all of them name it, or it is
-- the document's origin and all of them have the token `self`, with a `*` for either.
pub list_allows-own_policy :
    (self o : String) (ds : List Allowlist)
    → (o == "self") ≡ false
    → list_allows (own_policy self ds) o ≡ ((self == o && all_allow ds "self") || all_allow ds o)
unfolding own_policy list_allows all_allow
list_allows-own_policy self o [] h = ground arith
list_allows-own_policy self o (d ∷ ds) h = ground (
  arith,
  list_allows-resolve_self self o (intersect_from d ds) h,
  list_allows-intersect_from d ds o,
  list_allows-intersect_from d ds "self",
)

all_allow-each :
    (self o : String) (ds : List Allowlist)
    → (o == "self") ≡ false
    → ((self == o && all_allow ds "self") || all_allow ds o) ≡ true
    → All (λ d. list_allows (resolve_self self d) o ≡ true) ds
unfolding all_allow
all_allow-each self o [] h g = tt
all_allow-each self o (d ∷ ds) h g =
    (ground (arith, list_allows-resolve_self self o d h), all_allow-each self o ds h (ground arith))

-- The declarations of a document never broaden each other: an origin that its own policy allows is allowed
-- by each declaration, read alone.
pub own_policy-each :
    (self o : String) (ds : List Allowlist)
    → (o == "self") ≡ false
    → list_allows (own_policy self ds) o ≡ true
    → All (λ d. list_allows (resolve_self self d) o ≡ true) ds
own_policy-each self o ds h g =
    all_allow-each self o ds h (ground (arith, list_allows-own_policy self o ds h))
