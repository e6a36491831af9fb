-- ===== src/Policy/Allowlists.antt =====
-- Allowlists of origins: parseHidPolicy, intersectAllowlists and listAllows of
-- addon/js/background/webrequest.js. The text of a header is split into tokens before; `origin_of` is the
-- origin of a URL, and none where URL throws or gives 'null'.
pub mod Reading
use ff_web_hid.Prelude.{
  String, List, [], ◌∷◌, ◌++◌, Option, none, some, Bool, true, false, not, ◌&&◌, ◌||◌, ◌==◌,
  string_eq, if◌then◌else◌, ◌≡◌, refl, arith,
}
use ff_web_hid.Prelude.Maps.{contains}

-- `origins` is not empty in a list of the code; `none_allowed` is its kind 'none'.
pub data Allowlist : Type 0 where
  all_allowed none_allowed : Allowlist
  origins : List String → Allowlist

-- The value of a `hid` declaration: `*`, `self`, tokens in parentheses without their quotes, or another.
pub data Value : Type 0 where
  star self_alone malformed : Value
  tokens : List String → Value

-- A token that is neither `*` nor `self` adds its origin, once.
unfoldable pub add_token : (String → Option String) → String → List String → List String
add_token origin_of token found =
    if token == "*" || token == "self" then found else elim (origin_of token) [
      | none ↦ found
      | some origin ↦ if contains origin found then found else found ++ (origin ∷ [])
    ]

unfoldable pub collect_origins : (String → Option String) → List String → List String → List String
unfolding add_token
collect_origins origin_of [] found = found
collect_origins origin_of (token ∷ rest) found =
    collect_origins origin_of rest (add_token origin_of token found)

unfoldable pub list_of : List String → Allowlist
list_of [] = none_allowed
list_of (o ∷ os) = origins (o ∷ os)

unfoldable pub parse_hid_policy : (String → Option String) → Value → Allowlist
unfolding collect_origins list_of
parse_hid_policy origin_of star = all_allowed
parse_hid_policy origin_of self_alone = origins ("self" ∷ [])
parse_hid_policy origin_of malformed = none_allowed
parse_hid_policy origin_of (tokens ts) =
    if contains "*" ts
    then all_allowed
    else list_of
        (collect_origins origin_of ts [] ++ (if contains "self" ts then "self" ∷ [] else []))

-- `a.filter((o) => b.includes(o))`
unfoldable pub common : List String → List String → List String
common [] b = []
common (o ∷ a) b = if contains o b then o ∷ common a b else common a b

unfoldable pub intersect_allowlists : Allowlist → Allowlist → Allowlist
unfolding common list_of
intersect_allowlists none_allowed b = none_allowed
intersect_allowlists all_allowed b = b
intersect_allowlists (origins a) none_allowed = none_allowed
intersect_allowlists (origins a) all_allowed = origins a
intersect_allowlists (origins a) (origins b) = list_of (common a b)

unfoldable pub list_allows : Allowlist → String → Bool
list_allows all_allowed origin = true
list_allows none_allowed origin = false
list_allows (origins os) origin = contains origin os

-- `origins.map((o) => (o === 'self' ? origin : o))`
unfoldable pub resolve_origins : String → List String → List String
resolve_origins origin [] = []
resolve_origins origin (o ∷ os) = (if o == "self" then origin else o) ∷ resolve_origins origin os

unfoldable pub resolve_self : String → Allowlist → Allowlist
unfolding resolve_origins
resolve_self origin all_allowed = all_allowed
resolve_self origin none_allowed = none_allowed
resolve_self origin (origins os) = origins (resolve_origins origin os)

-- `declarations.reduce(intersectAllowlists)`, with the kind 'all' where there are none.
unfoldable pub intersect_from : Allowlist → List Allowlist → Allowlist
unfolding intersect_allowlists
intersect_from a [] = a
intersect_from a (b ∷ bs) = intersect_from (intersect_allowlists a b) bs

unfoldable pub own_policy : String → List Allowlist → Allowlist
unfolding intersect_from resolve_self
own_policy origin [] = all_allowed
own_policy origin (a ∷ declarations) = resolve_self origin (intersect_from a declarations)
