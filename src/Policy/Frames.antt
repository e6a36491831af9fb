-- ===== src/Policy/Frames.antt =====
-- The policies of frame documents: storePermissionsPolicy, clearPolicyFrame and clearPolicyTab of
-- addon/js/background/webrequest.js, and policyEntryForDocument, policyForRequest,
-- handleSetFrameDelegation and the deletes of handleFrameDestroyed of addon/js/background/messages.js. documentFrameKey is the triple of its parts,
-- with the empty text for a document that is not known.
pub mod Contained
pub mod Reasons
pub mod Allowed
use ff_web_hid.Prelude.{
  ℕ, String, List, [], ◌∷◌, Option, none, some, Bool, true, false, not, ◌&&◌, ◌||◌, Eq, ◌==◌,
  nat_eq, string_eq, if◌then◌else◌, ◌≡◌, ◌↔◌, arith,
}
use ff_web_hid.Prelude.Maps.{Map, get, put, del, del_where}
use ff_web_hid.Prelude.Texts.{is_blank}
use ff_web_hid.Messages.Destroyed.{DestroyedFrame, destroyed_frame, destroyed_document}
use ff_web_hid.Policy.Allowlists.{
  Allowlist, all_allowed, none_allowed, origins, list_allows, own_policy,
}

abbrev pub Key : Type 0
Key = (ℕ × ℕ) × String

pub key_iff : (j k : Key) → ((j.0.0 == k.0.0 && (j.0.1 == k.0.1 && (j.1 == k.1))) ≡ true) ↔ (j ≡ k)
key_iff ((a, b), c) ((x, y), z) = ground (arith, string_eq.beq_iff c z)

instance abbrev pub key_eq : Eq Key
key_eq = record {
  beq = λ j k. j.0.0 == k.0.0 && (j.0.1 == k.0.1 && (j.1 == k.1));
  beq_iff = key_iff;
}

abbrev pub document_key : ℕ → ℕ → String → Key
document_key tab frame document = ((tab, frame), document)

-- `parent_frame` is none for -1.
pub record Entry : Type 0 where
  pub document_id : String
  pub origin : String
  pub parent_frame : Option ℕ
  pub parent_key : Option Key
  pub own : Allowlist
  pub effective : Allowlist

pub record Policies : Type 0 where
  pub entries : Map Key Entry
  pub delegations : Map Key Bool

abbrev pub no_policies : Policies
no_policies = record { entries = []; delegations = [] }

-- The request that is answered, with the parsed `hid` declarations of its headers.
pub record Details : Type 0 where
  pub tab : ℕ
  pub frame : ℕ
  pub document_id : String
  pub parent_frame : Option ℕ
  pub parent_document : Option String
  pub origin : String
  pub declarations : List Allowlist

unfoldable pub parent_key_of : Details → Option Key
parent_key_of details = elim details.parent_frame [
  | none ↦ none
  | some frame ↦ elim details.parent_document [
    | none ↦ none
    | some document ↦ some (document_key details.tab frame document)
  ]
]

-- The entry under the exact key, or the one whose document was not known yet, which moves to it.
unfoldable pub entry_of_parent : Key → Map Key Entry → Map Key Entry × Option Entry
entry_of_parent key entries =
    let pending = document_key key.0.0 key.0.1 "" in
    elim (get key entries) [
      | some entry ↦ (entries, some entry)
      | none ↦ elim (get pending entries) [
        | none ↦ (entries, none)
        | some entry ↦
            (let known : Entry = record entry { document_id = key.1 } in
              (put key known (del pending entries), some known))
      ]
    ]

unfoldable pub parent_of : Option Key → Map Key Entry → Map Key Entry × Option Entry
unfolding entry_of_parent
parent_of none entries = (entries, none)
parent_of (some key) entries = entry_of_parent key entries

unfoldable pub parent_effective : Option Entry → Allowlist
parent_effective none = all_allowed
parent_effective (some parent) = parent.effective

unfoldable pub is_none : Allowlist → Bool
is_none all_allowed = false
is_none none_allowed = true
is_none (origins os) = false

-- The effective policy, and the entries with the parent's moved to its key.
unfoldable pub effective_policy : Details → Allowlist → Map Key Entry → Map Key Entry × Allowlist
unfolding parent_of parent_effective is_none parent_key_of
effective_policy details own entries =
    let (entries', parent) = parent_of (parent_key_of details) entries in
    if is_none own
    then (entries, own)
    else if list_allows (parent_effective parent) details.origin
    then (entries', own)
    else (entries', none_allowed)

unfoldable pub store_permissions_policy : Details → Policies → Policies
unfolding effective_policy parent_key_of
store_permissions_policy details p =
    let own = own_policy details.origin details.declarations in
    let (entries, effective) = effective_policy details own p.entries in
    record p {
      entries =
          put (document_key details.tab details.frame details.document_id)
            (record {
              document_id = details.document_id;
              origin = details.origin;
              parent_frame = details.parent_frame;
              parent_key = parent_key_of details;
              own = own;
              effective = effective;
            })
            entries;
    }

unfoldable pub clear_policy_frame : ℕ → ℕ → Policies → Policies
clear_policy_frame tab frame p = record {
  entries = del_where (λ key e. key.0.0 == tab && (key.0.1 == frame)) p.entries;
  delegations = del_where (λ key e. key.0.0 == tab && (key.0.1 == frame)) p.delegations;
}

unfoldable pub clear_policy_tab : ℕ → Policies → Policies
clear_policy_tab tab p = record {
  entries = del_where (λ key e. key.0.0 == tab) p.entries;
  delegations = del_where (λ key e. key.0.0 == tab) p.delegations;
}

-- The document that handleFrameDestroyed forgets, none when its tab, frame or document is not known.
unfoldable pub destroyed_key : DestroyedFrame → Option ℕ → Option Key
destroyed_key req none = none
destroyed_key req (some tab) = elim (destroyed_frame req) [
  | none ↦ none
  | some frame ↦
      if is_blank (destroyed_document req)
      then none
      else some (document_key tab frame (destroyed_document req))
]

-- What handleFrameDestroyed does to the policies, once the purge of the document has ended.
unfoldable pub forget_document : DestroyedFrame → Option ℕ → Policies → Policies
forget_document req tab p = elim (destroyed_key req tab) [
  | none ↦ p
  | some key ↦ record { entries = del key p.entries; delegations = del key p.delegations }
]

unfoldable pub if_origin : String → Entry → Option Entry
if_origin origin entry = if entry.origin == origin then some entry else none

unfoldable pub policy_entry_for_document :
    ℕ → ℕ → String → String → Map Key Entry → Map Key Entry × Option Entry
unfolding if_origin
policy_entry_for_document tab frame document origin entries =
    let exact = document_key tab frame document in
    let pending = document_key tab frame "" in
    elim (get exact entries) [
      | some entry ↦ (entries, if_origin origin entry)
      | none ↦ elim (get pending entries) [
        | none ↦ (entries, none)
        | some entry ↦
            if entry.origin == origin
            then (
              put exact (record entry { document_id = document }) (del pending entries),
              some (record entry { document_id = document }),
            )
            else (entries, none)
      ]
    ]

-- The parent of a frame that has one: it is known with an origin, which is the same one, or it delegates.
unfoldable pub parent_permits : Key → Entry → Policies → Bool
parent_permits exact entry p = elim entry.parent_frame [
  | none ↦ true
  | some frame ↦ elim entry.parent_key [
    | none ↦ false
    | some key ↦ elim (get key p.entries) [
      | none ↦ false
      | some parent ↦
          not (parent.origin == "")
          && (parent.origin == entry.origin
              || elim (get exact p.delegations) [ none ↦ false | some delegated ↦ delegated ])
    ]
  ]
]

unfoldable pub answer_policy : Key → Option Entry → Policies → Bool
unfolding parent_permits is_none
answer_policy exact none p = false
answer_policy exact (some entry) p =
    if is_none entry.effective
    then false
    else if not (parent_permits exact entry p)
    then false
    else list_allows entry.effective entry.origin

-- policyForRequest, for a request with a tab, a frame, a document and an origin: whether `hid` is allowed.
unfoldable pub policy_for_request : ℕ → ℕ → String → String → Policies → Policies × Bool
unfolding policy_entry_for_document answer_policy
policy_for_request tab frame document origin p =
    let (entries, entry) = policy_entry_for_document tab frame document origin p.entries in
    let p' : Policies = record p { entries = entries } in
    (p', answer_policy (document_key tab frame document) entry p')

-- handleSetFrameDelegation, for such a request.
unfoldable pub handle_set_frame_delegation :
    ℕ → ℕ → String → String → Bool → Policies → Policies × Bool
unfolding policy_entry_for_document
handle_set_frame_delegation tab frame document origin delegated p =
    let (entries, entry) = policy_entry_for_document tab frame document origin p.entries in
    let exact = document_key tab frame document in
    elim entry [
      | none ↦ (record p { entries = entries }, false)
      | some e ↦
          (record { entries = entries; delegations = put exact delegated p.delegations }, true)
    ]
