-- ===== src/Policy/Frames/Contained.antt =====
-- The effective policies of the stored entries stay within the documents' own policies.
use ff_web_hid.Prelude.{
  ℕ, String, Option, none, some, Bool, true, false, ◌==◌, nat_eq, string_eq, if◌then◌else◌, ◌≡◌,
  arith, Option-cases, Bool-cases, inl, inr,
}
use ff_web_hid.Prelude.Maps.{
  Map, get, put, del, del_where, HasDistinctKeys, get-put, get-del, get-del_where,
  put-HasDistinctKeys, del-HasDistinctKeys, del_where-HasDistinctKeys,
}
use ff_web_hid.Policy.Allowlists.{Allowlist, none_allowed, list_allows, own_policy}
use ff_web_hid.Policy.Frames.{
  Key, key_eq, document_key, Entry, Policies, Details, parent_key_of, entry_of_parent, parent_of,
  parent_effective, is_none, effective_policy, store_permissions_policy, policy_entry_for_document,
  handle_set_frame_delegation,
}

-- What the effective policy allows the document, its own policy allows.
unfoldable pub is_contained : Option Entry → Bool
is_contained none = true
is_contained (some e) =
    if list_allows e.effective e.origin then list_allows e.own e.origin else true

pub record IsContained (entries : Map Key Entry) : Type 0 where
  pub distinct : HasDistinctKeys entries
  pub contained : (key : Key) → is_contained (get key entries) ≡ true

pub IsContained-put :
    (key : Key) (e : Entry) (entries : Map Key Entry)
    → is_contained (some e) ≡ true
    → IsContained entries
    → IsContained (put key e entries)
IsContained-put key e entries fits h = record {
  distinct = put-HasDistinctKeys key e entries h.distinct;
  contained = λ j. ground (arith, h.contained j, get-put key j e entries);
}

pub IsContained-del :
    (key : Key) (entries : Map Key Entry) → IsContained entries → IsContained (del key entries)
unfolding is_contained
IsContained-del key entries h = record {
  distinct = del-HasDistinctKeys key entries h.distinct;
  contained = λ j. ground (arith, h.contained j, get-del key j entries);
}

pub IsContained-del_where :
    (test : Key → Entry → Bool) (entries : Map Key Entry)
    → IsContained entries
    → IsContained (del_where test entries)
unfolding is_contained
IsContained-del_where test entries h = record {
  distinct = del_where-HasDistinctKeys test entries h.distinct;
  contained = λ j. ground (arith, h.contained j, get-del_where test j entries h.distinct);
}

-- An entry whose document becomes known moves to the key of the document.
pub IsContained-move :
    (pending exact : Key) (document : String) (e : Entry) (entries : Map Key Entry)
    → get pending entries ≡ some e
    → IsContained entries
    → IsContained (put exact (record e { document_id = document }) (del pending entries))
unfolding is_contained
IsContained-move pending exact document e entries there h =
    IsContained-put exact (record e { document_id = document }) (del pending entries)
      (ground (arith, h.contained pending)) (IsContained-del pending entries h)

pub entry_of_parent-IsContained :
    (key : Key) (entries : Map Key Entry)
    → IsContained entries
    → IsContained (entry_of_parent key entries).0
unfolding entry_of_parent
entry_of_parent-IsContained key entries h = elim (Option-cases (get key entries)) [
  | inr (e, there) ↦ rw (there, entry_of_parent) h
  | inl absent ↦
      let pending = document_key key.0.0 key.0.1 "" in
      elim (Option-cases (get pending entries)) [
        | inl nothing ↦ rw (absent, entry_of_parent, nothing) h
        | inr (e, there) ↦
            rw (absent, entry_of_parent, there)
              (IsContained-move pending key key.1 e entries there h)
      ]
]

pub parent_of-IsContained :
    (key : Option Key) (entries : Map Key Entry)
    → IsContained entries
    → IsContained (parent_of key entries).0
unfolding parent_of
parent_of-IsContained none entries h = h
parent_of-IsContained (some key) entries h = entry_of_parent-IsContained key entries h

pub IsContained-if :
    {A : Type 0} (b : Bool) (x y : Map Key Entry × A)
    → IsContained x.0
    → IsContained y.0
    → IsContained (if b then x else y).0
IsContained-if true x y h k = h
IsContained-if false x y h k = k

pub effective_policy-IsContained :
    (details : Details) (own : Allowlist) (entries : Map Key Entry)
    → IsContained entries
    → IsContained (effective_policy details own entries).0
unfolding effective_policy parent_of
effective_policy-IsContained details own entries h =
    let r = parent_of (parent_key_of details) entries in
    let moved = parent_of-IsContained (parent_key_of details) entries h in
    IsContained-if (is_none own) (entries, own)
      (if list_allows (parent_effective r.1) details.origin
        then (r.0, own)
        else (r.0, none_allowed))
      h
      (IsContained-if (list_allows (parent_effective r.1) details.origin) (r.0, own)
        (r.0, none_allowed) moved moved)

-- The effective policy is the document's own, or it is none.
pub effective_policy-contained :
    (details : Details) (own : Allowlist) (entries : Map Key Entry)
    → list_allows (effective_policy details own entries).1 details.origin ≡ true
    → list_allows own details.origin ≡ true
unfolding effective_policy list_allows
effective_policy-contained details own entries h = ground arith

pub store_permissions_policy-IsContained :
    (details : Details) (p : Policies)
    → IsContained p.entries
    → IsContained (store_permissions_policy details p).entries
unfolding store_permissions_policy is_contained
store_permissions_policy-IsContained details p h =
    let own = own_policy details.origin details.declarations in
    let r = effective_policy details own p.entries in
    IsContained-put (document_key details.tab details.frame details.document_id)
      (record {
        document_id = details.document_id;
        origin = details.origin;
        parent_frame = details.parent_frame;
        parent_key = parent_key_of details;
        own = own;
        effective = r.1;
      })
      r.0 (ground (arith, effective_policy-contained details own p.entries))
      (effective_policy-IsContained details own p.entries h)

pub handle_set_frame_delegation-entries :
    (tab frame : ℕ) (document origin : String) (delegated : Bool) (p : Policies)
    → (handle_set_frame_delegation tab frame document origin delegated p).0.entries
      ≡ (policy_entry_for_document tab frame document origin p.entries).0
unfolding handle_set_frame_delegation
handle_set_frame_delegation-entries tab frame document origin delegated p = ground arith

pub policy_entry_for_document-IsContained :
    (tab frame : ℕ) (document origin : String) (entries : Map Key Entry)
    → IsContained entries
    → IsContained (policy_entry_for_document tab frame document origin entries).0
unfolding policy_entry_for_document
policy_entry_for_document-IsContained tab frame document origin entries h =
    let exact = document_key tab frame document in
    let pending = document_key tab frame "" in
    elim (Option-cases (get exact entries)) [
      | inr (e, there) ↦ rw (there, policy_entry_for_document) h
      | inl absent ↦ elim (Option-cases (get pending entries)) [
        | inl nothing ↦ rw (absent, policy_entry_for_document, nothing) h
        | inr (e, there) ↦ elim (Bool-cases (e.origin == origin)) [
          | inl same ↦
              rw (absent, policy_entry_for_document, there, same)
                (IsContained-move pending exact document e entries there h)
          | inr other ↦ rw (absent, policy_entry_for_document, there, other) h
        ]
      ]
    ]
