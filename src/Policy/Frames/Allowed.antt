-- ===== src/Policy/Frames/Allowed.antt =====
-- When the background answers that a frame document may use `hid`.
use ff_web_hid.Prelude.{
  ℕ, String, Option, some, Bool, true, false, ◌&&◌, ◌==◌, nat_eq, string_eq, ◌≡◌, refl, arith,
  Option-cases, inl, inr,
}
use ff_web_hid.Prelude.Maps.{Map, get, put, del, eq_refl, get-put}
use ff_web_hid.Policy.Allowlists.{list_allows, own_policy}
use ff_web_hid.Policy.Frames.{
  Key, key_eq, document_key, Entry, Policies, no_policies, Details, parent_key_of, entry_of_parent,
  parent_of, parent_effective, is_none, effective_policy, store_permissions_policy,
  clear_policy_frame, clear_policy_tab, if_origin, policy_entry_for_document, answer_policy,
  policy_for_request, handle_set_frame_delegation, destroyed_key, forget_document,
}
use ff_web_hid.Policy.Frames.Reasons.{is_granted, IsGranted, is_granted-IsGranted}
use ff_web_hid.Messages.Destroyed.{DestroyedFrame}
use ff_web_hid.Policy.Frames.Contained.{
  is_contained, IsContained, IsContained-del, IsContained-del_where,
  store_permissions_policy-IsContained, handle_set_frame_delegation-entries,
  policy_entry_for_document-IsContained,
}

-- The policies that the background comes to hold: the answers of frames are stored, frames and tabs are
-- cleared, documents end, and requests and delegations are handled, in any order.
pub data Reach : Policies → Type 0 where
  here : Reach no_policies
  stores : {p : Policies} (details : Details) → Reach p → Reach (store_permissions_policy details p)
  clears_frame : {p : Policies} (tab frame : ℕ) → Reach p → Reach (clear_policy_frame tab frame p)
  clears_tab : {p : Policies} (tab : ℕ) → Reach p → Reach (clear_policy_tab tab p)
  forgets :
      {p : Policies} (req : DestroyedFrame) (tab : Option ℕ)
      → Reach p
      → Reach (forget_document req tab p)
  asks :
      {p : Policies} (tab frame : ℕ) (document origin : String)
      → Reach p
      → Reach (policy_for_request tab frame document origin p).0
  delegates :
      {p : Policies} (tab frame : ℕ) (document origin : String) (delegated : Bool)
      → Reach p
      → Reach (handle_set_frame_delegation tab frame document origin delegated p).0

forget_document-IsContained :
    (req : DestroyedFrame) (tab : Option ℕ) (p : Policies)
    → IsContained p.entries
    → IsContained (forget_document req tab p).entries
unfolding forget_document
forget_document-IsContained req tab p h = elim (Option-cases (destroyed_key req tab)) [
  | inl nothing ↦ rw (nothing, forget_document) h
  | inr (key, known) ↦ rw (known, forget_document) (IsContained-del key p.entries h)
]

no_policies-IsContained : IsContained no_policies.entries
unfolding is_contained get
no_policies-IsContained = record { distinct = tt; contained = λ key. refl }

Reach-IsContained : {p : Policies} → Reach p → IsContained p.entries
unfolding clear_policy_frame clear_policy_tab policy_for_request
Reach-IsContained here = no_policies-IsContained
Reach-IsContained (stores {p} details r) =
    store_permissions_policy-IsContained details p (Reach-IsContained r)
Reach-IsContained (clears_frame {p} tab frame r) =
    IsContained-del_where (λ key e. key.0.0 == tab && (key.0.1 == frame)) p.entries
      (Reach-IsContained r)
Reach-IsContained (clears_tab {p} tab r) =
    IsContained-del_where (λ key e. key.0.0 == tab) p.entries (Reach-IsContained r)
Reach-IsContained (forgets {p} req tab r) =
    forget_document-IsContained req tab p (Reach-IsContained r)
Reach-IsContained (asks {p} tab frame document origin r) =
    policy_entry_for_document-IsContained tab frame document origin p.entries (Reach-IsContained r)
Reach-IsContained (delegates {p} tab frame document origin delegated r) =
    rw (handle_set_frame_delegation-entries tab frame document origin delegated p) (
      policy_entry_for_document-IsContained tab frame document origin p.entries
        (Reach-IsContained r))

get-put_same : (k : Key) (e : Entry) (m : Map Key Entry) → get k (put k e m) ≡ some e
get-put_same k e m = rw (get-put k k e m, eq_refl k) refl

policy_for_request-grants :
    {p : Policies} (tab frame : ℕ) (document origin : String)
    → Reach p
    → (policy_for_request tab frame document origin p).1 ≡ true
    → is_granted
        (document_key tab frame document)
        origin
        (policy_for_request tab frame document origin p).0
      ≡ true
unfolding policy_for_request policy_entry_for_document if_origin answer_policy is_granted
    is_contained
policy_for_request-grants {p} tab frame document origin r h =
    let exact = document_key tab frame document in
    let pending = document_key tab frame "" in
    let sound = Reach-IsContained r in
    let moved : Entry → Entry = λ e. record e { document_id = document } in
    elim (Option-cases (get exact p.entries)) [
      | inr (e, there) ↦ ground (arith, there, sound.contained exact)
      | inl absent ↦ elim (Option-cases (get pending p.entries)) [
        | inl nothing ↦ ground (arith, absent, nothing)
        | inr (e, there) ↦ ground (
          arith,
          absent,
          there,
          sound.contained pending,
          get-put_same exact (moved e) (del pending p.entries),
        )
      ]
    ]

-- In every run in which documents are stored, cleared, asked for, delegated to and destroyed, an answer
-- that allows `hid` has its reasons: the document's entry stands under its exact key with the origin that
-- asks; the document's own policy allows that origin; and the document has no parent frame, or the entry
-- of its parent's document is known with an origin that is not empty, and this is the origin that asks or
-- the document's delegation is set.
pub policy_for_request-IsGranted :
    {p : Policies} (tab frame : ℕ) (document origin : String)
    → Reach p
    → (policy_for_request tab frame document origin p).1 ≡ true
    → IsGranted
        (document_key tab frame document)
        origin
        (policy_for_request tab frame document origin p).0
policy_for_request-IsGranted {p} tab frame document origin r h =
    is_granted-IsGranted (document_key tab frame document) origin
      (policy_for_request tab frame document origin p).0
      (policy_for_request-grants tab frame document origin r h)

-- A parent's denial is final: when the policy that is in effect for the parent document, under its exact
-- key, does not allow the origin of a child document, then the child, once its own answer is stored, is
-- refused, whatever its own declarations say.
pub store_permissions_policy-refused :
    (details : Details) (p : Policies) (key : Key) (parent : Entry)
    → parent_key_of details ≡ some key
    → get key p.entries ≡ some parent
    → list_allows parent.effective details.origin ≡ false
    → (policy_for_request details.tab details.frame details.document_id details.origin
        (store_permissions_policy details p)).1
      ≡ false
unfolding store_permissions_policy effective_policy parent_of entry_of_parent parent_effective
    policy_for_request policy_entry_for_document if_origin answer_policy is_none list_allows
store_permissions_policy-refused details p key parent child known denied =
    let exact = document_key details.tab details.frame details.document_id in
    let own = own_policy details.origin details.declarations in
    ground (
      arith,
      child,
      known,
      denied,
      get-put_same exact
          (record {
            document_id = details.document_id;
            origin = details.origin;
            parent_frame = details.parent_frame;
            parent_key = parent_key_of details;
            own = own;
            effective = (effective_policy details own p.entries).1;
          })
          (effective_policy details own p.entries).0,
    )
