-- ===== src/Policy/Frames/Reasons.antt =====
-- What stands behind an answer of policyForRequest that allows `hid`: the reasons, told apart from the
-- Boolean tests of the code.
use ff_web_hid.Prelude.{
  String, none, some, Bool, true, false, not, ◌&&◌, ◌||◌, ◌==◌, nat_eq, string_eq, ◌≡◌, ◌≢◌, arith,
  Option-cases, Bool-cases, inl, inr,
}
use ff_web_hid.Prelude.Maps.{get, eq_of_beq}
use ff_web_hid.Policy.Allowlists.{list_allows}
use ff_web_hid.Policy.Frames.{Key, key_eq, Entry, Policies, parent_permits}

-- The reasons as one test.
unfoldable pub is_granted : Key → String → Policies → Bool
unfolding parent_permits
is_granted exact origin p = elim (get exact p.entries) [
  | none ↦ false
  | some e ↦ e.origin == origin && (list_allows e.own e.origin && parent_permits exact e p)
]

-- Why the frame that embeds a document does not stand in its way: there is none; or its document is known
-- with an origin, which is the origin of the document itself, or the document's delegation is set.
pub data ParentAgrees (exact : Key) (e : Entry) (p : Policies) : Type 0 where
  top_level : e.parent_frame ≡ none → ParentAgrees exact e p
  same_origin :
      (key : Key) (parent : Entry)
      → e.parent_key ≡ some key
      → get key p.entries ≡ some parent
      → parent.origin ≢ ""
      → parent.origin ≡ e.origin
      → ParentAgrees exact e p
  delegated :
      (key : Key) (parent : Entry)
      → e.parent_key ≡ some key
      → get key p.entries ≡ some parent
      → parent.origin ≢ ""
      → get exact p.delegations ≡ some true
      → ParentAgrees exact e p

known_parent-ParentAgrees :
    (exact key : Key) (e parent : Entry) (p : Policies)
    → e.parent_key ≡ some key
    → get key p.entries ≡ some parent
    → (not (parent.origin == "")
        && (parent.origin == e.origin
            || elim (get exact p.delegations) [ none ↦ false | some is_set ↦ is_set ]))
      ≡ true
    → ParentAgrees exact e p
known_parent-ParentAgrees exact key e parent p named there h =
    let origin : parent.origin ≢ "" = λ blank. ground (arith, string_eq.beq_iff parent.origin "") in
    elim (Bool-cases (parent.origin == e.origin)) [
      | inl same ↦ same_origin key parent named there origin (eq_of_beq parent.origin e.origin same)
      | inr other ↦
          delegated key parent named there origin (elim (Option-cases (get exact p.delegations)) [
            | inl nothing ↦ absurd (ground (arith, nothing))
            | inr (is_set, e') ↦ ground (arith, e')
          ])
    ]

parent_permits-ParentAgrees :
    (exact : Key) (e : Entry) (p : Policies)
    → parent_permits exact e p ≡ true
    → ParentAgrees exact e p
unfolding parent_permits
parent_permits-ParentAgrees exact e p h = elim (Option-cases e.parent_frame) [
  | inl top ↦ top_level top
  | inr (frame, framed) ↦ elim (Option-cases e.parent_key) [
    | inl nothing ↦ absurd (ground (arith, framed, nothing))
    | inr (key, named) ↦ elim (Option-cases (get key p.entries)) [
      | inl unknown ↦ absurd (ground (arith, framed, named, unknown))
      | inr (parent, there) ↦
          known_parent-ParentAgrees exact key e parent p named there
            (ground (arith, framed, named, there))
    ]
  ]
]

-- The reasons of an answer that allows `hid` to the document of a key.
pub record IsGranted (exact : Key) (origin : String) (p : Policies) : Type 0 where
  pub entry : Entry
  pub known : get exact p.entries ≡ some entry
  pub asked_by : entry.origin ≡ origin
  pub own_policy_allows : list_allows entry.own origin ≡ true
  pub parent_agrees : ParentAgrees exact entry p

pub is_granted-IsGranted :
    (exact : Key) (origin : String) (p : Policies)
    → is_granted exact origin p ≡ true
    → IsGranted exact origin p
unfolding is_granted
is_granted-IsGranted exact origin p h = elim (Option-cases (get exact p.entries)) [
  | inl nothing ↦ absurd (ground (arith, nothing))
  | inr (e, there) ↦
      let same : e.origin ≡ origin = eq_of_beq e.origin origin (ground (arith, there)) in
      record {
        entry = e;
        known = there;
        asked_by = same;
        own_policy_allows = rw (← same) (ground (arith, there));
        parent_agrees = parent_permits-ParentAgrees exact e p (ground (arith, there));
      }
]
