-- ===== src/Policy/Tests.antt =====
-- Declarations of a document, and a page with a frame of another origin.
use ff_web_hid.Prelude.{List, [], ◌∷◌, none, some, true, false, string_eq, nat_eq, ◌≡◌, refl}
use ff_web_hid.Prelude.Maps.{get, put, contains}
use ff_web_hid.Policy.Allowlists.{
  Allowlist, all_allowed, origins, list_of, common, intersect_allowlists, list_allows,
  resolve_origins, resolve_self, intersect_from, own_policy,
}
use ff_web_hid.Policy.Allowlists.Reading.{all_allow, list_allows-own_policy}
use ff_web_hid.Policy.Frames.{
  key_eq, document_key, Entry, Policies, no_policies, Details, parent_key_of, parent_of,
  parent_effective, is_none, effective_policy, store_permissions_policy, if_origin,
  policy_entry_for_document, parent_permits, answer_policy, policy_for_request,
}
use ff_web_hid.Policy.Frames.Reasons.{IsGranted}
use ff_web_hid.Policy.Frames.Allowed.{
  here, stores, policy_for_request-IsGranted, store_permissions_policy-refused,
}

abbrev declared : List Allowlist
declared = origins ("https://b.test" ∷ "self" ∷ []) ∷ all_allowed ∷ origins ("self" ∷ []) ∷ []

list_allows-own_policy_example :
    list_allows (own_policy "https://a.test" declared) "https://a.test" ≡ true
unfolding all_allow list_allows contains
list_allows-own_policy_example =
    list_allows-own_policy "https://a.test" "https://a.test" declared refl

abbrev page : Details
page = record {
  tab = 1;
  frame = 0;
  document_id = "p";
  parent_frame = none;
  parent_document = none;
  origin = "https://a.test";
  declarations = declared;
}

abbrev with_page : Policies
with_page = store_permissions_policy page no_policies

policy_for_request-IsGranted_example :
    IsGranted
      (document_key 1 0 "p")
      "https://a.test"
      (policy_for_request 1 0 "p" "https://a.test" with_page).0
unfolding policy_for_request policy_entry_for_document if_origin answer_policy parent_permits
    store_permissions_policy effective_policy parent_of parent_effective is_none parent_key_of
    own_policy intersect_from intersect_allowlists common list_of resolve_self resolve_origins
    list_allows contains get put
policy_for_request-IsGranted_example =
    policy_for_request-IsGranted 1 0 "p" "https://a.test" (stores page here) refl

-- A frame of the page, of an origin that the page's policy does not allow.
abbrev frame : Details
frame = record {
  tab = 1;
  frame = 4;
  document_id = "f";
  parent_frame = some 0;
  parent_document = some "p";
  origin = "https://c.test";
  declarations = [];
}

abbrev page_entry : Entry
page_entry = record {
  document_id = "p";
  origin = "https://a.test";
  parent_frame = none;
  parent_key = none;
  own = own_policy "https://a.test" declared;
  effective = own_policy "https://a.test" declared;
}

store_permissions_policy-refused_example :
    (policy_for_request 1 4 "f" "https://c.test" (store_permissions_policy frame with_page)).1
    ≡ false
unfolding store_permissions_policy effective_policy parent_of parent_effective is_none parent_key_of
    own_policy intersect_from intersect_allowlists common list_of resolve_self resolve_origins
    list_allows contains get put
store_permissions_policy-refused_example =
    store_permissions_policy-refused frame with_page (document_key 1 0 "p") page_entry refl refl
      refl
