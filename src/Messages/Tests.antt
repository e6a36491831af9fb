-- ===== src/Messages/Tests.antt =====
-- Opens, closes and reports of device 9 by tab 3, at a concrete state.
use ff_web_hid.Prelude.{
  String, List, Option, false, ℕ, [], ◌∷◌, none, some, true, nat_eq, string_eq, ◌≡◌, ◌⊎◌, ◌↔◌, refl,
  arith,
}
use ff_web_hid.Prelude.Maps.{Map, contains, get, put}
use ff_web_hid.Ownership.State.{State, empty, get_in, put_in, inner}
use ff_web_hid.Ownership.Lifetimes.{register_frame_lifetime, is_frame_lifetime_active}
use ff_web_hid.Ownership.Opens.{register_device_tab}
use ff_web_hid.Ownership.Opens.Counts.{opens}
use ff_web_hid.Ownership.Sessions.{frame_of, register_device_session}
use ff_web_hid.Ownership.Sessions.Lookup.{session, new_owner}
use ff_web_hid.Messages.Opening.{
  OpenRequest, OpenResponse, passed_on, is_ok, begin_open, finish_open, admit_open, register_token,
  owner_info,
}
use ff_web_hid.Messages.Opening.Safety.{
  finish_open-lost_iff, refusal_status, IsHanded, IsGivenUp, finish_open-granted,
  finish_open-accounted,
}
use ff_web_hid.Native.Devices.{Device}
use ff_web_hid.Grants.Stores.{ObjectStore, list_store, pair_eq}
use ff_web_hid.Messages.Pairing.{
  handle_pair_device, handle_unpair_device, handle_enumerate_paired, has_device, lists,
  handle_enumerate_paired_effect,
}
use ff_web_hid.Messages.Access.{
  DeviceRequest, refused, handle_close, handle_set_data_plane, handle_send_report,
  handle_send_feature_report, handle_receive_feature_report, handlers_authorised, session_guarded,
}

abbrev request : OpenRequest
request = record {
  device_id = 9;
  origin = "https://a.test";
  frame_key = "b1/f1";
  bridge_instance_id = "b1";
  client_key = "c1";
}

abbrev response : OpenResponse
response = record { status = 200; device_id = 9; token = "s1" }

-- The document of the request is registered.
abbrev begun : State
begun = (begin_open request (some 3) empty).0

-- Its open has come to its end.
abbrev handed : State
handed = (finish_open request 3 response (some (9 ∷ [])) begun).state

handed-facts :
    ((finish_open request 3 response (some (9 ∷ [])) begun).reply ≡ passed_on response)
    × (opens 9 4 handed ≡ 0)
    × (session 9 "s1" handed ≡ some (new_owner 3 (owner_info request 3) begun))
unfolding opens finish_open admit_open register_token is_ok begin_open register_device_session
    register_device_tab is_frame_lifetime_active frame_of get_in put_in get put
    register_frame_lifetime contains inner
handed-facts = (refl, refl, refl)

begun-new : session 9 "s1" begun ≡ none
unfolding begin_open get_in get register_frame_lifetime put_in put inner frame_of
begun-new = refl

finish_open-granted_example :
    (contains {K = ℕ} 9 (9 ∷ []) ≡ true)
    × (is_frame_lifetime_active (some 3) (frame_of "b1/f1" 3) begun ≡ true)
unfolding is_ok
finish_open-granted_example =
    finish_open-granted request 3 response (9 ∷ []) begun refl (omega arith) handed-facts.0

abbrev unread : Option (List ℕ)
unread = none

finish_open-lost_iff_example :
    (let r = finish_open request 3 response unread begun in
      ((session 9 "s1" r.state ≡ none) × (r.closing ≡ none)) ↔ (unread ≡ none))
finish_open-lost_iff_example =
    finish_open-lost_iff request 3 response unread begun (unfold is_ok in refl) (omega arith)
      (λ e. cc) begun-new

finish_open-accounted_example :
    IsHanded request 3 response begun (finish_open request 3 response (some []) begun)
    ⊎ IsGivenUp response
        (refusal_status request 3 [] begun)
        begun
        (finish_open request 3 response (some []) begun)
finish_open-accounted_example =
    finish_open-accounted request 3 response [] begun (unfold is_ok in refl) (omega arith) (λ e. cc)

abbrev stranger : DeviceRequest
stranger = record {
  device_id = 9;
  token = "s1";
  origin = "https://b.test";
  frame_key = "b2/f1";
  client_key = some "c2";
}

handlers_authorised_example :
    (handle_close stranger (some 4) handed ≡ refused 403)
    × (handle_set_data_plane stranger "ws" (some 4) handed ≡ refused 403)
    × (handle_send_report stranger (some 4) 1 (5 ∷ []) handed ≡ refused 403)
    × (handle_send_feature_report stranger (some 4) 1 (5 ∷ []) handed ≡ refused 403)
    × (handle_receive_feature_report stranger (some 4) 1 handed ≡ refused 403)
handlers_authorised_example = handlers_authorised stranger 4 1 "ws" (5 ∷ []) handed handed-facts.1

session_guarded_example :
    (handle_close stranger (some 3) handed ≡ refused 403)
    × (handle_set_data_plane stranger "ws" (some 3) handed ≡ refused 403)
session_guarded_example =
    session_guarded stranger 3 (new_owner 3 (owner_info request 3) begun) "c2" "ws" handed (λ e. cc)
      refl handed-facts.2 refl

abbrev origins : ObjectStore (String × ℕ) ℕ
origins = list_store

abbrev granted_rows : Map (String × ℕ) ℕ
granted_rows = (("https://b.test", 9), 0) ∷ []

abbrev plugged_in : List Device
plugged_in = record { device_id = 9; description = "pad" } ∷ []

handle_enumerate_paired_effect_example :
    (let shown = λ (r : origins.Rows). lists origins 9 (
        handle_enumerate_paired origins
          (record { status = 200; devices = some plugged_in })
          true
          "https://a.test"
          r) in
      (shown (handle_pair_device origins 0 true true "https://a.test" 9 granted_rows).0
        ≡ has_device 9 plugged_in)
      × (shown (handle_unpair_device origins true true "https://a.test" 9 granted_rows).0 ≡ false))
handle_enumerate_paired_effect_example =
    handle_enumerate_paired_effect origins 0 "https://a.test" "https://a.test" 9 9 200 plugged_in
      granted_rows (unfold is_ok in refl) (omega arith)
