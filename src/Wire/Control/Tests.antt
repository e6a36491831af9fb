-- ===== src/Wire/Control/Tests.antt =====
-- Requests and responses at concrete bytes.
use ff_web_hid.Prelude.{ℕ, String, List, [], ◌∷◌, some, ◌≡◌, refl, arith, nat_eq}
use ff_web_hid.Prelude.Maps.{Map, get, del}
use ff_web_hid.Wire.Control.{
  resolved_with, rejected_blocked, control_outcome, handle_control_response, build_send_frame,
  msg_receive_feature_report,
}
use ff_web_hid.Wire.Control.Answers.{feature_reply, handle_control_response-feature_reply}

abbrev pending : Map ℕ String
pending = (258, "feature") ∷ (5, "output") ∷ []

-- The daemon answers request 5 with status 2.
abbrev blocked : List ℕ
blocked = 0x81 ∷ 5 ∷ 0 ∷ 0 ∷ 0 ∷ 2 ∷ []

handle_control_response-blocked :
    handle_control_response blocked pending
    ≡ (some ("output", rejected_blocked), (258, "feature") ∷ [])
unfolding handle_control_response control_outcome get del
handle_control_response-blocked = refl

handle_control_response-feature_reply_example :
    handle_control_response
      (feature_reply (build_send_frame msg_receive_feature_report 258 4 []) (9 ∷ 8 ∷ []))
      pending
    ≡ (some ("feature", resolved_with (9 ∷ 8 ∷ [])), del 258 pending)
handle_control_response-feature_reply_example =
    handle_control_response-feature_reply 258 4 [] (9 ∷ 8 ∷ []) "feature" pending (omega arith)
      (omega arith) (unfold get in refl)
