-- ===== src/Wire/Control/Answers.antt =====
-- A response settles exactly the request whose id it carries, with what the daemon answered; the
-- frames that are sent carry their fields at fixed places.
use ff_web_hid.Prelude.{
  ℕ, ◌+◌, ◌*◌, ◌%◌, ◌/◌, ◌≤◌, ◌<◌, ◌^◌, List, [], ◌∷◌, ◌++◌, none, some, nat_eq, length, take, drop,
  ◌≡◌, refl, arith, ap, ◌≢◌, ◌↔◌, length-take, length-drop, length-replicate,
}
use ff_web_hid.Prelude.Maps.{Map, get, del, get-del}
use ff_web_hid.Prelude.Bytes.{byte_at, u16_le, get_uint16, get_uint32}
use ff_web_hid.Wire.Control.{
  Settled, resolved, resolved_with, rejected_blocked, feature_data, control_outcome,
  handle_control_response, build_send_frame, build_packed_send, resp_receive_feature_report,
  msg_receive_feature_report,
}

module _ {ℓ} {P : Type ℓ} where
  -- What a batch settles was pending under the id in its bytes 1 to 4; requests under other ids stay
  -- pending as they were; and the same batch once more settles nothing and changes nothing.
  pub handle_control_response_once :
      (batch : List ℕ) (pending : Map ℕ P)
      → ((entry : P) (outcome : Settled)
          → (handle_control_response batch pending).0 ≡ some (entry, outcome)
          → get (get_uint32 batch 1) pending ≡ some entry)
        × ((id : ℕ)
            → id ≢ get_uint32 batch 1
            → get id (handle_control_response batch pending).1 ≡ get id pending)
        × (handle_control_response batch (handle_control_response batch pending).1
            ≡ (none, (handle_control_response batch pending).1))
  unfolding handle_control_response
  handle_control_response_once batch pending = (
    λ entry outcome h. ground arith,
    λ id h. ground (arith, get-del (get_uint32 batch 1) id pending),
    ground (arith, get-del (get_uint32 batch 1) (get_uint32 batch 1) pending),
  )

u32_le-read :
    (n : ℕ)
    → n < 2 ^ 32
    → n % 256 + n / 256 % 256 * 256 + n / 65536 % 256 * 65536 + n / 16777216 % 256 * 16777216 ≡ n
u32_le-read n h = omega arith

u16_le-read : (n : ℕ) → n < 2 ^ 16 → n % 256 + n / 256 % 256 * 256 ≡ n
u16_le-read n h = omega arith

take_all : (xs : List ℕ) → take (length xs) xs ≡ xs
take_all [] = refl
take_all (x ∷ xs) = ap (λ t. x ∷ t) (take_all xs)

feature_data-whole :
    (a b c d e f : ℕ) (body : List ℕ)
    → length body < 2 ^ 16
    → feature_data (a ∷ b ∷ c ∷ d ∷ e ∷ f ∷ (u16_le (length body) ++ body)) ≡ body
unfolding feature_data
feature_data-whole a b c d e f [] h = refl
feature_data-whole a b c d e f (x ∷ xs) h =
    rw (u16_le-read (length (x ∷ xs)) h) (ground (arith, take_all xs))

-- The reply of the daemon to a request for a feature report: the request's id, copied from its frame,
-- then status 0, the length of the body and the body.
abbrev pub feature_reply : List ℕ → List ℕ → List ℕ
feature_reply request body =
    resp_receive_feature_report ∷ (take 4 (drop 1 request) ++ (0 ∷ (u16_le (length body) ++ body)))

-- The reply to the frame of a request that is pending resolves that request with exactly the body,
-- and the request is no longer pending.
pub handle_control_response-feature_reply :
    {P : Type 0} (req_id report_id : ℕ) (out body : List ℕ) (entry : P) (pending : Map ℕ P)
    → req_id < 2 ^ 32
    → length body < 2 ^ 16
    → get req_id pending ≡ some entry
    → handle_control_response
        (feature_reply (build_send_frame msg_receive_feature_report req_id report_id out) body)
        pending
      ≡ (some (entry, resolved_with body), del req_id pending)
unfolding handle_control_response control_outcome build_send_frame
handle_control_response-feature_reply req_id report_id out body entry pending h k e =
    rw (u32_le-read req_id h) (
      ground (
        arith,
        feature_data-whole resp_receive_feature_report (req_id % 256) (req_id / 256 % 256)
            (req_id / 65536 % 256) (req_id / 16777216 % 256) 0 body k,
      ))

length-feature_data : (batch : List ℕ) → length (feature_data batch) ≡ get_uint16 batch 6
unfolding feature_data
length-feature_data batch = ground (
  arith,
  length-take (get_uint16 batch 6) (drop 8 batch),
  length-drop 8 batch,
  length-replicate {A = ℕ} (get_uint16 batch 6) 0,
)

-- A request is rejected as blocked exactly on status 2. It is resolved only on status 0; resolved with
-- data only by a feature response of eight bytes at least, and the data has the length in its bytes
-- 6 and 7.
pub control_outcome_status :
    (batch : List ℕ)
    → ((control_outcome batch ≡ rejected_blocked) ↔ (byte_at batch 5 ≡ 2))
      × (control_outcome batch ≡ resolved → byte_at batch 5 ≡ 0)
      × ((body : List ℕ)
          → control_outcome batch ≡ resolved_with body
          → (byte_at batch 0 ≡ resp_receive_feature_report)
            × (byte_at batch 5 ≡ 0)
            × (8 ≤ length batch)
            × (length body ≡ get_uint16 batch 6))
unfolding control_outcome
control_outcome_status batch =
    (ground arith, λ h. ground arith, λ body h. ground (arith, length-feature_data batch))

-- Within their ranges the fields of a request stand at fixed places of its frame: the type at 0, the
-- request id at 1, the report id at 5 and the payload from 6 on.
pub build_send_frame_fields :
    (msg_type req_id report_id : ℕ) (body : List ℕ)
    → msg_type < 256
    → req_id < 2 ^ 32
    → report_id < 256
    → (let f = build_send_frame msg_type req_id report_id body in
        (byte_at f 0 ≡ msg_type)
        × (get_uint32 f 1 ≡ req_id)
        × (byte_at f 5 ≡ report_id)
        × (drop 6 f ≡ body))
unfolding build_send_frame
build_send_frame_fields msg_type req_id report_id body h k l =
    (omega arith, omega arith, omega arith, refl)

-- Likewise for the packed frame of Native Messaging: the device id at 5, the report id at 9, the
-- payload's length at 10 and the payload from 12 on.
pub build_packed_send_fields :
    (msg_type req_id device_id report_id : ℕ) (body : List ℕ)
    → msg_type < 256
    → req_id < 2 ^ 32
    → device_id < 2 ^ 32
    → report_id < 256
    → length body < 2 ^ 16
    → (let f = build_packed_send msg_type req_id device_id report_id body in
        (byte_at f 0 ≡ msg_type)
        × (get_uint32 f 1 ≡ req_id)
        × (get_uint32 f 5 ≡ device_id)
        × (byte_at f 9 ≡ report_id)
        × (get_uint16 f 10 ≡ length body)
        × (drop 12 f ≡ body))
unfolding build_packed_send
build_packed_send_fields msg_type req_id device_id report_id body h k l m n =
    (omega arith, omega arith, omega arith, omega arith, omega arith, refl)
