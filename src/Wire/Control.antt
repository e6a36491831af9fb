-- ===== src/Wire/Control.antt =====
-- handleControlResponse and buildSendFrame of addon/js/utils/wire-format.js, and buildPackedSend of
-- addon/js/background/packed.js: requests and the responses that answer them.
pub mod Answers
mod Tests
use ff_web_hid.Prelude.{
  ℕ, zero, suc, ◌+◌, ◌%◌, ◌^◌, List, [], ◌∷◌, ◌++◌, Option, none, some, ◌&&◌, ltb, leb, ◌==◌,
  nat_eq, length, take, drop, replicate, if◌then◌else◌,
}
use ff_web_hid.Prelude.Maps.{Map, get, del}
use ff_web_hid.Prelude.Bytes.{byte_at, u16_le, u32_le, get_uint16, get_uint32}

abbrev pub msg_send_report : ℕ
msg_send_report = 0x01

abbrev pub msg_send_feature_report : ℕ
msg_send_feature_report = 0x02

abbrev pub msg_receive_feature_report : ℕ
msg_receive_feature_report = 0x03

abbrev pub resp_receive_feature_report : ℕ
resp_receive_feature_report = 0x83

-- The `Error` that a request is rejected with.
pub data Failure : Type 0 where
  feature_read_failed short_feature_resp : Failure
  write_failed : ℕ → Failure

-- What a pending request is settled with: `entry.resolve(...)` or `entry.reject(...)`.
pub data Settled : Type 0 where
  resolved : Settled
  resolved_with : List ℕ → Settled
  rejected_blocked : Settled
  rejected : Failure → Settled

-- The bytes of a feature report: `new Uint8Array(len)`, filled only if the batch holds all of them.
feature_data : List ℕ → List ℕ
feature_data batch =
    let len = get_uint16 batch 6 in
    if ltb 0 len && leb (8 + len) (length batch) then take len (drop 8 batch) else replicate len 0

-- The branch for RESP_RECEIVE_FEATURE_REPORT.
feature_response : List ℕ → Settled
unfolding feature_data
feature_response batch =
    let status = byte_at batch 5 in
    if status == 2
    then rejected_blocked
    else if status == 0
    then (if ltb (length batch) 8
        then rejected short_feature_resp
        else resolved_with (feature_data batch))
    else rejected feature_read_failed

unfoldable pub control_outcome : List ℕ → Settled
unfolding feature_response
control_outcome batch =
    let status = byte_at batch 5 in
    if byte_at batch 0 == resp_receive_feature_report
    then feature_response batch
    else if status == 0
    then resolved
    else if status == 2
    then rejected_blocked
    else rejected (write_failed status)

module _ {ℓ} {P : Type ℓ} where
  -- `entry` for the request id of the batch, settled and taken out of `pending`.
  unfoldable pub settle_entry : List ℕ → ℕ → Option P → Map ℕ P → Option (P × Settled) × Map ℕ P
  settle_entry batch req_id none pending = (none, pending)
  settle_entry batch req_id (some entry) pending =
      (some (entry, control_outcome batch), del req_id pending)

  -- The pending request that the batch settles, with its outcome, and the requests left pending.
  unfoldable pub handle_control_response : List ℕ → Map ℕ P → Option (P × Settled) × Map ℕ P
  unfolding settle_entry
  handle_control_response batch pending =
      if ltb (length batch) 6
      then (none, pending)
      else settle_entry batch (get_uint32 batch 1) (get (get_uint32 batch 1) pending) pending

-- `payload|null` is the empty list for `null`; a Uint8Array keeps each number's low 8 bits.
unfoldable pub build_send_frame : ℕ → ℕ → ℕ → List ℕ → List ℕ
build_send_frame msg_type req_id report_id payload =
    (msg_type % 256) ∷ (u32_le req_id ++ ((report_id % 256) ∷ payload))

abbrev pub pkg_input_report : ℕ
pkg_input_report = 0x01

abbrev pub pkg_send_report : ℕ
pkg_send_report = 0x02

abbrev pub pkg_send_feature_report : ℕ
pkg_send_feature_report = 0x04

-- buildPackedSend(msgType, reqId, deviceId, reportId, data)
unfoldable pub build_packed_send : ℕ → ℕ → ℕ → ℕ → List ℕ → List ℕ
build_packed_send msg_type req_id device_id report_id payload =
    (msg_type % 256)
    ∷ (u32_le req_id
        ++ (u32_le device_id ++ ((report_id % 256) ∷ (u16_le (length payload) ++ payload))))
