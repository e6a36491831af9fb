-- ===== src/Page/Calls.antt =====
-- The calls of the HIDDevice interface in addon/js/content/main/index.js: open, close, sendReport and the
-- feature reports, forget, and what the background does to a device that was revoked.
pub mod Kept
pub mod Runs
use ff_web_hid.Prelude.{
  ℕ, List, [], ◌∷◌, ◌++◌, Option, none, some, Bool, true, false, not, ◌||◌, if◌then◌else◌,
}
use ff_web_hid.Page.State.{
  Device, open_device, close_device, wait_data_plane_ready, unpair_device, fulfilled,
  invalid_state_error, network_error, type_error, open_event, close_event, Effect, sent, replied,
  dispatched,
}
use ff_web_hid.Page.Ports.{
  wire_device_port, reject_pending_reports, close_data_port, drop_data_port,
  reconcile_authoritative_lifetime,
}
use ff_web_hid.Page.Reports.{
  Collections, validate_report_id, Sending, unavailable, promise_of, send_device_request,
}

-- open(), until its request is sent.
unfoldable pub open_begins : Device → Device × List Effect
open_begins d =
    if d.forgotten
    then (d, replied invalid_state_error ∷ [])
    else if d.opened
    then (d, replied invalid_state_error ∷ [])
    else if d.opening
    then (d, replied invalid_state_error ∷ [])
    else (record d { opening = true }, sent open_device ∷ [])

-- The throw of open() for a device that was forgotten in the meantime, and its `finally`.
unfoldable pub open_forgotten : Device → Device × List Effect
open_forgotten d =
    (record d { opening = false }, sent close_device ∷ replied invalid_state_error ∷ [])

-- The response to the request of open(), which then awaits bridgeReady.
unfoldable pub open_answered : Bool → Device → Device × List Effect
unfolding open_forgotten
open_answered is_ok d =
    if d.forgotten
    then open_forgotten d
    else if is_ok
    then (d, [])
    else (record d { opening = false }, replied network_error ∷ [])

-- After bridgeReady: the response's clientPlaneGeneration is a number or not.
unfoldable pub open_bridged : Bool → Option ℕ → Device → Device × List Effect
unfolding open_forgotten wire_device_port
open_bridged has_worker client_plane_generation d =
    if d.forgotten then open_forgotten d else elim client_plane_generation [
      | none ↦ (record d { opening = false }, replied network_error ∷ [])
      | some generation ↦
          (let (d', effects) =
              wire_device_port has_worker generation (record d { plane_generation = generation }) in
            (d', effects ++ (sent wait_data_plane_ready ∷ [])))
    ]

-- The answer to waitDataPlaneReady.
unfoldable pub open_waited : Bool → Device → Device × List Effect
unfolding drop_data_port
open_waited is_ready d =
    let (dropped, closed_ones) = drop_data_port d in
    if is_ready
    then (
      record d { plane_ready = true; plane_unavailable = false; opened = true; opening = false },
      dispatched open_event ∷ replied fulfilled ∷ [],
    )
    else (dropped, closed_ones ++ (sent close_device ∷ []))

-- The close request of an open() that failed is answered.
unfoldable pub open_abandoned : Device → Device × List Effect
open_abandoned d = (record d { opening = false }, replied network_error ∷ [])

-- close(), until its request is sent.
unfoldable pub close_begins : Device → Device × List Effect
close_begins d =
    if d.forgotten
    then (d, replied invalid_state_error ∷ [])
    else if not d.opened
    then (d, replied fulfilled ∷ [])
    else (d, sent close_device ∷ [])

unfoldable pub close_answered : Bool → Device → Device × List Effect
unfolding reject_pending_reports close_data_port
close_answered is_ok d =
    let (d1, settled_ones) = reject_pending_reports (record d {
      opened = false;
      plane_ready = false;
      plane_unavailable = false;
      plane_unavailable_generation = none;
    }) in
    let (d2, closed_ones) = close_data_port d1 in
    if is_ok
    then (d2, settled_ones ++ (closed_ones ++ (dispatched close_event ∷ replied fulfilled ∷ [])))
    else (d, replied invalid_state_error ∷ [])

-- The end of a call that sends a report: a throw of sendDeviceRequest is a NetworkError.
unfoldable pub reply_sending : (Device × List Effect) × Sending → Device × List Effect
reply_sending (r, promise_of req_id) = r
reply_sending ((d, effects), unavailable) = (d, effects ++ (replied network_error ∷ []))

-- sendReport, sendFeatureReport and receiveFeatureReport, with a report id that is an octet.
unfoldable pub send_report :
    ℕ → Collections → (is_open sends posts : Bool) → Device → Device × List Effect
unfolding reply_sending send_device_request validate_report_id
send_report report_id collections is_open sends posts d =
    if not d.opened
    then (d, replied invalid_state_error ∷ [])
    else elim (validate_report_id report_id collections) [
      | none ↦ (d, replied type_error ∷ [])
      | some normalized_report_id ↦ reply_sending (send_device_request is_open sends posts d)
    ]

-- forget(), until its request is sent.
unfoldable pub forget_begins : Device → Device × List Effect
forget_begins d = if d.forgotten then (d, replied fulfilled ∷ []) else (d, sent unpair_device ∷ [])

-- teardownForgottenDevice, until the close request of a device that is open is sent.
unfoldable pub teardown_begins : Device → Device × List Effect
teardown_begins d = if d.opened then (d, sent close_device ∷ []) else (d, [])

-- The rest of teardownForgottenDevice; `was_opened` is what it read first.
unfoldable pub teardown_ends : Bool → Device → Device × List Effect
unfolding reconcile_authoritative_lifetime
teardown_ends was_opened d =
    let (d', effects) = reconcile_authoritative_lifetime true d in
    (d', if was_opened then effects ++ (dispatched close_event ∷ []) else effects)

-- The answer to unpairDevice: the device is torn down, or the call fails.
unfoldable pub forget_answered : Bool → Device → Device × List Effect
unfolding teardown_begins
forget_answered success d = if success then teardown_begins d else (d, replied network_error ∷ [])

-- forceForgetDevice, for a device that the page knows.
unfoldable pub force_forget_device : Device → Device × List Effect
unfolding teardown_begins
force_forget_device d = if d.forgotten then (d, []) else teardown_begins d
