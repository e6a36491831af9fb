-- ===== src/Page/Calls/Runs/Shut.antt =====
-- A device that is not open has no report pending on its data port, and no promise or port is lost.
use ff_web_hid.Prelude.{
  ℕ, ◌+◌, ◌≤◌, ◌&&◌, String, List, [], ◌∷◌, none, some, Bool, true, false, nat_eq, if◌then◌else◌,
  ◌≡◌, refl, arith,
}
use ff_web_hid.Prelude.Maps.{Map, has, get}
use ff_web_hid.Page.State.{Device, create_hid_device}
use ff_web_hid.Page.Ports.{
  wire_device_port, wire_fresh_port, reject_pending_reports, detach_data_port, close_data_port,
  drop_data_port, handle_data_plane_ready, handle_data_plane_unavailable, handle_wire_worker_port,
  handle_data_port_disconnect_event, reconcile_authoritative_lifetime,
}
use ff_web_hid.Page.Planes.{
  handle_data_plane_connect, reject_in_page_pending, on_plane_closed, on_plane_auth_failed,
  handle_data_plane_disconnect, answer_in_page, on_plane_binary,
}
use ff_web_hid.Page.Reports.{
  Collections, in_page_request, data_port_request, send_on_port, send_device_request,
  handle_report_result,
}
use ff_web_hid.Page.Calls.{
  open_begins, open_forgotten, open_answered, open_bridged, open_waited, open_abandoned,
  close_begins, close_answered, reply_sending, send_report, forget_begins, forget_answered,
  force_forget_device, teardown_begins, teardown_ends,
}
use ff_web_hid.Page.Calls.Kept.{makes, settles, opens, closes, total, is_pending, is_port}
use ff_web_hid.Page.Calls.Runs.{
  Operation, perform, run, run-IsKept, create_hid_device-IsWell, opening, closing, forgetting,
  forcing_forget, abandoning, answered_open, waited_open, answered_close, answered_forget,
  torn_down, bridged_open, sending, answered_report, port_disconnected, disconnected, plane_ready,
  plane_unavailable, plane_connects, wires, plane_disconnects, closed_plane, failed_plane, binary,
  other_request,
}

-- Nothing is pending on the port of a device that is not open.
abbrev pub is_empty : Map ℕ ℕ → Bool
is_empty [] = true
is_empty (p ∷ ps) = false

abbrev pub is_shut : Device → Bool
is_shut d = if d.opened then true else is_empty d.data_pending

get-is_empty : (r : ℕ) (m : Map ℕ ℕ) → is_empty m ≡ true → get r m ≡ none
unfolding get
get-is_empty r [] h = refl
get-is_empty r (p ∷ ps) h = absurd (ground arith)

wire_device_port-is_shut :
    (has_worker : Bool) (generation : ℕ) (d : Device)
    → is_shut d ≡ true
    → is_shut (wire_device_port has_worker generation d).0 ≡ true
unfolding wire_device_port wire_fresh_port reject_pending_reports detach_data_port
wire_device_port-is_shut has_worker generation d h = ground arith

reconcile_authoritative_lifetime-is_shut :
    (forgotten : Bool) (d : Device)
    → is_shut (reconcile_authoritative_lifetime forgotten d).0 ≡ true
unfolding reconcile_authoritative_lifetime reject_pending_reports close_data_port
reconcile_authoritative_lifetime-is_shut forgotten d = ground arith

send_report-is_shut :
    (report_id : ℕ) (collections : Collections) (is_open sends posts : Bool) (d : Device)
    → is_shut d ≡ true
    → is_shut (send_report report_id collections is_open sends posts d).0 ≡ true
unfolding send_report reply_sending send_device_request send_on_port in_page_request
    data_port_request
send_report-is_shut report_id collections is_open sends posts d h = ground arith

perform-is_shut : (op : Operation) (d : Device) → is_shut d ≡ true → is_shut (perform op d).0 ≡ true
unfolding perform open_begins open_forgotten open_answered open_bridged open_waited open_abandoned
    drop_data_port close_begins close_answered reject_pending_reports close_data_port forget_begins
    forget_answered force_forget_device teardown_begins teardown_ends handle_report_result
    handle_data_port_disconnect_event handle_data_plane_ready handle_data_plane_unavailable
    detach_data_port handle_wire_worker_port handle_data_plane_connect reject_in_page_pending
    on_plane_closed on_plane_auth_failed handle_data_plane_disconnect answer_in_page on_plane_binary
perform-is_shut opening d h = ground arith
perform-is_shut closing d h = ground arith
perform-is_shut forgetting d h = ground arith
perform-is_shut forcing_forget d h = ground arith
perform-is_shut abandoning d h = ground arith
perform-is_shut (answered_open is_ok) d h = ground arith
perform-is_shut (waited_open is_ready) d h = ground arith
perform-is_shut (answered_close is_ok) d h = ground arith
perform-is_shut (answered_forget success) d h = ground arith
perform-is_shut (torn_down was_opened) d h = reconcile_authoritative_lifetime-is_shut true d
perform-is_shut (bridged_open has_worker none) d h = ground arith
perform-is_shut (bridged_open has_worker (some generation)) d h = ground (
  arith,
  wire_device_port-is_shut has_worker generation (record d { plane_generation = generation }),
)
perform-is_shut (sending report_id collections is_open sends posts) d h =
    send_report-is_shut report_id collections is_open sends posts d h
perform-is_shut (answered_report req_id has_error) d h =
    ground (arith, get-is_empty req_id d.data_pending)
perform-is_shut port_disconnected d h = reconcile_authoritative_lifetime-is_shut false d
perform-is_shut disconnected d h = reconcile_authoritative_lifetime-is_shut false d
perform-is_shut (plane_ready generation) d h = ground arith
perform-is_shut (plane_unavailable generation) d h = ground arith
perform-is_shut (plane_connects generation) d h = ground arith
perform-is_shut (wires has_worker generation) d h =
    ground (arith, wire_device_port-is_shut has_worker generation d)
perform-is_shut (plane_disconnects generation) d h = ground arith
perform-is_shut (closed_plane generation will_reconnect) d h = ground arith
perform-is_shut (failed_plane generation) d h = ground arith
perform-is_shut (binary generation batch) d h = ground arith
perform-is_shut other_request d h = h

run-is_shut : (ops : List Operation) (d : Device) → is_shut d ≡ true → is_shut (run ops d).0 ≡ true
unfolding run
run-is_shut [] d h = h
run-is_shut (op ∷ ops) d h = run-is_shut ops (perform op d).0 (perform-is_shut op d h)

-- Whatever is done to a new device, in any order and with any answers: the promise of a report with a
-- given id is made at most once, and it is settled exactly once or pending, never both; when the device is not open
-- none is pending on its data port; every port that was opened for it is closed once, but for the one
-- it has; and its plane is not both ready and unavailable.
pub run-IsSettled :
    (device_id : String) (ops : List Operation)
    → (let x = run ops (create_hid_device device_id) in
        ((r : ℕ)
          → (total (makes r) x.1 ≡ total (settles r) x.1 + is_pending r x.0)
            × (total (makes r) x.1 ≤ 1))
        × (is_shut x.0 ≡ true)
        × ((p : ℕ) → total (opens p) x.1 ≡ total (closes p) x.1 + is_port p x.0.data_port)
        × ((x.0.plane_ready && x.0.plane_unavailable) ≡ false))
unfolding has get
run-IsSettled device_id ops =
    let d = create_hid_device device_id in
    let x = run ops d in
    let kept = run-IsKept ops d (create_hid_device-IsWell device_id) in
    (
      λ r. (omega (arith, kept.tally r), ground (arith, kept.numbered r)),
      run-is_shut ops d refl,
      λ p. omega (arith, kept.ports p),
      kept.well.calm,
    )
