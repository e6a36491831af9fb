-- ===== src/Page/Calls/Runs.antt =====
-- The runs of a device: its operations in any order, with any answers.
pub mod Shut
use ff_web_hid.Prelude.{
  ℕ, suc, ◌+◌, String, List, [], ◌∷◌, ◌++◌, Option, none, some, Bool, true, false, if◌then◌else◌,
  ◌≡◌, refl, arith,
}
use ff_web_hid.Prelude.Maps.{has, get}
use ff_web_hid.Page.State.{Device, create_hid_device, Effect}
use ff_web_hid.Page.Ports.{
  wire_device_port, handle_data_plane_ready, handle_data_plane_unavailable, handle_wire_worker_port,
  handle_data_port_disconnect_event, reconcile_authoritative_lifetime,
}
use ff_web_hid.Page.Planes.{
  handle_data_plane_connect, on_plane_closed, on_plane_auth_failed, handle_data_plane_disconnect,
  on_plane_binary,
}
use ff_web_hid.Page.Reports.{Collections, handle_report_result}
use ff_web_hid.Page.Calls.{
  open_begins, open_answered, open_bridged, open_waited, open_abandoned, close_begins,
  close_answered, send_report, forget_begins, forget_answered, force_forget_device, teardown_ends,
}
use ff_web_hid.Page.Calls.Kept.{
  makes, settles, opens, closes, total, is_pending, is_port, IsTable-nil, IsTable-later, IsWell,
  IsKept, IsKept-then, IsKept-idle, are_quiet,
}
use ff_web_hid.Page.Calls.Kept.Ports.{wire_device_port-IsKept}
use ff_web_hid.Page.Calls.Kept.Messages.{
  handle_data_plane_ready-IsKept, handle_data_plane_unavailable-IsKept,
  handle_wire_worker_port-IsKept, handle_data_port_disconnect_event-IsKept,
  reconcile_authoritative_lifetime-IsKept,
}
use ff_web_hid.Page.Calls.Kept.Planes.{
  handle_data_plane_connect-IsKept, on_plane_closed-IsKept, on_plane_auth_failed-IsKept,
  handle_data_plane_disconnect-IsKept, on_plane_binary-IsKept,
}
use ff_web_hid.Page.Calls.Kept.Reports.{send_report-IsKept, handle_report_result-IsKept}
use ff_web_hid.Page.Calls.Kept.Calls.{
  open_begins-IsKept, open_answered-IsKept, open_bridged-IsKept, open_waited-IsKept,
  open_abandoned-IsKept, close_begins-IsKept, close_answered-IsKept, forget_begins-IsKept,
  forget_answered-IsKept, force_forget_device-IsKept, teardown_ends-IsKept,
}

-- The stages of the calls, the messages of the data port, those of the bridge, the callbacks of a plane,
-- a disconnect event, and a request of the page that is not this device's.
pub data Operation : Type 0 where
  opening closing forgetting forcing_forget abandoning : Operation
  answered_open waited_open answered_close answered_forget torn_down : Bool → Operation
  bridged_open : Bool → Option ℕ → Operation
  sending : ℕ → Collections → (is_open sends posts : Bool) → Operation
  answered_report : ℕ → Bool → Operation
  port_disconnected disconnected : Operation
  plane_ready plane_unavailable plane_connects : ℕ → Operation
  wires : Bool → ℕ → Operation
  plane_disconnects : Option ℕ → Operation
  closed_plane : ℕ → Bool → Operation
  failed_plane : ℕ → Operation
  binary : ℕ → List ℕ → Operation
  other_request : Operation

unfoldable pub perform : Operation → Device → Device × List Effect
perform opening d = open_begins d
perform closing d = close_begins d
perform forgetting d = forget_begins d
perform forcing_forget d = force_forget_device d
perform abandoning d = open_abandoned d
perform (answered_open is_ok) d = open_answered is_ok d
perform (waited_open is_ready) d = open_waited is_ready d
perform (answered_close is_ok) d = close_answered is_ok d
perform (answered_forget success) d = forget_answered success d
perform (torn_down was_opened) d = teardown_ends was_opened d
perform (bridged_open has_worker generation) d = open_bridged has_worker generation d
perform (sending report_id collections is_open sends posts) d =
    send_report report_id collections is_open sends posts d
perform (answered_report req_id has_error) d = handle_report_result req_id has_error d
perform port_disconnected d = handle_data_port_disconnect_event d
perform disconnected d = reconcile_authoritative_lifetime false d
perform (plane_ready generation) d = handle_data_plane_ready generation d
perform (plane_unavailable generation) d = handle_data_plane_unavailable generation d
perform (plane_connects generation) d = handle_data_plane_connect generation d
perform (wires has_worker generation) d = handle_wire_worker_port has_worker generation d
perform (plane_disconnects generation) d = handle_data_plane_disconnect generation d
perform (closed_plane generation will_reconnect) d = on_plane_closed generation will_reconnect d
perform (failed_plane generation) d = on_plane_auth_failed generation d
perform (binary generation batch) d = on_plane_binary generation batch d
perform other_request d = (record d { next_req_id = d.next_req_id + 1 }, [])

unfoldable pub run : List Operation → Device → Device × List Effect
run [] d = (d, [])
run (op ∷ ops) d =
    let (d', effects) = perform op d in let (last, more) = run ops d' in (last, effects ++ more)

other_request-IsKept :
    (d : Device) → IsWell d → IsKept d (record d { next_req_id = d.next_req_id + 1 }, [])
unfolding total
other_request-IsKept d h = record {
  tally = λ r. refl;
  numbered = λ r. ground arith;
  ports = λ p. refl;
  well = record {
    on_port =
        IsTable-later d.next_req_id (d.next_req_id + 1) d.data_pending (omega arith) h.on_port;
    in_page =
        IsTable-later d.next_req_id (d.next_req_id + 1) d.in_page_pending (omega arith) h.in_page;
    calm = h.calm;
  };
}

perform-IsKept : (op : Operation) (d : Device) → IsWell d → IsKept d (perform op d)
unfolding perform
perform-IsKept opening d h = open_begins-IsKept d h
perform-IsKept closing d h = close_begins-IsKept d h
perform-IsKept forgetting d h = forget_begins-IsKept d h
perform-IsKept forcing_forget d h = force_forget_device-IsKept d h
perform-IsKept abandoning d h = open_abandoned-IsKept d h
perform-IsKept (answered_open is_ok) d h = open_answered-IsKept is_ok d h
perform-IsKept (waited_open is_ready) d h = open_waited-IsKept is_ready d h
perform-IsKept (answered_close is_ok) d h = close_answered-IsKept is_ok d h
perform-IsKept (answered_forget success) d h = forget_answered-IsKept success d h
perform-IsKept (torn_down was_opened) d h = teardown_ends-IsKept was_opened d h
perform-IsKept (bridged_open has_worker generation) d h =
    open_bridged-IsKept has_worker generation d h
perform-IsKept (sending report_id collections is_open sends posts) d h =
    send_report-IsKept report_id collections is_open sends posts d h
perform-IsKept (answered_report req_id has_error) d h =
    handle_report_result-IsKept req_id has_error d h
perform-IsKept port_disconnected d h = handle_data_port_disconnect_event-IsKept d h
perform-IsKept disconnected d h = reconcile_authoritative_lifetime-IsKept false d h
perform-IsKept (plane_ready generation) d h = handle_data_plane_ready-IsKept generation d h
perform-IsKept (plane_unavailable generation) d h =
    handle_data_plane_unavailable-IsKept generation d h
perform-IsKept (plane_connects generation) d h = handle_data_plane_connect-IsKept generation d h
perform-IsKept (wires has_worker generation) d h =
    handle_wire_worker_port-IsKept has_worker generation d h
perform-IsKept (plane_disconnects generation) d h =
    handle_data_plane_disconnect-IsKept generation d h
perform-IsKept (closed_plane generation will_reconnect) d h =
    on_plane_closed-IsKept generation will_reconnect d h
perform-IsKept (failed_plane generation) d h = on_plane_auth_failed-IsKept generation d h
perform-IsKept (binary generation batch) d h = on_plane_binary-IsKept generation batch d h
perform-IsKept other_request d h = other_request-IsKept d h

pub run-IsKept : (ops : List Operation) (d : Device) → IsWell d → IsKept d (run ops d)
unfolding run are_quiet
run-IsKept [] d h = IsKept-idle d [] refl h
run-IsKept (op ∷ ops) d h =
    let first = perform-IsKept op d h in
    IsKept-then d (perform op d) (run ops (perform op d).0) first
      (run-IsKept ops (perform op d).0 first.well)

pub create_hid_device-IsWell : (device_id : String) → IsWell (create_hid_device device_id)
create_hid_device-IsWell device_id = record {
  on_port = IsTable-nil 0;
  in_page = IsTable-nil 0;
  calm = refl;
}
