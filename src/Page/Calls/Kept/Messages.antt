-- ===== src/Page/Calls/Kept/Messages.antt =====
-- The bridge's messages about planes, and the loss of a device, keep the tallies.
use ff_web_hid.Prelude.{
  ℕ, [], ◌∷◌, ◌++◌, none, some, Bool, true, false, not, ◌||◌, ltb, ◌==◌, nat_eq, string_eq,
  if◌then◌else◌, refl,
}
use ff_web_hid.Bridge.Planes.{is_generation}
use ff_web_hid.Page.State.{Device, disconnect_event, dispatched}
use ff_web_hid.Page.Ports.{
  reject_pending_reports, detach_data_port, close_data_port, wire_device_port,
  handle_data_plane_ready, handle_data_plane_unavailable, handle_wire_worker_port,
  reconcile_authoritative_lifetime, handle_data_port_disconnect_event,
}
use ff_web_hid.Page.Calls.Kept.{
  IsWell, IsKept, IsKept-then, IsKept-if, are_quiet, IsKept-quiet, IsKept-idle,
}
use ff_web_hid.Page.Calls.Kept.Ports.{
  reject_pending_reports-IsKept, detach_data_port-IsKept, close_data_port-IsKept,
  wire_device_port-IsKept,
}

pub handle_data_plane_ready-IsKept :
    (generation : ℕ) (d : Device) → IsWell d → IsKept d (handle_data_plane_ready generation d)
unfolding handle_data_plane_ready are_quiet
handle_data_plane_ready-IsKept generation d h =
    let ready : Device = record d {
      plane_generation = generation;
      plane_ready = true;
      plane_unavailable = false;
      plane_unavailable_generation = none;
    } in
    IsKept-if d
      (not (generation == d.plane_generation)
        || (is_generation generation d.plane_unavailable_generation || not (d.opened || d.opening)))
      (d, []) (ready, []) (IsKept-idle d [] refl h)
      (IsKept-quiet d ready [] (record { on_port = refl; in_page = refl; next = refl; port = refl })
        refl refl h)

pub handle_data_plane_unavailable-IsKept :
    (generation : ℕ) (d : Device) → IsWell d → IsKept d (handle_data_plane_unavailable generation d)
unfolding handle_data_plane_unavailable are_quiet
handle_data_plane_unavailable-IsKept generation d h =
    let lost : Device = record d {
      plane_generation = generation;
      plane_ready = false;
      plane_unavailable = true;
      plane_unavailable_generation = some generation;
    } in
    let r = reject_pending_reports lost in
    let t = detach_data_port r.0 in
    let loses =
      IsKept-quiet d lost [] (record { on_port = refl; in_page = refl; next = refl; port = refl })
        refl refl h in
    let rejects = reject_pending_reports-IsKept lost loses.well in
    IsKept-if d (ltb generation d.plane_generation || not (d.opened || d.opening)) (d, [])
      (t.0, r.1 ++ t.1) (IsKept-idle d [] refl h)
      (IsKept-then d (lost, []) (t.0, r.1 ++ t.1) loses
        (IsKept-then lost r t rejects (detach_data_port-IsKept r.0 rejects.well)))

pub handle_wire_worker_port-IsKept :
    (has_worker : Bool) (generation : ℕ) (d : Device)
    → IsWell d
    → IsKept d (handle_wire_worker_port has_worker generation d)
unfolding handle_wire_worker_port are_quiet
handle_wire_worker_port-IsKept has_worker generation d h =
    IsKept-if d (not (d.opened || d.opening) || ltb generation d.plane_generation) (d, [])
      (wire_device_port has_worker generation d) (IsKept-idle d [] refl h)
      (wire_device_port-IsKept has_worker generation d h)

pub reconcile_authoritative_lifetime-IsKept :
    (forgotten : Bool) (d : Device)
    → IsWell d
    → IsKept d (reconcile_authoritative_lifetime forgotten d)
unfolding reconcile_authoritative_lifetime are_quiet
reconcile_authoritative_lifetime-IsKept forgotten d h =
    let lost : Device = record d {
      opening = false;
      forgotten = if forgotten then true else d.forgotten;
      opened = false;
      plane_ready = false;
      plane_unavailable = false;
      plane_unavailable_generation = none;
    } in
    let r = reject_pending_reports lost in
    let loses =
      IsKept-quiet d lost [] (record { on_port = refl; in_page = refl; next = refl; port = refl })
        refl refl h in
    let rejects = reject_pending_reports-IsKept lost loses.well in
    let t = close_data_port r.0 in
    IsKept-then d (lost, []) (t.0, r.1 ++ t.1) loses
      (IsKept-then lost r t rejects (close_data_port-IsKept r.0 rejects.well))

pub handle_data_port_disconnect_event-IsKept :
    (d : Device) → IsWell d → IsKept d (handle_data_port_disconnect_event d)
unfolding handle_data_port_disconnect_event are_quiet
handle_data_port_disconnect_event-IsKept d h =
    let r = reconcile_authoritative_lifetime false d in
    let lost = reconcile_authoritative_lifetime-IsKept false d h in
    IsKept-then d r (r.0, dispatched disconnect_event ∷ []) lost
      (IsKept-idle r.0 (dispatched disconnect_event ∷ []) refl lost.well)
