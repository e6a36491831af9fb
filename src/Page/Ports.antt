-- ===== src/Page/Ports.antt =====
-- The data port of a device and the planes behind it, in addon/js/content/main/index.js: wireDevicePort,
-- detachDataPort, rejectPendingReports, reconcileAuthoritativeLifetime, and the messages of the bridge
-- about data planes.
use ff_web_hid.Prelude.{
  ℕ, ◌+◌, List, [], ◌∷◌, ◌++◌, Option, none, some, Bool, true, false, not, ◌&&◌, ◌||◌, ltb, ◌==◌,
  nat_eq, string_eq, if◌then◌else◌,
}
use ff_web_hid.Prelude.Maps.{keys_where}
use ff_web_hid.Bridge.Planes.{is_generation}
use ff_web_hid.Page.State.{
  Device, ReportOutcome, failed, disconnect_event, Effect, dispatched, settled, offered, closed,
}

abbrev pub is_some : {A : Type 0} → Option A → Bool
is_some none = false
is_some (some a) = true

unfoldable pub settle_all : ReportOutcome → List ℕ → List Effect
settle_all outcome [] = []
settle_all outcome (r ∷ rs) = settled r outcome ∷ settle_all outcome rs

-- Every pending report is rejected; the entries' `reject` makes a NetworkError of any error given here.
unfoldable pub reject_pending_reports : Device → Device × List Effect
unfolding settle_all
reject_pending_reports d =
    (record d { data_pending = [] }, settle_all failed (keys_where (λ r g. true) d.data_pending))

unfoldable pub detach_data_port : Device → Device × List Effect
detach_data_port d = elim d.data_port [
  | none ↦ (record d { data_port_generation = none }, [])
  | some p ↦ (record d { data_port = none; data_port_generation = none }, closed p ∷ [])
]

-- `if (state.dataPort) { …close…; state.dataPort = null; state.dataPortGeneration = null }`
unfoldable pub close_data_port : Device → Device × List Effect
close_data_port d = elim d.data_port [
  | none ↦ (d, [])
  | some p ↦ (record d { data_port = none; data_port_generation = none }, closed p ∷ [])
]

-- The same where the plane of an open call is not ready, which leaves the port's generation.
unfoldable pub drop_data_port : Device → Device × List Effect
drop_data_port d = elim d.data_port [
  | none ↦ (d, [])
  | some p ↦ (record d { data_port = none }, closed p ∷ [])
]

-- The end of wireDevicePort, from the change of generation.
unfoldable pub wire_fresh_port : Bool → ℕ → Device → Device × List Effect
wire_fresh_port has_worker generation d = (
  record d {
    plane_generation = generation;
    plane_ready = false;
    plane_unavailable_generation =
        if generation == d.plane_generation then d.plane_unavailable_generation else none;
    plane_unavailable = if d.opened then true else d.plane_unavailable;
    data_port = some d.next_port;
    data_port_generation = some generation;
    next_port = d.next_port + 1;
  },
  offered d.next_port generation has_worker ∷ [],
)

unfoldable pub wire_device_port : Bool → ℕ → Device → Device × List Effect
unfolding reject_pending_reports detach_data_port wire_fresh_port
wire_device_port has_worker generation d =
    if is_some d.data_port && is_generation generation d.data_port_generation
    then (d, [])
    else if is_some d.data_port
    then (let (d1, settled_ones) = reject_pending_reports d in
        let (d2, closed_ones) = detach_data_port d1 in
        let (d3, offered_ones) = wire_fresh_port has_worker generation d2 in
        (d3, settled_ones ++ (closed_ones ++ offered_ones)))
    else wire_fresh_port has_worker generation d

unfoldable pub handle_data_plane_ready : ℕ → Device → Device × List Effect
handle_data_plane_ready generation d =
    if not (generation == d.plane_generation)
      || (is_generation generation d.plane_unavailable_generation || not (d.opened || d.opening))
    then (d, [])
    else (
      record d {
        plane_generation = generation;
        plane_ready = true;
        plane_unavailable = false;
        plane_unavailable_generation = none;
      },
      [],
    )

unfoldable pub handle_data_plane_unavailable : ℕ → Device → Device × List Effect
unfolding reject_pending_reports detach_data_port
handle_data_plane_unavailable generation d =
    if ltb generation d.plane_generation || not (d.opened || d.opening)
    then (d, [])
    else (let (d1, settled_ones) = reject_pending_reports (record d {
      plane_generation = generation;
      plane_ready = false;
      plane_unavailable = true;
      plane_unavailable_generation = some generation;
    }) in
        let (d2, closed_ones) = detach_data_port d1 in (d2, settled_ones ++ closed_ones))

unfoldable pub handle_wire_worker_port : Bool → ℕ → Device → Device × List Effect
unfolding wire_device_port
handle_wire_worker_port has_worker generation d =
    if not (d.opened || d.opening) || ltb generation d.plane_generation
    then (d, [])
    else wire_device_port has_worker generation d

unfoldable pub reconcile_authoritative_lifetime : Bool → Device → Device × List Effect
unfolding reject_pending_reports close_data_port
reconcile_authoritative_lifetime forgotten d =
    let (d1, settled_ones) = reject_pending_reports (record d {
      opening = false;
      forgotten = if forgotten then true else d.forgotten;
      opened = false;
      plane_ready = false;
      plane_unavailable = false;
      plane_unavailable_generation = none;
    }) in
    let (d2, closed_ones) = close_data_port d1 in (d2, settled_ones ++ closed_ones)

unfoldable pub handle_data_port_disconnect_event : Device → Device × List Effect
unfolding reconcile_authoritative_lifetime
handle_data_port_disconnect_event d =
    let (d', effects) = reconcile_authoritative_lifetime false d in
    (d', effects ++ (dispatched disconnect_event ∷ []))
