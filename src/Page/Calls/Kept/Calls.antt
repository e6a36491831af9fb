-- ===== src/Page/Calls/Kept/Calls.antt =====
-- The stages of the calls of the interface keep the tallies.
use ff_web_hid.Prelude.{
  ℕ, List, [], ◌∷◌, ◌++◌, Option, none, some, Bool, true, false, not, if◌then◌else◌, ◌≡◌, refl,
}
use ff_web_hid.Page.State.{
  Device, open_device, close_device, wait_data_plane_ready, unpair_device, fulfilled,
  invalid_state_error, network_error, open_event, close_event, Effect, sent, replied, dispatched,
}
use ff_web_hid.Page.Ports.{
  wire_device_port, reject_pending_reports, close_data_port, drop_data_port,
  reconcile_authoritative_lifetime,
}
use ff_web_hid.Page.Calls.{
  open_begins, open_forgotten, open_answered, open_bridged, open_waited, open_abandoned,
  close_begins, close_answered, forget_begins, teardown_begins, teardown_ends, forget_answered,
  force_forget_device,
}
use ff_web_hid.Page.Calls.Kept.{
  IsWell, IsKept, IsKept-then, IsKept-if, are_quiet, IsKept-quiet, IsKept-idle,
}
use ff_web_hid.Page.Calls.Kept.Ports.{
  wire_device_port-IsKept, reject_pending_reports-IsKept, close_data_port-IsKept,
  drop_data_port-IsKept,
}
use ff_web_hid.Page.Calls.Kept.Messages.{reconcile_authoritative_lifetime-IsKept}

-- The flag of a call in flight changes, and nothing else.
opening-IsKept :
    (opening : Bool) (d : Device) (effects : List Effect)
    → are_quiet effects ≡ true
    → IsWell d
    → IsKept d (record d { opening = opening }, effects)
opening-IsKept opening d effects quiet h =
    IsKept-quiet d (record d { opening = opening }) effects
      (record { on_port = refl; in_page = refl; next = refl; port = refl }) h.calm quiet h

pub open_begins-IsKept : (d : Device) → IsWell d → IsKept d (open_begins d)
unfolding open_begins are_quiet
open_begins-IsKept d h =
    let refused = IsKept-idle d (replied invalid_state_error ∷ []) refl h in
    let r : Device × List Effect = (d, replied invalid_state_error ∷ []) in
    let begun : Device × List Effect = (record d { opening = true }, sent open_device ∷ []) in
    IsKept-if d d.forgotten r (if d.opened then r else if d.opening then r else begun) refused (
      IsKept-if d d.opened r (if d.opening then r else begun) refused (
        IsKept-if d d.opening r begun refused
          (opening-IsKept true d (sent open_device ∷ []) refl h)))

open_forgotten-IsKept : (d : Device) → IsWell d → IsKept d (open_forgotten d)
unfolding open_forgotten are_quiet
open_forgotten-IsKept d h =
    opening-IsKept false d (sent close_device ∷ replied invalid_state_error ∷ []) refl h

pub open_abandoned-IsKept : (d : Device) → IsWell d → IsKept d (open_abandoned d)
unfolding open_abandoned are_quiet
open_abandoned-IsKept d h = opening-IsKept false d (replied network_error ∷ []) refl h

pub open_answered-IsKept : (is_ok : Bool) (d : Device) → IsWell d → IsKept d (open_answered is_ok d)
unfolding open_answered are_quiet
open_answered-IsKept is_ok d h =
    let failed : Device × List Effect =
      (record d { opening = false }, replied network_error ∷ []) in
    IsKept-if d d.forgotten (open_forgotten d) (if is_ok then (d, []) else failed)
      (open_forgotten-IsKept d h)
      (IsKept-if d is_ok (d, []) failed (IsKept-idle d [] refl h)
        (opening-IsKept false d (replied network_error ∷ []) refl h))

pub open_bridged-IsKept :
    (has_worker : Bool) (client_plane_generation : Option ℕ) (d : Device)
    → IsWell d
    → IsKept d (open_bridged has_worker client_plane_generation d)
unfolding open_bridged are_quiet
open_bridged-IsKept has_worker none d h =
    IsKept-if d d.forgotten (open_forgotten d)
      (record d { opening = false }, replied network_error ∷ []) (open_forgotten-IsKept d h)
      (opening-IsKept false d (replied network_error ∷ []) refl h)
open_bridged-IsKept has_worker (some generation) d h =
    let newer : Device = record d { plane_generation = generation } in
    let w = wire_device_port has_worker generation newer in
    let changes =
      IsKept-quiet d newer [] (record { on_port = refl; in_page = refl; next = refl; port = refl })
        h.calm refl h in
    let wires = wire_device_port-IsKept has_worker generation newer changes.well in
    IsKept-if d d.forgotten (open_forgotten d) (w.0, w.1 ++ (sent wait_data_plane_ready ∷ []))
      (open_forgotten-IsKept d h)
      (IsKept-then d (newer, []) (w.0, w.1 ++ (sent wait_data_plane_ready ∷ [])) changes
        (IsKept-then newer w (w.0, sent wait_data_plane_ready ∷ []) wires
          (IsKept-idle w.0 (sent wait_data_plane_ready ∷ []) refl wires.well)))

pub open_waited-IsKept :
    (is_ready : Bool) (d : Device) → IsWell d → IsKept d (open_waited is_ready d)
unfolding open_waited are_quiet
open_waited-IsKept is_ready d h =
    let opened : Device = record d {
      plane_ready = true;
      plane_unavailable = false;
      opened = true;
      opening = false;
    } in
    let r = drop_data_port d in
    let drops = drop_data_port-IsKept d h in
    IsKept-if d is_ready (opened, dispatched open_event ∷ replied fulfilled ∷ [])
      (r.0, r.1 ++ (sent close_device ∷ []))
      (IsKept-quiet d opened (dispatched open_event ∷ replied fulfilled ∷ [])
        (record { on_port = refl; in_page = refl; next = refl; port = refl }) refl refl h)
      (IsKept-then d r (r.0, sent close_device ∷ []) drops
        (IsKept-idle r.0 (sent close_device ∷ []) refl drops.well))

pub close_begins-IsKept : (d : Device) → IsWell d → IsKept d (close_begins d)
unfolding close_begins are_quiet
close_begins-IsKept d h =
    let r : Device × List Effect = (d, replied fulfilled ∷ []) in
    let begun : Device × List Effect = (d, sent close_device ∷ []) in
    IsKept-if d d.forgotten (d, replied invalid_state_error ∷ [])
      (if not d.opened then r else begun) (IsKept-idle d (replied invalid_state_error ∷ []) refl h)
      (IsKept-if d (not d.opened) r begun (IsKept-idle d (replied fulfilled ∷ []) refl h)
        (IsKept-idle d (sent close_device ∷ []) refl h))

pub close_answered-IsKept :
    (is_ok : Bool) (d : Device) → IsWell d → IsKept d (close_answered is_ok d)
unfolding close_answered are_quiet
close_answered-IsKept is_ok d h =
    let shut : Device = record d {
      opened = false;
      plane_ready = false;
      plane_unavailable = false;
      plane_unavailable_generation = none;
    } in
    let last = dispatched close_event ∷ replied fulfilled ∷ [] in
    let r = reject_pending_reports shut in
    let t = close_data_port r.0 in
    let shuts =
      IsKept-quiet d shut [] (record { on_port = refl; in_page = refl; next = refl; port = refl })
        refl refl h in
    let rejects = reject_pending_reports-IsKept shut shuts.well in
    let closes = close_data_port-IsKept r.0 rejects.well in
    IsKept-if d is_ok (t.0, r.1 ++ (t.1 ++ last)) (d, replied invalid_state_error ∷ [])
      (IsKept-then d (shut, []) (t.0, r.1 ++ (t.1 ++ last)) shuts
        (IsKept-then shut r (t.0, t.1 ++ last) rejects
          (IsKept-then r.0 t (t.0, last) closes (IsKept-idle t.0 last refl closes.well))))
      (IsKept-idle d (replied invalid_state_error ∷ []) refl h)

pub forget_begins-IsKept : (d : Device) → IsWell d → IsKept d (forget_begins d)
unfolding forget_begins are_quiet
forget_begins-IsKept d h =
    IsKept-if d d.forgotten (d, replied fulfilled ∷ []) (d, sent unpair_device ∷ [])
      (IsKept-idle d (replied fulfilled ∷ []) refl h)
      (IsKept-idle d (sent unpair_device ∷ []) refl h)

teardown_begins-IsKept : (d : Device) → IsWell d → IsKept d (teardown_begins d)
unfolding teardown_begins are_quiet
teardown_begins-IsKept d h =
    IsKept-if d d.opened (d, sent close_device ∷ []) (d, [])
      (IsKept-idle d (sent close_device ∷ []) refl h) (IsKept-idle d [] refl h)

pub teardown_ends-IsKept :
    (was_opened : Bool) (d : Device) → IsWell d → IsKept d (teardown_ends was_opened d)
unfolding teardown_ends are_quiet
teardown_ends-IsKept true d h =
    let r = reconcile_authoritative_lifetime true d in
    let loses = reconcile_authoritative_lifetime-IsKept true d h in
    IsKept-then d r (r.0, dispatched close_event ∷ []) loses
      (IsKept-idle r.0 (dispatched close_event ∷ []) refl loses.well)
teardown_ends-IsKept false d h = reconcile_authoritative_lifetime-IsKept true d h

pub forget_answered-IsKept :
    (success : Bool) (d : Device) → IsWell d → IsKept d (forget_answered success d)
unfolding forget_answered are_quiet
forget_answered-IsKept success d h =
    IsKept-if d success (teardown_begins d) (d, replied network_error ∷ [])
      (teardown_begins-IsKept d h) (IsKept-idle d (replied network_error ∷ []) refl h)

pub force_forget_device-IsKept : (d : Device) → IsWell d → IsKept d (force_forget_device d)
unfolding force_forget_device are_quiet
force_forget_device-IsKept d h =
    IsKept-if d d.forgotten (d, []) (teardown_begins d) (IsKept-idle d [] refl h)
      (teardown_begins-IsKept d h)
