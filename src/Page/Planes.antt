-- ===== src/Page/Planes.antt =====
-- The plane that a page runs itself for a device, in addon/js/content/main/index.js: the start of
-- handleDataPlaneConnect and the callbacks of its transport, handleDataPlaneDisconnect and
-- rejectInPagePending.
use ff_web_hid.Prelude.{
  ℕ, List, [], ◌∷◌, ◌++◌, Option, none, some, Bool, true, false, not, ◌&&◌, ◌||◌, ltb, leb, ◌==◌,
  nat_eq, string_eq, length, if◌then◌else◌,
}
use ff_web_hid.Prelude.Maps.{del_where, keys_where}
use ff_web_hid.Bridge.Planes.{is_generation}
use ff_web_hid.Wire.Control.{
  handle_control_response, Settled, resolved, resolved_with, rejected_blocked, rejected,
}
use ff_web_hid.Wire.Reports.{parse_input_reports}
use ff_web_hid.Prelude.Bytes.{byte_at, get_uint32}
use ff_web_hid.Page.State.{
  Device, ReportOutcome, done, not_allowed, failed, Effect, settled, reported, plane_answered,
  plane_closed, plane_auth_failed,
}
use ff_web_hid.Page.Ports.{is_some, settle_all}

-- handleDataPlaneConnect, up to the connection of the plane's transport.
unfoldable pub handle_data_plane_connect : ℕ → Device → Device × List Effect
handle_data_plane_connect generation d =
    if ltb generation d.plane_generation || (generation == d.plane_generation && d.plane_ready)
    then (d, plane_answered false ∷ [])
    else (
      record d {
        plane_generation = generation;
        plane_ready = false;
        plane_unavailable = true;
        plane_unavailable_generation = none;
        in_page_plane = some generation;
      },
      [],
    )

unfoldable pub reject_in_page_pending : Device → Device × List Effect
unfolding settle_all
reject_in_page_pending d = (
  record d { in_page_pending = del_where (λ r owner. owner == d.device_id) d.in_page_pending },
  settle_all failed (keys_where (λ r owner. owner == d.device_id) d.in_page_pending),
)

-- onClosed of the plane of a generation.
unfoldable pub on_plane_closed : ℕ → Bool → Device → Device × List Effect
unfolding reject_in_page_pending
on_plane_closed generation will_reconnect d =
    let (d', effects) = reject_in_page_pending d in
    if not (is_generation generation d.in_page_plane)
    then (d, [])
    else if will_reconnect
    then (d', effects)
    else (record d' { in_page_plane = none }, effects ++ (plane_closed generation ∷ []))

unfoldable pub on_plane_auth_failed : ℕ → Device → Device × List Effect
unfolding reject_in_page_pending
on_plane_auth_failed generation d =
    let (d', effects) = reject_in_page_pending (record d { in_page_plane = none }) in
    if not (is_generation generation d.in_page_plane)
    then (d, [])
    else (d', effects ++ (plane_auth_failed generation ∷ []))

-- handleDataPlaneDisconnect, with the generation that the message may carry.
unfoldable pub handle_data_plane_disconnect : Option ℕ → Device → Device × List Effect
unfolding reject_in_page_pending
handle_data_plane_disconnect generation d =
    if is_some d.in_page_plane
      && elim generation [ none ↦ true | some g ↦ is_generation g d.in_page_plane ]
    then reject_in_page_pending (record d { in_page_plane = none })
    else (d, [])

-- What `entry.resolve` and `entry.reject` of a report in the page make of a response.
abbrev pub outcome_of : Settled → ReportOutcome
outcome_of resolved = done
outcome_of (resolved_with bytes) = done
outcome_of rejected_blocked = not_allowed
outcome_of (rejected failure) = failed

-- The request id of a control response, at its place in the frame.
unfoldable pub answer_in_page : List ℕ → Device → Device × List Effect
answer_in_page batch d =
    let (entry, pending) = handle_control_response batch d.in_page_pending in
    (
      record d { in_page_pending = pending },
      elim entry [
        | none ↦ []
        | some (owner, outcome) ↦ settled (get_uint32 batch 1) (outcome_of outcome) ∷ []
      ],
    )

abbrev pub msg_input_batch : ℕ
msg_input_batch = 0

-- pushInPageBatch; an input batch that cannot be parsed throws.
unfoldable pub push_in_page_batch : List ℕ → ℕ → List Effect
push_in_page_batch batch offset = elim (parse_input_reports batch offset) [
  | none ↦ []
  | some reports ↦ reported reports ∷ []
]

-- onBinary of the plane of a generation.
unfoldable pub on_plane_binary : ℕ → List ℕ → Device → Device × List Effect
unfolding answer_in_page push_in_page_batch
on_plane_binary generation batch d =
    if not (is_generation generation d.in_page_plane)
    then (d, [])
    else if ltb 0 (length batch) && leb 0x81 (byte_at batch 0)
    then answer_in_page batch d
    else (
      d,
      push_in_page_batch batch
          (if ltb 0 (length batch) && (byte_at batch 0 == msg_input_batch) then 1 else 0),
    )
