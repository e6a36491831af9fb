-- ===== src/Page/Reports.antt =====
-- The reports of a device in addon/js/content/main/index.js: the tests of a report id, inPageRequest,
-- sendDeviceRequest and handleReportResult.
pub mod Ids
use ff_web_hid.Prelude.{
  ℕ, suc, ◌+◌, List, [], ◌∷◌, ◌++◌, Option, none, some, Bool, true, false, not, ◌&&◌, ◌||◌, ◌==◌,
  nat_eq, if◌then◌else◌,
}
use ff_web_hid.Prelude.Maps.{Map, get, put, del}
use ff_web_hid.Bridge.Planes.{is_generation}
use ff_web_hid.Page.State.{
  Device, ReportOutcome, done, not_allowed, failed, Effect, promised, settled, posted,
}
use ff_web_hid.Page.Ports.{is_some}

-- A collection by the report ids of its reports, and its children.
mutual
  pub data Collection : Type 0 where
    collection :
        (input_reports output_reports feature_reports : List ℕ) (children : Collections)
        → Collection

  pub data Collections : Type 0 where
    nil : Collections
    cons : Collection → Collections → Collections

unfoldable pub any_report : List ℕ → Bool
any_report [] = false
any_report (r ∷ rs) = if r == 0 then any_report rs else true

unfoldable mutual
  unfolding any_report

  pub collection_uses_report_ids : Collection → Bool
  collection_uses_report_ids (collection inputs outputs features children) =
      if any_report (inputs ++ (outputs ++ features)) then true else device_uses_report_ids children

  pub device_uses_report_ids : Collections → Bool
  device_uses_report_ids nil = false
  device_uses_report_ids (cons c cs) =
      if collection_uses_report_ids c then true else device_uses_report_ids cs

-- The report id, or none where it throws.
unfoldable pub validate_report_id : ℕ → Collections → Option ℕ
validate_report_id report_id collections =
    let uses_report_ids = device_uses_report_ids collections in
    if report_id == 0 && uses_report_ids
    then none
    else if not (report_id == 0) && not uses_report_ids
    then none
    else some report_id

-- What sendDeviceRequest returns: it throws, or there is a promise, which is that of a request id.
pub data Sending : Type 0 where
  unavailable : Sending
  promise_of : ℕ → Sending

-- inPageRequest on a plane that is open; `sends` is what the transport's `send` returns.
unfoldable pub in_page_request : Bool → Device → Device × List Effect
in_page_request sends d =
    let req_id = d.next_req_id + 1 in
    let d' : Device = record d { next_req_id = req_id } in
    if sends
    then (
      record d' { in_page_pending = put req_id d.device_id d.in_page_pending },
      promised req_id ∷ [],
    )
    else (
      record d' { in_page_pending = del req_id (put req_id d.device_id d.in_page_pending) },
      promised req_id ∷ settled req_id failed ∷ [],
    )

-- The request on the data port; `posts` is that postMessage does not throw.
unfoldable pub data_port_request : Bool → ℕ → Device → Device × List Effect
data_port_request posts port d =
    let req_id = d.next_req_id + 1 in
    let d' : Device = record d { next_req_id = req_id } in
    if posts
    then (
      record d' { data_pending = put req_id d.plane_generation d.data_pending },
      promised req_id ∷ posted port req_id ∷ [],
    )
    else (
      record d' { data_pending = del req_id (put req_id d.plane_generation d.data_pending) },
      promised req_id ∷ settled req_id failed ∷ [],
    )

-- sendDeviceRequest past its test of the in-page plane.
unfoldable pub send_on_port : Bool → Device → (Device × List Effect) × Sending
unfolding data_port_request
send_on_port posts d = elim d.data_port [
  | none ↦ ((d, []), unavailable)
  | some port ↦
      if is_generation d.plane_generation d.data_port_generation
      then (data_port_request posts port d, promise_of (d.next_req_id + 1))
      else ((d, []), unavailable)
]

-- `is_open` is that the in-page plane has an open transport.
unfoldable pub send_device_request :
    (is_open sends posts : Bool) → Device → (Device × List Effect) × Sending
unfolding in_page_request send_on_port
send_device_request is_open sends posts d =
    if d.plane_unavailable || not d.plane_ready
    then ((d, []), unavailable)
    else if is_some d.in_page_plane && is_open
    then (in_page_request sends d, promise_of (d.next_req_id + 1))
    else send_on_port posts d

-- handleReportResult; `has_error` is that the message carries an error.
unfoldable pub handle_report_result : ℕ → Bool → Device → Device × List Effect
handle_report_result req_id has_error d = elim (get req_id d.data_pending) [
  | none ↦ (d, [])
  | some entry ↦ (
    record d { data_pending = del req_id d.data_pending },
    settled req_id (if has_error then failed else done) ∷ [],
  )
]
