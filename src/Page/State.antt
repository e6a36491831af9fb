-- ===== src/Page/State.antt =====
-- The state of a HIDDevice in addon/js/content/main/index.js, as createHIDDevice makes it, and what its
-- operations do to the world.
use ff_web_hid.Prelude.{ℕ, String, List, [], Option, none, Bool, false}
use ff_web_hid.Prelude.Maps.{Map}
use ff_web_hid.Wire.Reports.{InputReport}

-- The fields of `state`, with `null` as none and dataPending as a map that is empty at first. A message
-- port of the page is a number; its handler is there exactly as long as the port. Of the page's own
-- variables there are the generation of the device's plane in inPagePlanes, inPagePending with the ids
-- of the devices, nextReqId and the number of the next port.
pub record Device : Type 0 where
  pub device_id : String
  pub opened : Bool
  pub opening : Bool
  pub forgotten : Bool
  pub plane_generation : ℕ
  pub plane_ready : Bool
  pub plane_unavailable : Bool
  pub plane_unavailable_generation : Option ℕ
  pub data_port : Option ℕ
  pub data_port_generation : Option ℕ
  pub data_pending : Map ℕ ℕ
  pub in_page_plane : Option ℕ
  pub in_page_pending : Map ℕ String
  pub next_req_id : ℕ
  pub next_port : ℕ

abbrev pub create_hid_device : String → Device
create_hid_device device_id = record {
  device_id = device_id;
  opened = false;
  opening = false;
  forgotten = false;
  plane_generation = 0;
  plane_ready = false;
  plane_unavailable = false;
  plane_unavailable_generation = none;
  data_port = none;
  data_port_generation = none;
  data_pending = [];
  in_page_plane = none;
  in_page_pending = [];
  next_req_id = 0;
  next_port = 0;
}

-- The requests to the bridge.
pub data Request : Type 0 where
  open_device close_device wait_data_plane_ready unpair_device : Request

-- How the promise of a call of the interface is settled: with a value, or with an error by its name.
pub data Reply : Type 0 where
  fulfilled invalid_state_error network_error type_error : Reply

-- How the promise of a report is settled.
pub data ReportOutcome : Type 0 where
  done not_allowed failed : ReportOutcome

pub data PageEvent : Type 0 where
  open_event close_event disconnect_event : PageEvent

-- `promised` and `settled` are of the report with that request id; `offered` is the other end of a new
-- port, with its generation and whether it goes to the device's worker.
pub data Effect : Type 0 where
  sent : Request → Effect
  replied : Reply → Effect
  dispatched : PageEvent → Effect
  promised : ℕ → Effect
  settled : ℕ → ReportOutcome → Effect
  posted : ℕ → ℕ → Effect
  offered : ℕ → ℕ → Bool → Effect
  closed : ℕ → Effect
  reported : List InputReport → Effect
  plane_answered : Bool → Effect
  plane_closed plane_auth_failed : ℕ → Effect
