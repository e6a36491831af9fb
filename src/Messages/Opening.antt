-- ===== src/Messages/Opening.antt =====
-- handleOpen of addon/js/background/messages.js. It waits for the stored grants, for the daemon and for
-- the grants again, so it is three functions, and other tasks may run in between. What it waits for is an
-- argument: `none` is a rejected promise.
pub mod Safety
use ff_web_hid.Prelude.{
  ℕ, String, List, Option, none, some, Bool, true, false, not, ◌&&◌, ◌||◌, ltb, leb, ◌==◌, nat_eq,
  string_eq, if◌then◌else◌,
}
use ff_web_hid.Prelude.Maps.{contains}
use ff_web_hid.Prelude.Texts.{is_blank}
use ff_web_hid.Ownership.State.{State}
use ff_web_hid.Ownership.Lifetimes.{register_frame_lifetime, is_frame_lifetime_active}
use ff_web_hid.Ownership.Opens.{register_device_tab}
use ff_web_hid.Ownership.Sessions.{OwnerInfo, frame_of, register_device_session}
use ff_web_hid.Ownership.Cleanup.{Closing, start_close}

-- `http.isOk(s)`
unfoldable pub is_ok : ℕ → Bool
is_ok s = leb 200 s && ltb s 300

-- The request with its sender's tab; the empty text stands for a field left out.
pub record OpenRequest : Type 0 where
  pub device_id : ℕ
  pub origin : String
  pub frame_key : String
  pub bridge_instance_id : String
  pub client_key : String

-- The daemon's response: a device id of 0 and the empty token stand for fields left out.
pub record OpenResponse : Type 0 where
  pub status : ℕ
  pub device_id : ℕ
  pub token : String

-- What `sendResponse` is given.
pub data Reply : Type 0 where
  status_only : ℕ → Reply
  passed_on : OpenResponse → Reply

register_owner_frame : OpenRequest → ℕ → State → State × Option Reply
register_owner_frame req tab st =
    let (st', alive) = register_frame_lifetime (some tab) (frame_of req.frame_key tab) st in
    if alive then (st', none) else (st', some (status_only 503))

-- Up to the first wait: the state, and the reply when there is one.
unfoldable pub begin_open : OpenRequest → Option ℕ → State → State × Option Reply
unfolding register_owner_frame
begin_open req none st = (st, some (status_only 403))
begin_open req (some tab) st = register_owner_frame req tab st

-- Once the grants are read: the reply, none when the daemon is asked to open the device.
unfoldable pub check_granted : OpenRequest → Option (List ℕ) → Option Reply
check_granted req none = some (status_only 500)
check_granted req (some granted) =
    if contains req.device_id granted then none else some (status_only 403)

-- The end of an open: the state, the close that it starts and waits for, and the reply.
pub record OpenEnd : Type 0 where
  pub state : State
  pub closing : Option Closing
  pub reply : Reply

-- `if (response.t) await closeForCleanup(…)`, and then the reply.
unfoldable pub refuse_open : OpenResponse → ℕ → State → OpenEnd
refuse_open resp s st = record {
  state = st;
  closing = if is_blank resp.token then none else some (start_close resp.device_id resp.token st);
  reply = status_only s;
}

abbrev pub owner_info : OpenRequest → ℕ → OwnerInfo
owner_info req tab = record {
  tab_id = some tab;
  origin = req.origin;
  frame_key = frame_of req.frame_key tab;
  bridge_instance_id = req.bridge_instance_id;
  client_key = req.client_key;
}

-- `if (response.t) sessionRegistered = registerDeviceSession(…)`
unfoldable pub register_token : OpenRequest → ℕ → OpenResponse → State → State × Bool
register_token req tab resp st =
    if is_blank resp.token
    then (st, true)
    else register_device_session resp.device_id resp.token (owner_info req tab) st

-- The open is granted: the session is registered, and then the open is counted.
unfoldable pub admit_open : OpenRequest → ℕ → OpenResponse → State → OpenEnd
unfolding register_token refuse_open
admit_open req tab resp st =
    let (st', registered) = register_token req tab resp st in
    if registered
    then record {
      state = register_device_tab resp.device_id (some tab) st';
      closing = none;
      reply = passed_on resp;
    }
    else refuse_open resp 503 st'

-- Once the grants are read again: `none` when they cannot be read, which the code answers with 500.
finish_read : OpenRequest → ℕ → OpenResponse → Option (List ℕ) → State → OpenEnd
unfolding admit_open refuse_open
finish_read req tab resp none st = record { state = st; closing = none; reply = status_only 500 }
finish_read req tab resp (some granted) st =
    let alive = is_frame_lifetime_active (some tab) (frame_of req.frame_key tab) st in
    if not (contains req.device_id granted) || not alive
    then refuse_open resp (if alive then 403 else 503) st
    else admit_open req tab resp st

-- Once the daemon has answered; the grants are read again only when it has opened a device.
unfoldable pub finish_open : OpenRequest → ℕ → OpenResponse → Option (List ℕ) → State → OpenEnd
unfolding finish_read
finish_open req tab resp granted st =
    if not (is_ok resp.status) || resp.device_id == 0
    then record { state = st; closing = none; reply = passed_on resp }
    else finish_read req tab resp granted st
