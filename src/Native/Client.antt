-- ===== src/Native/Client.antt =====
-- The Native Messaging client of addon/js/background/nm.js: the port, the pending requests, and the
-- reconnection timer. The browser's part is an argument: what connectNative gave, whether postMessage
-- threw, which timer fired.
pub mod Requests
pub mod Backoff
use ff_web_hid.Prelude.{
  ℕ, ◌+◌, ◌*◌, String, List, [], ◌∷◌, ◌++◌, Option, none, some, Bool, true, false, ltb, ◌==◌,
  nat_eq, if◌then◌else◌, map,
}
use ff_web_hid.Prelude.Maps.{contains}
use ff_web_hid.Ownership.State.{State}
use ff_web_hid.Ownership.Purge.{clear_authority_ownership}

-- The fields of a native message that its routing reads, each of which may be missing. `body` stands for
-- the others.
pub record Message : Type 0 where
  pub host_error : Option String
  pub status : Option ℕ
  pub request : Option ℕ
  pub packed : Option String
  pub event : Option ℕ
  pub body : String

pub data Reason : Type 0 where
  nm_disconnected timed_out post_failed : Reason

-- What the promise of a request is settled with.
pub data Answer : Type 0 where
  resolved : Message → Answer
  rejected : Reason → Answer

-- `port` is the identity of the port object, and `reconnect_timer` the delay of the timer that runs.
-- The pending map holds the ids of the requests; the caller of a request is its id.
pub record Client : Type 0 where
  pub port : Option ℕ
  pub next_id : ℕ
  pub pending : List ℕ
  pub reconnect_timer : Option ℕ
  pub reconnect_delay : ℕ
  pub last_error : Option String

abbrev pub fresh_client : Client
fresh_client = record {
  port = none;
  next_id = 1;
  pending = [];
  reconnect_timer = none;
  reconnect_delay = 1000;
  last_error = none;
}

-- Where a message goes besides the answers that it gives.
pub data Route : Type 0 where
  host_error packed_data control_event pending_response daemon_error unmatched : Route

unfoldable pub without : ℕ → List ℕ → List ℕ
without id [] = []
without id (j ∷ ids) = if j == id then without id ids else j ∷ without id ids

-- `for (const [, p] of this.pending) p.resolve(message); this.pending.clear()`
unfoldable pub resolve_all : Message → List ℕ → List (ℕ × Answer)
resolve_all message [] = []
resolve_all message (id ∷ ids) = (id, resolved message) ∷ resolve_all message ids

is_missing : {A : Type 0} → Option A → Bool
is_missing none = true
is_missing (some x) = false

-- The test of each `try…` method, in the order of handleNativeMessage.
unfoldable pub route : Message → Client → Route
unfolding is_missing
route m c =
    if (if is_missing m.host_error
      then false
      else if is_missing m.status
      then false
      else is_missing m.request)
    then host_error
    else if (if is_missing m.packed
        then false
        else if is_missing m.request
        then is_missing m.event
        else false)
    then packed_data
    else if (if is_missing m.event then false else true)
    then control_event
    else if (elim m.request [ none ↦ false | some id ↦ contains id c.pending ])
    then pending_response
    else if (if is_missing m.status
        then false
        else if is_missing m.request
        then is_missing m.host_error
        else false)
    then daemon_error
    else unmatched

abbrev pub or_no_id : Option ℕ → ℕ
or_no_id none = 0
or_no_id (some id) = id

-- tryHostError and tryPendingResponse; the other routes leave the client as it is.
unfoldable pub take_route : Route → Message → Client → Client × List (ℕ × Answer)
take_route host_error m c =
    (record c { pending = []; last_error = m.host_error }, resolve_all m c.pending)
take_route pending_response m c =
    let id = or_no_id m.request in
    (record c { pending = without id c.pending }, (id, resolved m) ∷ [])
take_route packed_data m c = (c, [])
take_route control_event m c = (c, [])
take_route daemon_error m c = (c, [])
take_route unmatched m c = (c, [])

unfoldable pub handle_native_message : Message → Client → Client × List (ℕ × Answer)
unfolding take_route
handle_native_message m c = take_route (route m c) m c

abbrev pub max_delay : ℕ
max_delay = 10000

-- `Math.min(delay * 2, 10000)`
abbrev pub next_delay : ℕ → ℕ
next_delay delay = if ltb (delay * 2) max_delay then delay * 2 else max_delay

unfoldable pub schedule_reconnect : Client → Client
schedule_reconnect c = elim c.reconnect_timer [
  | none ↦ record c {
    reconnect_timer = some c.reconnect_delay;
    reconnect_delay = next_delay c.reconnect_delay;
  }
  | some running ↦ c
]

-- connect(): `given` is the port of connectNative, or none when it throws.
unfoldable pub connect : Option ℕ → Client → Client
unfolding schedule_reconnect
connect given c = elim c.port [
  | some port ↦ c
  | none ↦ elim given [
    | none ↦ schedule_reconnect c
    | some port ↦ record c { port = some port; reconnect_delay = 1000; last_error = none }
  ]
]

-- The timer of scheduleReconnect fires.
unfoldable pub reconnect_fired : Option ℕ → Client → Client
unfolding connect
reconnect_fired given c = connect given (record c { reconnect_timer = none })

-- `{ s: 503 }`
abbrev pub unavailable : Message
unavailable = record {
  host_error = none;
  status = some 503;
  request = none;
  packed = none;
  event = none;
  body = "";
}

is_port : ℕ → Option ℕ → Bool
is_port port none = false
is_port port (some current) = current == port

-- retirePort(port): the client and the ownership state after it, the answers, and what it returns.
unfoldable pub retire_port : ℕ → Client → State → (Client × State) × List (ℕ × Answer) × Bool
unfolding is_port
retire_port port c st =
    if is_port port c.port
    then (
      (record c { port = none; pending = [] }, clear_authority_ownership st),
      resolve_all unavailable c.pending,
      true,
    )
    else ((c, st), [], false)

-- The listener of port.onDisconnect.
unfoldable pub port_disconnected : ℕ → Client → State → (Client × State) × List (ℕ × Answer)
unfolding retire_port schedule_reconnect
port_disconnected port c st =
    let ((c', st'), answers, retired) = retire_port port c st in
    if retired then ((schedule_reconnect c', st'), answers) else ((c', st'), answers)

-- reconnectWithNewHost()
unfoldable pub reconnect_with_new_host :
    Option ℕ → Client → State → (Client × State) × List (ℕ × Answer)
unfolding retire_port connect
reconnect_with_new_host given c st = elim c.port [
  | none ↦ ((connect given (record c { reconnect_timer = none; reconnect_delay = 1000 }), st), [])
  | some port ↦
      (let ((c', st'), answers, retired) = retire_port port c st in
        (
          (connect given (record c' { reconnect_timer = none; reconnect_delay = 1000 }), st'),
          answers,
        ))
]

-- sendFrame: the id of the request, none without a port, and the answer, when there is one at once.
-- `posted` is false when building or posting the message throws.
unfoldable pub send_frame : Option ℕ → Bool → Client → Client × Option ℕ × Option Answer
unfolding connect
send_frame given posted c = elim c.port [
  | none ↦ (connect given c, none, some (rejected nm_disconnected))
  | some port ↦
      (let c' = record c { next_id = c.next_id + 1; pending = c.pending ++ (c.next_id ∷ []) } in
        if posted then (c', some c.next_id, none) else (
          record c' { pending = without c.next_id c'.pending },
          some c.next_id,
          some (rejected post_failed),
        ))
]

-- The deadline of a request: `if (this.pending.delete(id)) … reject(…)`.
unfoldable pub time_out : ℕ → Client → Client × List (ℕ × Answer)
time_out id c =
    if contains id c.pending
    then (record c { pending = without id c.pending }, (id, rejected timed_out) ∷ [])
    else (c, [])
