-- ===== src/Bridge/Data.antt =====
-- The requests of reports that addon/js/content/isolated/bridge.js forwards: allocateDataReqId, the attempts
-- at Native Messaging, the runtime port of a device, onDataPortMessage and handleWorkerReportResponse. A
-- plane's key is the triple of its parts, the context's key, the device's id and the client's key, which
-- can be read from it.
pub mod Allocation
pub mod Answered
pub mod Kept
pub mod Runs
use ff_web_hid.Prelude.{
  ℕ, suc, zero, ◌+◌, ◌-◌, String, List, [], ◌∷◌, ◌++◌, Option, none, some, Bool, true, false, not,
  ◌&&◌, ◌||◌, ltb, leb, ◌==◌, Eq, nat_eq, string_eq, ◌↔◌, ◌≡◌, arith, if◌then◌else◌, length,
}
use ff_web_hid.Prelude.Maps.{Map, get, put, del, has, del_where}
use ff_web_hid.Ownership.Opens.{or_zero}
use ff_web_hid.Messages.Opening.{is_ok}

abbrev pub PlaneKey : Type 0
PlaneKey = (String × String) × String

abbrev pub same_key : PlaneKey → PlaneKey → Bool
same_key j k = j.0.0 == k.0.0 && (j.0.1 == k.0.1 && (j.1 == k.1))

pub same_key_iff : (j k : PlaneKey) → (same_key j k ≡ true) ↔ (j ≡ k)
same_key_iff ((a, b), c) ((x, y), z) =
    ground (arith, string_eq.beq_iff a x, string_eq.beq_iff b y, string_eq.beq_iff c z)

instance abbrev pub plane_key_eq : Eq PlaneKey
plane_key_eq = record { beq = same_key; beq_iff = same_key_iff }

-- The type of a page's message.
pub data Kind : Type 0 where
  send send_feature receive_feature : Kind

-- An entry of dataPending: the message's type and request id, the page's port, the plane's key and the
-- device.
pub record Pending : Type 0 where
  pub kind : Kind
  pub page_req_id : ℕ
  pub port : Option ℕ
  pub key : PlaneKey
  pub device : String

pub record Data : Type 0 where
  pub data_pending : Map ℕ Pending
  pub data_req_seq : ℕ
  pub nm_planes : List PlaneKey
  pub nm_open_attempts : Map PlaneKey ℕ
  pub runtime_ports : Map String ℕ
  pub next_port : ℕ

abbrev pub no_data : Data
no_data = record {
  data_pending = [];
  data_req_seq = 0;
  nm_planes = [];
  nm_open_attempts = [];
  runtime_ports = [];
  next_port = 0;
}

-- What the page is told: no error, the data of a feature report or null, or one of the two errors.
pub data Told : Type 0 where
  no_error blocked send_failed no_bytes : Told
  bytes : List ℕ → Told

-- Of the request with that id: it is forwarded, the page is told, or there is no port to tell it.
pub data Effect : Type 0 where
  forwarded : ℕ → Effect
  told : ℕ → ℕ → ℕ → Told → Effect
  unheard : ℕ → Effect

-- A response of the daemon, with its status and the data of a feature report.
pub record Response : Type 0 where
  pub status : ℕ
  pub bytes_of : Option (List ℕ)

abbrev pub status_only : ℕ → Response
status_only status = record { status = status; bytes_of = none }

unfoldable pub told_of : Kind → Response → Told
told_of receive_feature response =
    if response.status == 403
    then blocked
    else if is_ok response.status
    then elim response.bytes_of [ none ↦ no_bytes | some b ↦ bytes b ]
    else no_bytes
told_of kind response =
    if response.status == 403
    then blocked
    else if is_ok response.status
    then no_error
    else send_failed

unfoldable pub handle_worker_report_response : ℕ → Pending → Response → List Effect
unfolding told_of
handle_worker_report_response req_id pending response = elim pending.port [
  | none ↦ unheard req_id ∷ []
  | some port ↦ told req_id port pending.page_req_id (told_of pending.kind response) ∷ []
]

-- Number.MAX_SAFE_INTEGER
abbrev pub max_safe_integer : ℕ
max_safe_integer = 9007199254740991

unfoldable pub next_seq : ℕ → ℕ
next_seq seq = if leb max_safe_integer seq then 1 else seq + 1

-- The loop of allocateDataReqId, on fuel.
unfoldable pub allocate : ℕ → ℕ → Map ℕ Pending → Option ℕ
unfolding next_seq
allocate zero seq pending = none
allocate (suc fuel) seq pending =
    let rest = allocate fuel (next_seq seq) pending in
    if has (next_seq seq) pending then rest else some (next_seq seq)

-- Twice as many rounds as there are requests pending, and two more, which the sequence may need when it
-- wraps around. `none` stands for the loop that does not end.
unfoldable pub allocate_data_req_id : Data → Option ℕ
unfolding allocate
allocate_data_req_id d =
    let rounds = length d.data_pending + 1 in
    allocate (rounds + rounds) d.data_req_seq d.data_pending

abbrev pub has_device_key : List PlaneKey → String → Bool
has_device_key [] device = false
has_device_key (key ∷ keys) device = if key.0.1 == device then true else has_device_key keys device

abbrev pub keys_of : Map PlaneKey ℕ → List PlaneKey
keys_of [] = []
keys_of ((key, n) ∷ attempts) = key ∷ keys_of attempts

unfoldable pub retain_nm_open_attempt : PlaneKey → Data → Data
retain_nm_open_attempt key d = record d {
  nm_open_attempts = put key (or_zero (get key d.nm_open_attempts) + 1) d.nm_open_attempts;
}

unfoldable pub release_nm_open_attempt : PlaneKey → Data → Data
release_nm_open_attempt key d =
    let count = or_zero (get key d.nm_open_attempts) in
    if ltb 1 count
    then record d { nm_open_attempts = put key (count - 1) d.nm_open_attempts }
    else record d { nm_open_attempts = del key d.nm_open_attempts }

unfoldable pub any_pending : String → Map ℕ Pending → Bool
any_pending device [] = false
any_pending device ((r, p) ∷ pending) =
    if p.device == device then true else any_pending device pending

unfoldable pub maybe_disconnect_runtime_data_port : String → Data → Data
unfolding any_pending
maybe_disconnect_runtime_data_port device d =
    if has_device_key d.nm_planes device || has_device_key (keys_of d.nm_open_attempts) device
    then d
    else if any_pending device d.data_pending
    then d
    else record d { runtime_ports = del device d.runtime_ports }

unfoldable pub ensure_runtime_data_port : String → Data → Data
ensure_runtime_data_port device d = elim (get device d.runtime_ports) [
  | some port ↦ d
  | none ↦ record d {
    runtime_ports = put device d.next_port d.runtime_ports;
    next_port = d.next_port + 1;
  }
]

-- onDataPortMessage, for a message of one of the three types; `posts` is that postMessage does not throw.
unfoldable pub on_data_port_message : Pending → Bool → Data → Data × List Effect
unfolding allocate_data_req_id ensure_runtime_data_port handle_worker_report_response
on_data_port_message p posts d = elim (allocate_data_req_id d) [
  | none ↦ (d, [])
  | some req_id ↦
      (let d' = ensure_runtime_data_port p.device (record d { data_req_seq = req_id }) in
        if posts
        then (record d' { data_pending = put req_id p d'.data_pending }, forwarded req_id ∷ [])
        else (
          record d' { data_pending = del req_id (put req_id p d'.data_pending) },
          forwarded req_id ∷ handle_worker_report_response req_id p (status_only 500),
        ))
]

-- The runtime port of a device carries a response.
unfoldable pub on_runtime_response : String → ℕ → Response → Data → Data × List Effect
unfolding handle_worker_report_response maybe_disconnect_runtime_data_port
on_runtime_response device req_id response d = elim (get req_id d.data_pending) [
  | none ↦ (d, [])
  | some p ↦
      if p.device == device
      then (
        maybe_disconnect_runtime_data_port device
            (record d { data_pending = del req_id d.data_pending }),
        handle_worker_report_response req_id p response,
      )
      else (d, [])
]

-- The requests that pass the test are answered with that status, and dropped.
unfoldable pub answer_where : (Pending → Bool) → ℕ → Map ℕ Pending → List Effect
unfolding handle_worker_report_response
answer_where test status [] = []
answer_where test status ((r, p) ∷ pending) =
    if test p
    then handle_worker_report_response r p (status_only status) ++ answer_where test status pending
    else answer_where test status pending

-- The runtime port of a device, the one that is known, is disconnected.
unfoldable pub on_runtime_disconnect : String → Data → Data × List Effect
unfolding answer_where
on_runtime_disconnect device d = (
  record d {
    runtime_ports = del device d.runtime_ports;
    data_pending = del_where (λ r p. p.device == device) d.data_pending;
  },
  answer_where (λ p. p.device == device) 503 d.data_pending,
)

abbrev pub drop_plane : PlaneKey → List PlaneKey → List PlaneKey
drop_plane key [] = []
drop_plane key (k ∷ keys) = if same_key k key then drop_plane key keys else k ∷ drop_plane key keys

-- What despawnDataPlane does to the requests of a plane, from its loop over dataPending.
unfoldable pub despawn_requests : PlaneKey → Data → Data × List Effect
unfolding answer_where maybe_disconnect_runtime_data_port
despawn_requests key d = (
  maybe_disconnect_runtime_data_port key.0.1 (record d {
    data_pending = del_where (λ r p. same_key p.key key) d.data_pending;
    nm_planes = drop_plane key d.nm_planes;
  }),
  answer_where (λ p. same_key p.key key) 503 d.data_pending,
)
