-- ===== src/Bridge/Control.antt =====
-- The control port of the bridge: pumpControlQueue, sendBackgroundRequest, sendHandshakeRequest and the
-- listeners of controlPort of addon/js/content/isolated/bridge.js. A request is a number, in the order of
-- the calls; `throws` says for which of them postMessage throws.
pub mod Order
pub mod Runs
use ff_web_hid.Prelude.{
  ℕ, suc, ◌+◌, List, [], ◌∷◌, ◌++◌, Option, none, some, Bool, true, false, ◌==◌, nat_eq,
  if◌then◌else◌,
}
use ff_web_hid.Prelude.Maps.{contains}

-- What a promise is settled with.
pub data Outcome : Type 0 where
  answered : ℕ → Outcome
  rejected : Outcome

-- `busy` is controlPending, and `handshakes` the ids of handshakePending.
pub record Control : Type 0 where
  pub queue : List ℕ
  pub busy : Option ℕ
  pub handshakes : List ℕ
  pub next_handshake : ℕ

abbrev pub fresh_control : Control
fresh_control = record { queue = []; busy = none; handshakes = []; next_handshake = 0 }

-- The promises that were settled, in order.
abbrev pub Settled : Type 0
Settled = List (ℕ × Outcome)

-- What pumpControlQueue takes from the queue: the request that is posted, the requests left, and the
-- promises of those whose post threw.
unfoldable pub pump_queue : (ℕ → Bool) → List ℕ → (Option ℕ × List ℕ) × Settled
pump_queue throws [] = ((none, []), [])
pump_queue throws (r ∷ rs) =
    let ((posted, left), settled) = pump_queue throws rs in
    if throws r then ((posted, left), (r, rejected) ∷ settled) else ((some r, rs), [])

unfoldable pub pump_control_queue : (ℕ → Bool) → Control → Control × Settled
unfolding pump_queue
pump_control_queue throws c = elim c.busy [
  | some r ↦ (c, [])
  | none ↦
      (let ((posted, left), settled) = pump_queue throws c.queue in
        (record c { busy = posted; queue = left }, settled))
]

unfoldable pub send_background_request : (ℕ → Bool) → ℕ → Control → Control × Settled
unfolding pump_control_queue
send_background_request throws r c =
    pump_control_queue throws (record c { queue = c.queue ++ (r ∷ []) })

-- sendHandshakeRequest: whether it is posted, and otherwise its promise is rejected.
unfoldable pub send_handshake_request : Bool → Control → Control × Bool
send_handshake_request posted c =
    let id = c.next_handshake + 1 in
    if posted
    then (record c { next_handshake = id; handshakes = c.handshakes ++ (id ∷ []) }, true)
    else (record c { next_handshake = id }, false)

unfoldable pub drop_id : ℕ → List ℕ → List ℕ
drop_id id [] = []
drop_id id (j ∷ ids) = if j == id then ids else j ∷ drop_id id ids

-- A message of the port by the test that takes it: one of the three actions, a reply that carries the id
-- of a handshake, or any other, with its content.
pub data Message : Type 0 where
  global_reset allowed_devices_changed device_event : Message
  reply : Option ℕ → ℕ → Message

-- `if (controlPending) { … pending.resolve(message); pumpControlQueue() }`
unfoldable pub answer_pending : (ℕ → Bool) → ℕ → Control → Control × Settled
unfolding pump_control_queue
answer_pending throws body c = elim c.busy [
  | none ↦ (c, [])
  | some r ↦
      (let (c', settled) = pump_control_queue throws (record c { busy = none }) in
        (c', (r, answered body) ∷ settled))
]

unfoldable pub is_handshake : Option ℕ → List ℕ → Option ℕ
is_handshake none handshakes = none
is_handshake (some id) handshakes = if contains id handshakes then some id else none

-- The listener of onMessage; the handshake that is answered is among the results.
unfoldable pub on_message : (ℕ → Bool) → Message → Control → (Control × Settled) × Option ℕ
unfolding answer_pending is_handshake
on_message throws global_reset c = ((c, []), none)
on_message throws allowed_devices_changed c = ((c, []), none)
on_message throws device_event c = ((c, []), none)
on_message throws (reply id body) c = elim (is_handshake id c.handshakes) [
  | some h ↦ ((record c { handshakes = drop_id h c.handshakes }, []), some h)
  | none ↦ (answer_pending throws body c, none)
]

unfoldable pub reject_all : List ℕ → Settled
reject_all [] = []
reject_all (r ∷ rs) = (r, rejected) ∷ reject_all rs

-- `controlPending`, as a list.
abbrev pub pending_list : Option ℕ → List ℕ
pending_list none = []
pending_list (some r) = r ∷ []

-- The listener of onDisconnect: every handshake is rejected, and these are.
unfoldable pub on_disconnect : Control → Control × Settled
unfolding reject_all
on_disconnect c = (
  record c { queue = []; busy = none; handshakes = [] },
  reject_all (pending_list c.busy ++ c.queue),
)
