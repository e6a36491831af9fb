-- ===== src/Bridge/Control/Order.antt =====
-- The control port is a first-in first-out queue of requests.
use mathlib.Core.List.{append-nil}
use ff_web_hid.Prelude.{
  ℕ, List, [], ◌∷◌, ◌++◌, none, Bool, nat_eq, ◌≡◌, refl, ap, ◌∙◌, Option-cases, Bool-cases, inl,
  inr,
}
use ff_web_hid.Bridge.Control.{
  Control, Settled, Message, global_reset, allowed_devices_changed, device_event, reply, pump_queue,
  pump_control_queue, answer_pending, is_handshake, on_message, reject_all, on_disconnect,
  pending_list,
}

-- The requests of settled promises, in order.
unfoldable pub requests : Settled → List ℕ
requests [] = []
requests ((r, outcome) ∷ settled) = r ∷ requests settled

-- The requests that wait, oldest first: the abstract queue.
abbrev pub waiting : Control → List ℕ
waiting c = pending_list c.busy ++ c.queue

-- Nothing waits behind a free port.
unfoldable pub IsPumped : Control → Type 0
IsPumped c = c.busy ≡ none → c.queue ≡ []

pub requests-append : (xs ys : Settled) → requests (xs ++ ys) ≡ requests xs ++ requests ys
unfolding requests
requests-append [] ys = refl
requests-append ((r, o) ∷ xs) ys = ap (λ t. r ∷ t) (requests-append xs ys)

pub requests-reject_all : (rs : List ℕ) → requests (reject_all rs) ≡ rs
unfolding requests reject_all
requests-reject_all [] = refl
requests-reject_all (r ∷ rs) = ap (λ t. r ∷ t) (requests-reject_all rs)

-- Pumping moves requests from the queue to the settled ones or to the port, and keeps their order.
pump_queue-order :
    (throws : ℕ → Bool) (rs : List ℕ)
    → (let r = pump_queue throws rs in
        (requests r.1 ++ (pending_list r.0.0 ++ r.0.1) ≡ rs) × (r.0.0 ≡ none → r.0.1 ≡ []))
unfolding pump_queue requests
pump_queue-order throws [] = (refl, λ e. refl)
pump_queue-order throws (r ∷ rs) =
    let (order, pumped) = pump_queue-order throws rs in
    elim (Bool-cases (throws r)) [
      | inl threw ↦ rw threw (ap (λ t. r ∷ t) order, pumped)
      | inr posted ↦ rw posted (refl, λ e. cc)
    ]

-- A change of the control state that settles requests from the front of the abstract queue.
pub record IsServed (c c' : Control) (settled : Settled) : Type 0 where
  pub order : requests settled ++ waiting c' ≡ waiting c
  pub pumped : IsPumped c'

pub IsServed-idle : (c : Control) → IsPumped c → IsServed c c []
unfolding requests
IsServed-idle c h = record { order = refl; pumped = h }

pub pump_control_queue-IsServed :
    (throws : ℕ → Bool) (c : Control)
    → IsServed c (pump_control_queue throws c).0 (pump_control_queue throws c).1
unfolding pump_control_queue IsPumped requests
pump_control_queue-IsServed throws c = elim (Option-cases c.busy) [
  | inl free ↦ rw free (
      let (order, pumped) = pump_queue-order throws c.queue in
      record { order = order; pumped = pumped })
  | inr (r, busy) ↦ rw busy (record { order = refl; pumped = λ e. cc })
]

pub answer_pending-IsServed :
    (throws : ℕ → Bool) (body : ℕ) (c : Control)
    → IsPumped c
    → IsServed c (answer_pending throws body c).0 (answer_pending throws body c).1
unfolding answer_pending requests IsPumped
answer_pending-IsServed throws body c h = elim (Option-cases c.busy) [
  | inl free ↦ rw free (IsServed-idle (record c { busy = none }) (λ e. h free))
  | inr (r, busy) ↦
      let served = pump_control_queue-IsServed throws (record c { busy = none }) in
      rw busy (record { order = ap (λ t. r ∷ t) served.order; pumped = served.pumped })
]

pub on_message-IsServed :
    (throws : ℕ → Bool) (m : Message) (c : Control)
    → IsPumped c
    → IsServed c (on_message throws m c).0.0 (on_message throws m c).0.1
unfolding on_message IsPumped requests
on_message-IsServed throws global_reset c h = IsServed-idle c h
on_message-IsServed throws allowed_devices_changed c h = IsServed-idle c h
on_message-IsServed throws device_event c h = IsServed-idle c h
on_message-IsServed throws (reply id body) c h =
    elim (Option-cases (is_handshake id c.handshakes)) [
      | inl other ↦ rw (other, on_message) (answer_pending-IsServed throws body c h)
      | inr (k, greeted) ↦ rw (greeted, on_message) (record { order = refl; pumped = h })
    ]

pub on_disconnect-IsServed : (c : Control) → IsServed c (on_disconnect c).0 (on_disconnect c).1
unfolding on_disconnect IsPumped
on_disconnect-IsServed c = record {
  order = append-nil (requests (reject_all (waiting c))) ∙ requests-reject_all (waiting c);
  pumped = λ e. refl;
}
