-- ===== src/Bridge/Control/Runs.antt =====
-- The runs of the control port: a first-in first-out queue of requests, none of which waits for ever.
use mathlib.Core.List.{append_assoc}
use ff_web_hid.Prelude.{
  ℕ, List, [], ◌∷◌, ◌++◌, Option, none, some, Bool, true, false, nat_eq, ◌≡◌, refl, ap, sym, ◌∙◌,
  arith, Option-cases, inl, inr, length,
}
use ff_web_hid.Bridge.Control.{
  Control, fresh_control, Settled, Message, reply, pump_queue, pump_control_queue,
  send_background_request, send_handshake_request, answer_pending, on_message, on_disconnect,
  pending_list,
}
use ff_web_hid.Bridge.Control.Order.{
  requests, waiting, IsPumped, IsServed, requests-append, pump_control_queue-IsServed,
  on_message-IsServed, on_disconnect-IsServed,
}

pub record Run : Type 0 where
  pub control : Control
  pub asked : List ℕ
  pub settled : Settled

abbrev pub start : Run
start = record { control = fresh_control; asked = []; settled = [] }

-- A call of sendBackgroundRequest, one of sendHandshakeRequest, a message, and the end of the port.
pub data Step (x : Run) : Run → Type 0 where
  asking :
      (throws : ℕ → Bool) (r : ℕ)
      → Step x (record {
        control = (send_background_request throws r x.control).0;
        asked = x.asked ++ (r ∷ []);
        settled = x.settled ++ (send_background_request throws r x.control).1;
      })
  greeting :
      (posted : Bool) → Step x (record x { control = (send_handshake_request posted x.control).0 })
  hearing :
      (throws : ℕ → Bool) (m : Message)
      → Step x (record x {
        control = (on_message throws m x.control).0.0;
        settled = x.settled ++ (on_message throws m x.control).0.1;
      })
  ending : Step x (record x {
    control = (on_disconnect x.control).0;
    settled = x.settled ++ (on_disconnect x.control).1;
  })

pub data Reach : Run → Type 0 where
  here : Reach start
  next : {x y : Run} → Reach x → Step x y → Reach y

-- The abstract queue of a run: what was asked is what was settled, and then what waits.
pub record IsOrdered (x : Run) : Type 0 where
  pub order : x.asked ≡ requests x.settled ++ waiting x.control
  pub pumped : IsPumped x.control

IsOrdered-served :
    (x : Run) (c : Control) (settled : Settled)
    → IsServed x.control c settled
    → IsOrdered x
    → IsOrdered (record x { control = c; settled = x.settled ++ settled })
IsOrdered-served x c settled served h = record {
  order =
      h.order
      ∙ ap (λ t. requests x.settled ++ t) (sym served.order)
      ∙ sym (append_assoc (requests x.settled) (requests settled) (waiting c))
      ∙ ap (λ t. t ++ waiting c) (sym (requests-append x.settled settled));
  pumped = served.pumped;
}

IsOrdered-asking :
    (x : Run) (throws : ℕ → Bool) (r : ℕ)
    → IsOrdered x
    → IsOrdered (record {
      control = (send_background_request throws r x.control).0;
      asked = x.asked ++ (r ∷ []);
      settled = x.settled ++ (send_background_request throws r x.control).1;
    })
unfolding send_background_request
IsOrdered-asking x throws r h =
    let queued : Control = record x.control { queue = x.control.queue ++ (r ∷ []) } in
    let served = pump_control_queue-IsServed throws queued in
    record {
      order =
          ap (λ t. t ++ (r ∷ [])) h.order
          ∙ append_assoc (requests x.settled) (waiting x.control) (r ∷ [])
          ∙ ap (λ t. requests x.settled ++ t)
              (append_assoc (pending_list x.control.busy) x.control.queue (r ∷ [])
                ∙ sym served.order)
          ∙ sym (
              append_assoc (requests x.settled) (requests (pump_control_queue throws queued).1)
                (waiting (pump_control_queue throws queued).0))
          ∙ ap (λ t. t ++ waiting (pump_control_queue throws queued).0)
              (sym (requests-append x.settled (pump_control_queue throws queued).1));
      pumped = served.pumped;
    }

IsOrdered-greeting :
    (x : Run) (posted : Bool)
    → IsOrdered x
    → IsOrdered (record x { control = (send_handshake_request posted x.control).0 })
unfolding send_handshake_request IsPumped
IsOrdered-greeting x true h = record { order = h.order; pumped = h.pumped }
IsOrdered-greeting x false h = record { order = h.order; pumped = h.pumped }

Step-IsOrdered : {x y : Run} → Step x y → IsOrdered x → IsOrdered y
Step-IsOrdered {x} (asking throws r) h = IsOrdered-asking x throws r h
Step-IsOrdered {x} (greeting posted) h = IsOrdered-greeting x posted h
Step-IsOrdered {x} (hearing throws m) h =
    IsOrdered-served x (on_message throws m x.control).0.0 (on_message throws m x.control).0.1
      (on_message-IsServed throws m x.control h.pumped) h
Step-IsOrdered {x} ending h =
    IsOrdered-served x (on_disconnect x.control).0 (on_disconnect x.control).1
      (on_disconnect-IsServed x.control) h

start-IsOrdered : IsOrdered start
unfolding requests IsPumped
start-IsOrdered = record { order = refl; pumped = λ e. refl }

Reach-IsOrdered : {x : Run} → Reach x → IsOrdered x
Reach-IsOrdered here = start-IsOrdered
Reach-IsOrdered (next r s) = Step-IsOrdered s (Reach-IsOrdered r)

-- No request is queued while none is in flight.
unfoldable pub is_pumped : Control → Bool
is_pumped c = elim c.busy [ some r ↦ true | none ↦ elim c.queue [ [] ↦ true | r ∷ rs ↦ false ] ]

is_pumped-IsPumped : (c : Control) → IsPumped c → is_pumped c ≡ true
unfolding is_pumped IsPumped
is_pumped-IsPumped c h = elim (Option-cases c.busy) [
  | inl free ↦ rw (free, is_pumped, h free) refl
  | inr (r, busy) ↦ rw (busy, is_pumped) refl
]

-- The port implements a first-in first-out queue: in every run, with posts that throw, handshakes, other
-- messages and the end of the port at any time, the requests that were asked are, in their order, those
-- whose promises were settled, in the order of their settling, then the one in flight, then the queue;
-- and the queue is empty when none is in flight.
pub Reach-waiting :
    {x : Run}
    → Reach x
    → (x.asked ≡ requests x.settled ++ waiting x.control) × (is_pumped x.control ≡ true)
Reach-waiting {x} r =
    let ordered = Reach-IsOrdered r in (ordered.order, is_pumped-IsPumped x.control ordered.pumped)

-- Replies that are not for a handshake, one after the other, on a port whose posts do not throw.
unfoldable pub hear_replies : List ℕ → Control → Control × Settled
hear_replies [] c = (c, [])
hear_replies (body ∷ bodies) c =
    let ((c', settled), _) = on_message (λ r. false) (reply none body) c in
    let (last, more) = hear_replies bodies c' in (last, settled ++ more)

hear_replies-busy :
    (b : ℕ) (bodies : List ℕ) (r : ℕ) (queue : List ℕ) (c : Control)
    → length bodies ≡ length queue
    → (let heard = hear_replies (b ∷ bodies) (record c { busy = some r; queue = queue }) in
        (requests heard.1 ≡ r ∷ queue) × (waiting heard.0 ≡ []))
unfolding hear_replies on_message answer_pending pump_control_queue pump_queue requests
hear_replies-busy b [] r [] c h = (refl, refl)
hear_replies-busy b [] r (q ∷ queue) c h = absurd (omega arith)
hear_replies-busy b (d ∷ bodies) r [] c h = absurd (omega arith)
hear_replies-busy b (d ∷ bodies) r (q ∷ queue) c h =
    let (served, done) = hear_replies-busy d bodies q queue c (omega arith) in
    (ap (λ t. r ∷ t) served, done)

-- No request waits for ever on a port that answers: as many replies as requests wait settle all of them,
-- in their order, and leave none waiting.
pub hear_replies-waiting :
    {x : Run} (bodies : List ℕ)
    → Reach x
    → length bodies ≡ length (waiting x.control)
    → (requests (hear_replies bodies x.control).1 ≡ waiting x.control)
      × (waiting (hear_replies bodies x.control).0 ≡ [])
unfolding IsPumped hear_replies requests
hear_replies-waiting {x} bodies r h =
    served bodies x.control.busy x.control.queue x.control h (Reach-IsOrdered r).pumped
  where
    served :
        (bodies : List ℕ) (busy : Option ℕ) (queue : List ℕ) (c : Control)
        → length bodies ≡ length (pending_list busy ++ queue)
        → (busy ≡ none → queue ≡ [])
        → (let heard = hear_replies bodies (record c { busy = busy; queue = queue }) in
            (requests heard.1 ≡ pending_list busy ++ queue) × (waiting heard.0 ≡ []))
    served [] none [] c e pumped = (refl, refl)
    served (b ∷ bodies) none [] c e pumped = absurd (omega arith)
    served bodies none (q ∷ queue) c e pumped = absurd (let no = pumped refl in cc)
    served [] (some r) queue c e pumped = absurd (omega arith)
    served (b ∷ bodies) (some r) queue c e pumped =
        hear_replies-busy b bodies r queue c (omega arith)
