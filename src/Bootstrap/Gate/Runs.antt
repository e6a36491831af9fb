-- ===== src/Bootstrap/Gate/Runs.antt =====
-- The runs of the gate: bootstrap messages, responses, deadlines and cleanups in any order, each with any
-- answers of the dependencies.
use ff_web_hid.Prelude.{
  ℕ, ◌+◌, List, [], ◌∷◌, ◌++◌, Option, some, Bool, true, nat_eq, ◌≡◌, refl, arith,
}
use ff_web_hid.Bootstrap.Gate.{
  Transition, Gate, closed_gate, on_bootstrap, on_transition, on_response, on_deadline, on_cleanup,
  fail_transition,
}
use ff_web_hid.Bootstrap.Candidates.{Effect, Turn}
use ff_web_hid.Bootstrap.Gate.Tally.{
  settlements, waits, reserved_waits, arrivals, settlements-append,
}
use ff_web_hid.Bootstrap.Gate.Kept.{IsKept, reserved_tidy, is_idle, fail_transition-IsKept}
use ff_web_hid.Bootstrap.Gate.Kept.Steps.{on_response-IsKept, on_deadline-IsKept, on_cleanup-IsKept}
use ff_web_hid.Bootstrap.Gate.Kept.Gates.{IsGateKept, on_transition-IsKept, on_bootstrap-IsKept}

-- The gate, the ports that arrived, and what was done.
pub record Run (I : Type 0) : Type 0 where
  pub gate : Gate I
  pub received : List ℕ
  pub effects : List Effect

abbrev pub start : (I : Type 0) → Run I
start I = record { gate = closed_gate I; received = []; effects = [] }

abbrev pub did : {I : Type 0} → Run I → Gate I × List Effect → Run I
did x r = record x { gate = r.0; effects = x.effects ++ r.1 }

module _ {I : Type 0} (has_lifetime : I → Bool) (same_lifetime : I → I → Bool) where
  pub data Step (x : Run I) : Run I → Type 0 where
    arriving :
        (well_formed : Bool) (ports : List ℕ) (turn : Turn I)
        → Step x (record {
          gate = (on_bootstrap has_lifetime same_lifetime well_formed ports turn x.gate).0;
          received = x.received ++ ports;
          effects =
              x.effects
              ++ (on_bootstrap has_lifetime same_lifetime well_formed ports turn x.gate).1;
        })
    responding :
        (serial sequence challenge : ℕ) (turn : Turn I)
        → Step x (
            did x (
              on_transition
                (on_response has_lifetime same_lifetime sequence challenge turn)
                serial
                x.gate))
    lapsing :
        (serial sequence : ℕ) (turn : Turn I)
        → Step x (
            did x
              (on_transition (on_deadline has_lifetime same_lifetime sequence turn) serial x.gate))
    cleaned :
        (serial : ℕ) (turn : Turn I)
        → Step x (did x (on_transition (on_cleanup has_lifetime same_lifetime turn) serial x.gate))
    cleanup_failed : (serial : ℕ) → Step x (did x (on_transition fail_transition serial x.gate))

  pub data Reach : Run I → Type 0 where
    here : Reach (start I)
    next : {x y : Run I} → Reach x → Step x y → Reach y

-- Every port that arrived was settled or waits; the marks of a candidate fit; and the head waits for its
-- response, with a deadline, or for the cleanup.
pub record IsFair {I : Type 0} (x : Run I) : Type 0 where
  pub tally :
      (p : ℕ)
      → arrivals p x.received ≡ settlements p x.effects + reserved_waits p x.gate.reservation
  pub tidy : reserved_tidy x.gate.reservation ≡ true
  pub idle : is_idle x.gate.reservation ≡ true

arrivals-append : (p : ℕ) (xs ys : List ℕ) → arrivals p (xs ++ ys) ≡ arrivals p xs + arrivals p ys
unfolding arrivals
arrivals-append p [] ys = omega arith
arrivals-append p (x ∷ xs) ys = omega (arith, arrivals-append p xs ys)

module _ {I : Type 0} (has_lifetime : I → Bool) (same_lifetime : I → I → Bool) where
  IsFair-did :
      (x : Run I) (ports : List ℕ) (r : Gate I × List Effect)
      → IsFair x
      → IsGateKept ports x.gate r
      → IsFair (record { gate = r.0; received = x.received ++ ports; effects = x.effects ++ r.1 })
  IsFair-did x ports r h kept = record {
    tally = λ p. omega (
      arith,
      h.tally p,
      kept.tally p,
      arrivals-append p x.received ports,
      settlements-append p x.effects r.1,
    );
    tidy = kept.tidy;
    idle = kept.idle;
  }

  -- Likewise when no port arrives.
  IsFair-called :
      (x : Run I) (r : Gate I × List Effect) → IsFair x → IsGateKept [] x.gate r → IsFair (did x r)
  unfolding arrivals
  IsFair-called x r h kept = record {
    tally = λ p. omega (arith, h.tally p, kept.tally p, settlements-append p x.effects r.1);
    tidy = kept.tidy;
    idle = kept.idle;
  }

  IsFair-callback :
      (callback : Transition I → Option (Transition I) × List Effect) (serial : ℕ) (x : Run I)
      → ((t : Transition I)
          → reserved_tidy (some t) ≡ true
          → is_idle (some t) ≡ true
          → IsKept (λ p. waits p t.candidates) (callback t))
      → IsFair x
      → IsFair (did x (on_transition callback serial x.gate))
  IsFair-callback callback serial x kept h =
      IsFair-called x (on_transition callback serial x.gate) h (
        on_transition-IsKept callback kept serial x.gate.reservation x.gate.next_serial h.tidy
          h.idle)

  Step-IsFair : {x y : Run I} → Step has_lifetime same_lifetime x y → IsFair x → IsFair y
  unfolding reserved_tidy is_idle
  Step-IsFair {x} (arriving well_formed ports turn) h =
      IsFair-did x ports (on_bootstrap has_lifetime same_lifetime well_formed ports turn x.gate) h
        (on_bootstrap-IsKept has_lifetime same_lifetime well_formed ports turn x.gate h.tidy h.idle)
  Step-IsFair {x} (responding serial sequence challenge turn) h =
      IsFair-callback (on_response has_lifetime same_lifetime sequence challenge turn) serial x
        (on_response-IsKept has_lifetime same_lifetime sequence challenge turn) h
  Step-IsFair {x} (lapsing serial sequence turn) h =
      IsFair-callback (on_deadline has_lifetime same_lifetime sequence turn) serial x
        (on_deadline-IsKept has_lifetime same_lifetime sequence turn) h
  Step-IsFair {x} (cleaned serial turn) h =
      IsFair-callback (on_cleanup has_lifetime same_lifetime turn) serial x
        (λ t tidy idle. on_cleanup-IsKept has_lifetime same_lifetime turn t tidy) h
  Step-IsFair {x} (cleanup_failed serial) h =
      IsFair-callback fail_transition serial x (λ t tidy idle. fail_transition-IsKept t) h

  start-IsFair : IsFair (start I)
  unfolding arrivals settlements reserved_waits reserved_tidy is_idle
  start-IsFair = record { tally = λ p. omega arith; tidy = refl; idle = refl }

  -- In every run of the gate, with any identities, any tests on them, probes that are not posted and
  -- acceptances that throw: each port arrived as often as it was accepted or rejected, or waits as an open
  -- candidate of the reserved transition; a candidate is closed exactly when it is expired, and has a
  -- deadline exactly while it is neither closed nor live; and the oldest candidate has not expired, and
  -- is live only while the cleanup of the previous context is not complete.
  pub Reach-IsFair : {x : Run I} → Reach has_lifetime same_lifetime x → IsFair x
  Reach-IsFair here = start-IsFair
  Reach-IsFair (next r s) = Step-IsFair s (Reach-IsFair r)
