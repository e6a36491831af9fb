-- ===== src/Bootstrap/Gate/Kept/Gates.antt =====
-- The handler and the callbacks keep what the gate must keep.
use ff_web_hid.Prelude.{
  ℕ, ◌+◌, List, [], ◌∷◌, Option, none, some, Bool, true, false, not, ◌&&◌, ◌==◌, nat_eq,
  if◌then◌else◌, ◌≡◌, refl, arith, Bool-cases, inl, inr,
}
use ff_web_hid.Bootstrap.Gate.{
  Transition, Gate, add_candidate, start_transition, is_refused, join_transition, admit_port,
  on_bootstrap, on_transition,
}
use ff_web_hid.Bootstrap.Candidates.{destroyed_previous, Effect, Turn}
use ff_web_hid.Bootstrap.Gate.Tally.{
  settlements, are_tidy, waits, reserved_waits, arrivals, settlements-append,
  settlements-reject_ports,
}
use ff_web_hid.Bootstrap.Gate.Kept.{IsKept, reserved_tidy, is_idle, head_waits, IsKept-same}
use ff_web_hid.Bootstrap.Gate.Kept.Steps.{add_candidate-IsKept, join_transition-IsKept}

abbrev pub gate_of : {I : Type 0} → Option (Transition I) → ℕ → Gate I
gate_of reservation n = record { reservation = reservation; next_serial = n }

-- What an operation on the gate keeps, with the ports that arrive in it.
abbrev pub IsGateKept : {I : Type 0} → List ℕ → Gate I → Gate I × List Effect → Type 0
IsGateKept ports g r =
    IsKept (λ p. arrivals p ports + reserved_waits p g.reservation) (r.0.reservation, r.1)

-- The callbacks keep what waits, on the transition that is reserved and on any other.
pub on_transition-IsKept :
    {I : Type 0} (callback : Transition I → Option (Transition I) × List Effect)
    → ((t : Transition I)
        → reserved_tidy (some t) ≡ true
        → is_idle (some t) ≡ true
        → IsKept (λ p. waits p t.candidates) (callback t))
    → (serial : ℕ) (reservation : Option (Transition I)) (n : ℕ) → reserved_tidy reservation ≡ true
    → is_idle reservation ≡ true
    → IsGateKept [] (gate_of reservation n) (on_transition callback serial (gate_of reservation n))
unfolding on_transition reserved_waits settlements reserved_tidy is_idle arrivals
on_transition-IsKept callback h serial none n tidy idle = record {
  tally = λ p. omega arith;
  tidy = tidy;
  idle = idle;
}
on_transition-IsKept callback h serial (some t) n tidy idle =
    elim (Bool-cases (t.serial == serial)) [
      | inl same ↦
          rw (same, on_transition)
            (IsKept-same (λ p. waits p t.candidates) (λ p. 0 + waits p t.candidates) (callback t)
              (λ p. omega arith) (h t tidy idle))
      | inr other ↦
          rw (other, on_transition) (record { tally = λ p. omega arith; tidy = tidy; idle = idle })
    ]

module _ {I : Type 0} (has_lifetime : I → Bool) (same_lifetime : I → I → Bool) where
  pub start_transition-IsKept :
      (port : ℕ) (turn : Turn I) (n : ℕ)
      → IsGateKept
          (port ∷ [])
          (gate_of none n)
          (start_transition has_lifetime same_lifetime port turn (gate_of none n))
  unfolding start_transition arrivals reserved_waits settlements waits are_tidy head_waits
  start_transition-IsKept port turn n =
      let t : Transition I = record {
        serial = n;
        target = turn.identity;
        cleanup_complete = elim turn.previous [ none ↦ true | some _ ↦ false ];
        candidates = [];
        next_sequence = 0;
      } in
      let added = add_candidate-IsKept has_lifetime same_lifetime port turn t refl refl in
      let r = add_candidate has_lifetime same_lifetime port turn t in
      let torn : List Effect = elim turn.previous [
        | none ↦ []
        | some _ ↦ destroyed_previous ∷ []
      ] in
      record {
        tally = λ p. ground (arith, added.tally p, settlements-append p r.1 torn);
        tidy = added.tidy;
        idle = added.idle;
      }

  pub admit_port-IsKept :
      (port : ℕ) (turn : Turn I) (reservation : Option (Transition I)) (n : ℕ)
      → reserved_tidy reservation ≡ true
      → is_idle reservation ≡ true
      → IsGateKept
          (port ∷ [])
          (gate_of reservation n)
          (admit_port has_lifetime same_lifetime port turn (gate_of reservation n))
  unfolding admit_port arrivals reserved_waits settlements reserved_tidy is_idle
  admit_port-IsKept port turn none n tidy idle =
      elim (Bool-cases (is_refused has_lifetime same_lifetime turn.previous turn.identity)) [
        | inl refused ↦
            rw (refused, admit_port) (record { tally = λ p. omega arith; tidy = refl; idle = refl })
        | inr fresh ↦ rw (fresh, admit_port) (start_transition-IsKept port turn n)
      ]
  admit_port-IsKept port turn (some t) n tidy idle =
      IsKept-same (λ p. (if port == p then 1 else 0) + waits p t.candidates)
        (λ p. arrivals p (port ∷ []) + waits p t.candidates)
        (join_transition has_lifetime same_lifetime port turn t) (λ p. omega arith)
        (join_transition-IsKept has_lifetime same_lifetime port turn t tidy idle)

  pub on_bootstrap-IsKept :
      (well_formed : Bool) (ports : List ℕ) (turn : Turn I) (g : Gate I)
      → reserved_tidy g.reservation ≡ true
      → is_idle g.reservation ≡ true
      → IsGateKept ports g (on_bootstrap has_lifetime same_lifetime well_formed ports turn g)
  unfolding on_bootstrap arrivals settlements
  on_bootstrap-IsKept well_formed [] turn g tidy idle = record {
    tally = λ p. omega arith;
    tidy = tidy;
    idle = idle;
  }
  on_bootstrap-IsKept well_formed (port ∷ []) turn g tidy idle =
      elim (Bool-cases (not (well_formed && has_lifetime turn.identity))) [
        | inl bad ↦
            rw (bad, on_bootstrap) (record { tally = λ p. omega arith; tidy = tidy; idle = idle })
        | inr good ↦
            rw (good, on_bootstrap)
              (admit_port-IsKept port turn g.reservation g.next_serial tidy idle)
      ]
  on_bootstrap-IsKept well_formed (p ∷ q ∷ ports) turn g tidy idle = record {
    tally = λ r. omega (arith, settlements-reject_ports r (p ∷ q ∷ ports));
    tidy = tidy;
    idle = idle;
  }
