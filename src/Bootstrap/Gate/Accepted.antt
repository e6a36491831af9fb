-- ===== src/Bootstrap/Gate/Accepted.antt =====
-- When a port is accepted.
use ff_web_hid.Prelude.{
  ℕ, ◌+◌, ◌≤◌, List, [], ◌∷◌, ◌++◌, Option, none, some, Bool, true, false, not, ◌&&◌, ◌==◌, nat_eq,
  if◌then◌else◌, ◌≡◌, refl, arith, Bool-cases, inl, inr,
}
use ff_web_hid.Bootstrap.Gate.{Transition, promote, try_promote}
use ff_web_hid.Bootstrap.Candidates.{
  accepted, rejected, destroyed, destroyed_previous, accepts, accept_throws, accepted_throws,
  Candidate, Effect, Acceptance, Turn, close_candidate, close_candidates, accept_head,
}

-- How many ports were accepted.
unfoldable pub acceptances : List Effect → ℕ
acceptances [] = 0
acceptances (accepted q ∷ effects) = 1 + acceptances effects
acceptances (rejected q ∷ effects) = acceptances effects
acceptances (destroyed q ∷ effects) = acceptances effects
acceptances (destroyed_previous ∷ effects) = acceptances effects

unfoldable pub has_accepted : ℕ → List Effect → Bool
has_accepted p [] = false
has_accepted p (accepted q ∷ effects) = if q == p then true else has_accepted p effects
has_accepted p (rejected q ∷ effects) = has_accepted p effects
has_accepted p (destroyed q ∷ effects) = has_accepted p effects
has_accepted p (destroyed_previous ∷ effects) = has_accepted p effects

unfoldable pub is_free : {I : Type 0} → Option (Transition I) → Bool
is_free none = true
is_free (some t) = false

acceptances-append :
    (xs ys : List Effect) → acceptances (xs ++ ys) ≡ acceptances xs + acceptances ys
unfolding acceptances
acceptances-append [] ys = omega arith
acceptances-append (accepted q ∷ xs) ys = omega (arith, acceptances-append xs ys)
acceptances-append (rejected q ∷ xs) ys = omega (arith, acceptances-append xs ys)
acceptances-append (destroyed q ∷ xs) ys = omega (arith, acceptances-append xs ys)
acceptances-append (destroyed_previous ∷ xs) ys = omega (arith, acceptances-append xs ys)

acceptances-close_candidate : {I : Type 0} (c : Candidate I) → acceptances (close_candidate c).1 ≡ 0
unfolding acceptances close_candidate
acceptances-close_candidate c = ground arith

acceptances-close_candidates :
    {I : Type 0} (cs : List (Candidate I)) → acceptances (close_candidates cs) ≡ 0
unfolding acceptances close_candidates
acceptances-close_candidates [] = refl
acceptances-close_candidates (c ∷ cs) = omega (
  arith,
  acceptances-append (close_candidate c).1 (close_candidates cs),
  acceptances-close_candidate c,
  acceptances-close_candidates cs,
)

-- None was accepted when the number is 0.
has_accepted-none :
    (p : ℕ) (effects : List Effect) → acceptances effects ≡ 0 → has_accepted p effects ≡ false
unfolding has_accepted acceptances
has_accepted-none p [] h = refl
has_accepted-none p (accepted q ∷ effects) h = absurd (omega arith)
has_accepted-none p (rejected q ∷ effects) h = has_accepted-none p effects h
has_accepted-none p (destroyed q ∷ effects) h = has_accepted-none p effects h
has_accepted-none p (destroyed_previous ∷ effects) h = has_accepted-none p effects h

acceptances-has_accepted :
    (p : ℕ) (effects : List Effect) → has_accepted p effects ≡ true → 1 ≤ acceptances effects
unfolding has_accepted acceptances
acceptances-has_accepted p [] h = absurd (ground arith)
acceptances-has_accepted p (accepted q ∷ effects) h = omega arith
acceptances-has_accepted p (rejected q ∷ effects) h = acceptances-has_accepted p effects h
acceptances-has_accepted p (destroyed q ∷ effects) h = acceptances-has_accepted p effects h
acceptances-has_accepted p (destroyed_previous ∷ effects) h = acceptances-has_accepted p effects h

has_accepted-append :
    (p : ℕ) (xs ys : List Effect)
    → acceptances xs ≡ 0
    → has_accepted p (xs ++ ys) ≡ has_accepted p ys
unfolding has_accepted acceptances
has_accepted-append p [] ys h = refl
has_accepted-append p (accepted q ∷ xs) ys h = absurd (omega arith)
has_accepted-append p (rejected q ∷ xs) ys h = has_accepted-append p xs ys h
has_accepted-append p (destroyed q ∷ xs) ys h = has_accepted-append p xs ys h
has_accepted-append p (destroyed_previous ∷ xs) ys h = has_accepted-append p xs ys h

has_accepted-accept_head :
    {I : Type 0} (p : ℕ) (acceptance : Acceptance) (c : Candidate I) (cs : List (Candidate I))
    → has_accepted p (accept_head acceptance c cs) ≡ true
    → (c.port == p) ≡ true
unfolding has_accepted accept_head
has_accepted-accept_head p accepts c cs h =
    ground (arith, has_accepted-none p (close_candidates cs) (acceptances-close_candidates cs))
has_accepted-accept_head p accept_throws c cs h =
    ground (arith, has_accepted-none p (close_candidates cs) (acceptances-close_candidates cs))
has_accepted-accept_head p accepted_throws c cs h =
    ground (arith, has_accepted-none p (close_candidates cs) (acceptances-close_candidates cs))

acceptances-accept_head :
    {I : Type 0} (acceptance : Acceptance) (c : Candidate I) (cs : List (Candidate I))
    → acceptances (accept_head acceptance c cs) ≤ 1
unfolding acceptances accept_head
acceptances-accept_head accepts c cs = omega (arith, acceptances-close_candidates cs)
acceptances-accept_head accept_throws c cs = omega (arith, acceptances-close_candidates cs)
acceptances-accept_head accepted_throws c cs = omega (arith, acceptances-close_candidates cs)

module _ {I : Type 0} (has_lifetime : I → Bool) (same_lifetime : I → I → Bool) where
  -- A candidate with that port that answered its probe and is of the target's lifetime.
  unfoldable pub has_candidate : ℕ → I → List (Candidate I) → Bool
  has_candidate p target [] = false
  has_candidate p target (c ∷ cs) =
      if c.port == p && (c.live && (not c.expired && same_lifetime c.identity target))
      then true
      else has_candidate p target cs

  -- What is true of a promotion that accepts the port.
  unfoldable pub may_accept : ℕ → I → Transition I → Option (Transition I) → Bool
  unfolding has_candidate is_free
  may_accept p current t left =
      t.cleanup_complete
      && (has_lifetime current
          && (same_lifetime t.target current
              && (has_candidate p t.target t.candidates && is_free left)))

  promote-may_accept :
      (p : ℕ) (current : I) (acceptance : Acceptance) (t : Transition I) (cs : List (Candidate I))
      → (let r = promote has_lifetime same_lifetime current acceptance t cs in
          has_accepted p r.1 ≡ true
          → may_accept p current (record t { candidates = cs }) r.0 ≡ true)
  unfolding promote may_accept has_candidate is_free accept_head has_accepted
  promote-may_accept p current acceptance t [] h = absurd (ground arith)
  promote-may_accept p current acceptance t (c ∷ cs) h = elim (Bool-cases c.expired) [
    | inl expired ↦
        let (left, effects) = promote has_lifetime same_lifetime current acceptance t cs in
        ground (
          arith,
          promote-may_accept p current acceptance t cs,
          has_accepted-append p (close_candidate c).1 effects (acceptances-close_candidate c),
        )
    | inr fresh ↦
        let (left, effects) = promote has_lifetime same_lifetime current acceptance t cs in
        ground (
          arith,
          promote-may_accept p current acceptance t cs,
          has_accepted-append p (close_candidate c).1 effects (acceptances-close_candidate c),
          has_accepted-none p (close_candidates (c ∷ cs)) (acceptances-close_candidates (c ∷ cs)),
          has_accepted-accept_head p acceptance c cs,
        )
  ]

  promote-acceptances :
      (current : I) (acceptance : Acceptance) (t : Transition I) (cs : List (Candidate I))
      → acceptances (promote has_lifetime same_lifetime current acceptance t cs).1 ≤ 1
  unfolding promote acceptances
  promote-acceptances current acceptance t [] = omega arith
  promote-acceptances current acceptance t (c ∷ cs) =
      let (left, effects) = promote has_lifetime same_lifetime current acceptance t cs in
      ground (
        arith,
        promote-acceptances current acceptance t cs,
        acceptances-append (close_candidate c).1 effects,
        acceptances-close_candidate c,
        acceptances-close_candidates (c ∷ cs),
        acceptances-accept_head acceptance c cs,
      )

  -- When tryPromote accepts a port, it accepts that one alone, the cleanup of the previous context is
  -- complete, the source's current identity has a lifetime and is of the target's, and the port is that
  -- of a candidate which answered its probe, has not expired and is of the target's lifetime; and then
  -- the reservation is gone.
  pub try_promote-may_accept :
      (p : ℕ) (turn : Turn I) (t : Transition I)
      → has_accepted p (try_promote has_lifetime same_lifetime turn t).1 ≡ true
      → (let r = try_promote has_lifetime same_lifetime turn t in
          (acceptances r.1 ≡ 1) × (may_accept p turn.current t r.0 ≡ true))
  unfolding try_promote
  try_promote-may_accept p turn t h =
      let r = promote has_lifetime same_lifetime turn.current turn.acceptance t t.candidates in
      (
        omega (
          arith,
          promote-acceptances turn.current turn.acceptance t t.candidates,
          acceptances-has_accepted p r.1 h,
        ),
        promote-may_accept p turn.current turn.acceptance t t.candidates h,
      )
