-- ===== src/Bootstrap/Gate/Tally.antt =====
-- Every port that reaches the gate is settled once: it waits as a candidate, or it was accepted, or it
-- was rejected.
use ff_web_hid.Prelude.{
  ℕ, ◌+◌, List, [], ◌∷◌, ◌++◌, Option, none, some, Bool, true, not, ◌&&◌, ◌==◌, nat_eq,
  if◌then◌else◌, ◌≡◌, refl, arith,
}
use ff_web_hid.Bootstrap.Gate.{Transition, promote}
use ff_web_hid.Bootstrap.Candidates.{
  accepted, rejected, destroyed, destroyed_previous, accepts, accept_throws, accepted_throws,
  Candidate, Effect, Acceptance, close_candidate, close_candidates, accept_head, reject_ports,
}

-- How often the port was settled.
unfoldable pub settlements : ℕ → List Effect → ℕ
settlements p [] = 0
settlements p (accepted q ∷ effects) = (if q == p then 1 else 0) + settlements p effects
settlements p (rejected q ∷ effects) = (if q == p then 1 else 0) + settlements p effects
settlements p (destroyed q ∷ effects) = settlements p effects
settlements p (destroyed_previous ∷ effects) = settlements p effects

-- How often it waits, as the port of a candidate that is not closed.
unfoldable pub waits : {I : Type 0} → ℕ → List (Candidate I) → ℕ
waits p [] = 0
waits p (c ∷ cs) = (if c.port == p && not c.closed then 1 else 0) + waits p cs

unfoldable pub reserved_waits : {I : Type 0} → ℕ → Option (Transition I) → ℕ
unfolding waits
reserved_waits p none = 0
reserved_waits p (some t) = waits p t.candidates

-- How often it arrived.
unfoldable pub arrivals : ℕ → List ℕ → ℕ
arrivals p [] = 0
arrivals p (q ∷ qs) = (if q == p then 1 else 0) + arrivals p qs

pub settlements-append :
    (p : ℕ) (xs ys : List Effect) → settlements p (xs ++ ys) ≡ settlements p xs + settlements p ys
unfolding settlements
settlements-append p [] ys = omega arith
settlements-append p (accepted q ∷ xs) ys = omega (arith, settlements-append p xs ys)
settlements-append p (rejected q ∷ xs) ys = omega (arith, settlements-append p xs ys)
settlements-append p (destroyed q ∷ xs) ys = omega (arith, settlements-append p xs ys)
settlements-append p (destroyed_previous ∷ xs) ys = omega (arith, settlements-append p xs ys)

pub waits-append :
    {I : Type 0} (p : ℕ) (cs ds : List (Candidate I)) → waits p (cs ++ ds) ≡ waits p cs + waits p ds
unfolding waits
waits-append p [] ds = omega arith
waits-append p (c ∷ cs) ds = omega (arith, waits-append p cs ds)

pub settlements-close_candidate :
    {I : Type 0} (p : ℕ) (c : Candidate I)
    → settlements p (close_candidate c).1 ≡ (if c.port == p && not c.closed then 1 else 0)
unfolding settlements close_candidate
settlements-close_candidate p c = ground arith

pub settlements-close_candidates :
    {I : Type 0} (p : ℕ) (cs : List (Candidate I))
    → settlements p (close_candidates cs) ≡ waits p cs
unfolding settlements close_candidates waits
settlements-close_candidates p [] = refl
settlements-close_candidates p (c ∷ cs) = omega (
  arith,
  settlements-append p (close_candidate c).1 (close_candidates cs),
  settlements-close_candidate p c,
  settlements-close_candidates p cs,
)

pub settlements-reject_ports :
    (p : ℕ) (ps : List ℕ) → settlements p (reject_ports ps) ≡ arrivals p ps
unfolding settlements reject_ports arrivals
settlements-reject_ports p [] = refl
settlements-reject_ports p (q ∷ ps) = omega (arith, settlements-reject_ports p ps)

settlements-accept_head :
    {I : Type 0} (p : ℕ) (acceptance : Acceptance) (c : Candidate I) (cs : List (Candidate I))
    → settlements p (accept_head acceptance c cs) ≡ (if c.port == p then 1 else 0) + waits p cs
unfolding settlements accept_head
settlements-accept_head p accepts c cs = omega (arith, settlements-close_candidates p cs)
settlements-accept_head p accept_throws c cs = omega (arith, settlements-close_candidates p cs)
settlements-accept_head p accepted_throws c cs = omega (arith, settlements-close_candidates p cs)

-- A candidate is closed when it is expired, and otherwise waits for its response with a deadline or is
-- live without one.
unfoldable pub is_tidy : {I : Type 0} → Candidate I → Bool
is_tidy c =
    if c.closed
    then c.expired && (not c.live && not c.deadline)
    else not c.expired && (if c.live then not c.deadline else c.deadline)

unfoldable pub are_tidy : {I : Type 0} → List (Candidate I) → Bool
unfolding is_tidy
are_tidy [] = true
are_tidy (c ∷ cs) = is_tidy c && are_tidy cs

pub are_tidy-append :
    {I : Type 0} (cs ds : List (Candidate I)) → are_tidy (cs ++ ds) ≡ are_tidy cs && are_tidy ds
unfolding are_tidy
are_tidy-append [] ds = refl
are_tidy-append (c ∷ cs) ds = ground (arith, are_tidy-append cs ds)

module _ {I : Type 0} (has_lifetime : I → Bool) (same_lifetime : I → I → Bool) where
  -- Promotion settles what no longer waits.
  pub promote-waits :
      (p : ℕ) (current : I) (acceptance : Acceptance) (t : Transition I) (cs : List (Candidate I))
      → are_tidy cs ≡ true
      → (let r = promote has_lifetime same_lifetime current acceptance t cs in
          settlements p r.1 + reserved_waits p r.0 ≡ waits p cs)
  unfolding promote waits are_tidy is_tidy reserved_waits settlements close_candidates
  promote-waits p current acceptance t [] h = omega arith
  promote-waits p current acceptance t (c ∷ cs) h =
      let (left, effects) = promote has_lifetime same_lifetime current acceptance t cs in
      ground (
        arith,
        promote-waits p current acceptance t cs,
        settlements-append p (close_candidate c).1 effects,
        settlements-append p (close_candidate c).1 (close_candidates cs),
        settlements-close_candidate p c,
        settlements-close_candidates p cs,
        settlements-accept_head p acceptance c cs,
      )
