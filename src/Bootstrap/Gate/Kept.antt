-- ===== src/Bootstrap/Gate/Kept.antt =====
-- What every operation on the reserved transition keeps: the ports that wait, the order in a candidate's
-- marks, and that no candidate is left at the head that could be promoted or dropped.
pub mod Steps
pub mod Gates
use ff_web_hid.Prelude.{
  ℕ, ◌+◌, List, [], ◌∷◌, ◌++◌, Option, none, some, Bool, true, false, not, ◌&&◌, ◌==◌, nat_eq,
  if◌then◌else◌, ◌≡◌, refl, arith, Bool-cases, ◌⊎◌, inl, inr,
}
use ff_web_hid.Bootstrap.Gate.{
  Transition, promote, try_promote, add_candidate, join_transition, on_response, on_deadline,
  on_cleanup, fail_transition,
}
use ff_web_hid.Bootstrap.Candidates.{
  rejected, Candidate, Effect, Acceptance, Turn, new_candidate, close_candidate, close_candidates,
  is_live, takes, lapses, expire, any_candidate, revive_where, expire_where,
}
use ff_web_hid.Bootstrap.Gate.Tally.{
  settlements, waits, reserved_waits, settlements-append, waits-append,
  settlements-close_candidates, is_tidy, are_tidy, are_tidy-append, promote-waits,
}

unfoldable pub reserved_tidy : {I : Type 0} → Option (Transition I) → Bool
unfolding are_tidy
reserved_tidy none = true
reserved_tidy (some t) = are_tidy t.candidates

-- The head of the candidates, if there is one, waits for its response or for the cleanup.
unfoldable pub head_waits : {I : Type 0} → Bool → List (Candidate I) → Bool
head_waits cleanup_complete [] = true
head_waits cleanup_complete (c ∷ cs) = not c.expired && not (c.live && cleanup_complete)

unfoldable pub is_idle : {I : Type 0} → Option (Transition I) → Bool
unfolding head_waits
is_idle none = true
is_idle (some t) = head_waits t.cleanup_complete t.candidates

pub record IsKept {I : Type 0} (before : ℕ → ℕ) (r : Option (Transition I) × List Effect)
    : Type 0 where
  pub tally : (p : ℕ) → settlements p r.1 + reserved_waits p r.0 ≡ before p
  pub tidy : reserved_tidy r.0 ≡ true
  pub idle : is_idle r.0 ≡ true

-- Effects that come before those of an operation.
pub IsKept-after :
    {I : Type 0} (effects : List Effect) (before : ℕ → ℕ) (r : Option (Transition I) × List Effect)
    → IsKept before r
    → IsKept (λ p. settlements p effects + before p) (r.0, effects ++ r.1)
IsKept-after effects before r h = record {
  tally = λ p. omega (arith, h.tally p, settlements-append p effects r.1);
  tidy = h.tidy;
  idle = h.idle;
}

pub IsKept-same :
    {I : Type 0} (before after : ℕ → ℕ) (r : Option (Transition I) × List Effect)
    → ((p : ℕ) → before p ≡ after p)
    → IsKept before r
    → IsKept after r
IsKept-same before after r same h = record {
  tally = λ p. omega (arith, h.tally p, same p);
  tidy = h.tidy;
  idle = h.idle;
}

pub IsKept-idle :
    {I : Type 0} (t : Transition I)
    → are_tidy t.candidates ≡ true
    → head_waits t.cleanup_complete t.candidates ≡ true
    → IsKept (λ p. waits p t.candidates) (some t, [])
unfolding settlements reserved_waits reserved_tidy is_idle
IsKept-idle t tidy idle = record { tally = λ p. omega arith; tidy = tidy; idle = idle }

pub fail_transition-IsKept :
    {I : Type 0} (t : Transition I) → IsKept (λ p. waits p t.candidates) (fail_transition t)
unfolding fail_transition reserved_waits reserved_tidy is_idle
fail_transition-IsKept t = record {
  tally = λ p. omega (arith, settlements-close_candidates p t.candidates);
  tidy = refl;
  idle = refl;
}

-- Candidates after one of them heard the response to its probe, or after its deadline passed.
pub are_tidy-revive_where :
    {I : Type 0} (sequence challenge : ℕ) (cs : List (Candidate I))
    → are_tidy cs ≡ true
    → are_tidy (revive_where (takes sequence challenge) cs) ≡ true
unfolding are_tidy is_tidy revive_where takes
are_tidy-revive_where sequence challenge [] h = refl
are_tidy-revive_where sequence challenge (c ∷ cs) h =
    ground (arith, are_tidy-revive_where sequence challenge cs)

pub waits-revive_where :
    {I : Type 0} (p : ℕ) (test : Candidate I → Bool) (cs : List (Candidate I))
    → waits p (revive_where test cs) ≡ waits p cs
unfolding waits revive_where
waits-revive_where p test [] = refl
waits-revive_where p test (c ∷ cs) = ground (arith, waits-revive_where p test cs)

pub are_tidy-expire_where :
    {I : Type 0} (sequence : ℕ) (cs : List (Candidate I))
    → are_tidy cs ≡ true
    → are_tidy (expire_where (lapses sequence) cs).0 ≡ true
unfolding are_tidy is_tidy expire_where lapses close_candidate
are_tidy-expire_where sequence [] h = refl
are_tidy-expire_where sequence (c ∷ cs) h = ground (arith, are_tidy-expire_where sequence cs)

pub waits-expire_where :
    {I : Type 0} (p : ℕ) (sequence : ℕ) (cs : List (Candidate I))
    → (let r = expire_where (lapses sequence) cs in settlements p r.1 + waits p r.0 ≡ waits p cs)
unfolding waits expire_where lapses close_candidate settlements
waits-expire_where p sequence [] = omega arith
waits-expire_where p sequence (c ∷ cs) = ground (arith, waits-expire_where p sequence cs)

pub head_waits-append :
    {I : Type 0} (cleaned : Bool) (sequence port : ℕ) (turn : Turn I) (cs : List (Candidate I))
    → head_waits cleaned cs ≡ true
    → head_waits cleaned (cs ++ (new_candidate sequence port turn ∷ [])) ≡ true
unfolding head_waits
head_waits-append cleaned sequence port turn [] h = refl
head_waits-append cleaned sequence port turn (d ∷ cs) h = h

-- The candidate that is added, and the one whose probe was not posted.
pub IsKept-new :
    {I : Type 0} (port : ℕ) (turn : Turn I) (t : Transition I)
    → are_tidy t.candidates ≡ true
    → head_waits t.cleanup_complete t.candidates ≡ true
    → IsKept
        (λ p. (if port == p then 1 else 0) + waits p t.candidates)
        (
          some (record t {
            next_sequence = t.next_sequence + 1;
            candidates = t.candidates ++ (new_candidate t.next_sequence port turn ∷ []);
          }),
          [],
        )
unfolding settlements reserved_waits reserved_tidy is_idle waits are_tidy is_tidy
IsKept-new port turn t tidy idle =
    let c = new_candidate t.next_sequence port turn in
    record {
      tally = λ p. ground (arith, waits-append p t.candidates (c ∷ []));
      tidy = ground (arith, are_tidy-append t.candidates (c ∷ []));
      idle = head_waits-append t.cleanup_complete t.next_sequence port turn t.candidates idle;
    }
