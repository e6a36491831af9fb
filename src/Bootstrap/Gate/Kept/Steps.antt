-- ===== src/Bootstrap/Gate/Kept/Steps.antt =====
-- The operations on the reserved transition keep what it must keep.
use ff_web_hid.Prelude.{
  ℕ, ◌+◌, List, [], ◌∷◌, ◌++◌, some, Bool, true, false, ◌&&◌, ◌==◌, nat_eq, if◌then◌else◌, ◌≡◌,
  refl, arith, Bool-cases, ◌⊎◌, inl, inr,
}
use ff_web_hid.Bootstrap.Gate.{
  Transition, promote, try_promote, add_candidate, join_transition, on_response, on_deadline,
  on_cleanup,
}
use ff_web_hid.Bootstrap.Candidates.{
  rejected, Candidate, Acceptance, Turn, new_candidate, close_candidate, close_candidates, is_live,
  takes, lapses, expire, any_candidate, revive_where, expire_where,
}
use ff_web_hid.Bootstrap.Gate.Tally.{
  settlements, waits, reserved_waits, waits-append, settlements-close_candidates, is_tidy, are_tidy,
  are_tidy-append, promote-waits,
}
use ff_web_hid.Bootstrap.Gate.Kept.{
  reserved_tidy, head_waits, is_idle, IsKept, IsKept-after, IsKept-same, IsKept-idle,
  are_tidy-revive_where, waits-revive_where, are_tidy-expire_where, waits-expire_where, IsKept-new,
}

module _ {I : Type 0} (has_lifetime : I → Bool) (same_lifetime : I → I → Bool) where
  promote-tidy :
      (current : I) (acceptance : Acceptance) (t : Transition I) (cs : List (Candidate I))
      → are_tidy cs ≡ true
      → (let r = promote has_lifetime same_lifetime current acceptance t cs in
          (reserved_tidy r.0 && is_idle r.0) ≡ true)
  unfolding promote are_tidy is_tidy reserved_tidy is_idle head_waits
  promote-tidy current acceptance t [] h = refl
  promote-tidy current acceptance t (c ∷ cs) h =
      ground (arith, promote-tidy current acceptance t cs)

  try_promote-IsKept :
      (turn : Turn I) (t : Transition I)
      → are_tidy t.candidates ≡ true
      → IsKept (λ p. waits p t.candidates) (try_promote has_lifetime same_lifetime turn t)
  unfolding try_promote
  try_promote-IsKept turn t h =
      let well = promote-tidy turn.current turn.acceptance t t.candidates h in
      record {
        tally = λ p.
            promote-waits has_lifetime same_lifetime p turn.current turn.acceptance t t.candidates
              h;
        tidy = ground (arith, well);
        idle = ground (arith, well);
      }

  pub add_candidate-IsKept :
      (port : ℕ) (turn : Turn I) (t : Transition I)
      → are_tidy t.candidates ≡ true
      → head_waits t.cleanup_complete t.candidates ≡ true
      → IsKept
          (λ p. (if port == p then 1 else 0) + waits p t.candidates)
          (add_candidate has_lifetime same_lifetime port turn t)
  unfolding add_candidate close_candidate waits settlements are_tidy is_tidy
  add_candidate-IsKept port turn t tidy idle =
      let failed : Candidate I =
        (close_candidate (expire (new_candidate t.next_sequence port turn))).0 in
      let grown : Transition I = record t {
        next_sequence = t.next_sequence + 1;
        candidates = t.candidates ++ (failed ∷ []);
      } in
      elim (Bool-cases turn.posts) [
        | inl posts ↦ rw (posts, add_candidate) (IsKept-new port turn t tidy idle)
        | inr throws ↦
            rw (throws, add_candidate)
              (IsKept-same
                (λ p. settlements p (rejected port ∷ []) + waits p (t.candidates ++ (failed ∷ [])))
                (λ p. (if port == p then 1 else 0) + waits p t.candidates)
                (
                  (try_promote has_lifetime same_lifetime turn grown).0,
                  rejected port ∷ (try_promote has_lifetime same_lifetime turn grown).1,
                )
                (λ p. ground (arith, waits-append p t.candidates (failed ∷ [])))
                (IsKept-after (rejected port ∷ []) (λ p. waits p grown.candidates)
                  (try_promote has_lifetime same_lifetime turn grown)
                  (try_promote-IsKept turn grown
                    (ground (arith, are_tidy-append t.candidates (failed ∷ []))))))
      ]

  pub join_transition-IsKept :
      (port : ℕ) (turn : Turn I) (t : Transition I)
      → are_tidy t.candidates ≡ true
      → head_waits t.cleanup_complete t.candidates ≡ true
      → IsKept
          (λ p. (if port == p then 1 else 0) + waits p t.candidates)
          (join_transition has_lifetime same_lifetime port turn t)
  unfolding join_transition are_tidy head_waits waits settlements reserved_waits reserved_tidy
      is_idle
  join_transition-IsKept port turn t tidy idle =
      elim (Bool-cases (same_lifetime t.target turn.identity)) [
        | inl same ↦ rw (same, join_transition) (joined (Bool-cases (is_live t.candidates)))
        | inr other ↦
            let changed : Transition I = record t { target = turn.identity; candidates = [] } in
            let added = add_candidate has_lifetime same_lifetime port turn changed in
            rw (other, join_transition)
              (IsKept-same
                (λ p.
                  settlements p (close_candidates t.candidates)
                  + ((if port == p then 1 else 0) + 0))
                (λ p. (if port == p then 1 else 0) + waits p t.candidates)
                (added.0, close_candidates t.candidates ++ added.1)
                (λ p. omega (arith, settlements-close_candidates p t.candidates))
                (IsKept-after (close_candidates t.candidates)
                  (λ p. (if port == p then 1 else 0) + 0) added
                  (add_candidate-IsKept port turn changed refl refl)))
      ]
    where
      joined :
          (is_live t.candidates ≡ true) ⊎ (is_live t.candidates ≡ false)
          → IsKept
              (λ p. (if port == p then 1 else 0) + waits p t.candidates)
              (if is_live t.candidates
                then (some t, rejected port ∷ [])
                else add_candidate has_lifetime same_lifetime port turn t)
      joined (inl live) = rw live (record { tally = λ p. omega arith; tidy = tidy; idle = idle })
      joined (inr waiting) = rw waiting (add_candidate-IsKept port turn t tidy idle)

  pub on_response-IsKept :
      (sequence challenge : ℕ) (turn : Turn I) (t : Transition I)
      → are_tidy t.candidates ≡ true
      → head_waits t.cleanup_complete t.candidates ≡ true
      → IsKept
          (λ p. waits p t.candidates)
          (on_response has_lifetime same_lifetime sequence challenge turn t)
  unfolding on_response
  on_response-IsKept sequence challenge turn t tidy idle =
      let heard : Transition I = record t {
        candidates = revive_where (takes sequence challenge) t.candidates;
      } in
      elim (Bool-cases (any_candidate (takes sequence challenge) t.candidates)) [
        | inl some_one ↦
            rw (some_one, on_response)
              (IsKept-same (λ p. waits p heard.candidates) (λ p. waits p t.candidates)
                (try_promote has_lifetime same_lifetime turn heard)
                (λ p. waits-revive_where p (takes sequence challenge) t.candidates)
                (try_promote-IsKept turn heard
                  (are_tidy-revive_where sequence challenge t.candidates tidy)))
        | inr nobody ↦ rw (nobody, on_response) (IsKept-idle t tidy idle)
      ]

  pub on_deadline-IsKept :
      (sequence : ℕ) (turn : Turn I) (t : Transition I)
      → are_tidy t.candidates ≡ true
      → head_waits t.cleanup_complete t.candidates ≡ true
      → IsKept (λ p. waits p t.candidates) (on_deadline has_lifetime same_lifetime sequence turn t)
  unfolding on_deadline
  on_deadline-IsKept sequence turn t tidy idle =
      let passed = expire_where (lapses sequence) t.candidates in
      let left : Transition I = record t { candidates = passed.0 } in
      elim (Bool-cases (any_candidate (lapses sequence) t.candidates)) [
        | inl some_one ↦
            rw (some_one, on_deadline)
              (IsKept-same (λ p. settlements p passed.1 + waits p passed.0)
                (λ p. waits p t.candidates)
                (
                  (try_promote has_lifetime same_lifetime turn left).0,
                  passed.1 ++ (try_promote has_lifetime same_lifetime turn left).1,
                )
                (λ p. waits-expire_where p sequence t.candidates)
                (IsKept-after passed.1 (λ p. waits p passed.0)
                  (try_promote has_lifetime same_lifetime turn left)
                  (try_promote-IsKept turn left
                    (are_tidy-expire_where sequence t.candidates tidy))))
        | inr nobody ↦ rw (nobody, on_deadline) (IsKept-idle t tidy idle)
      ]

  pub on_cleanup-IsKept :
      (turn : Turn I) (t : Transition I)
      → are_tidy t.candidates ≡ true
      → IsKept (λ p. waits p t.candidates) (on_cleanup has_lifetime same_lifetime turn t)
  unfolding on_cleanup
  on_cleanup-IsKept turn t tidy =
      try_promote-IsKept turn (record t { cleanup_complete = true }) tidy
