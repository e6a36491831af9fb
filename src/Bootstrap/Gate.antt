-- ===== src/Bootstrap/Gate.antt =====
-- The transition of a source in addon/js/content/isolated/bootstrap-lifetime.js and its operations: the
-- candidates, the promotion of their head, and the handler of the bootstrap message.
pub mod Tally
pub mod Kept
pub mod Runs
pub mod Accepted
use ff_web_hid.Prelude.{
  ℕ, suc, ◌+◌, List, [], ◌∷◌, ◌++◌, Option, none, some, Bool, true, false, not, ◌&&◌, ◌||◌, ◌==◌,
  nat_eq, if◌then◌else◌,
}
use ff_web_hid.Bootstrap.Candidates.{
  accepted, rejected, destroyed, destroyed_previous, accepts, accept_throws, accepted_throws,
  Candidate, Effect, Acceptance, Turn, new_candidate, close_candidate, close_candidates,
  accept_head, reject_ports, is_live, takes, lapses, revive, expire, any_candidate, revive_where,
  expire_where,
}

-- `serial` tells the transition from the others of the source. A failed transition is not stored.
pub record Transition (I : Type 0) : Type 0 where
  pub serial : ℕ
  pub target : I
  pub cleanup_complete : Bool
  pub candidates : List (Candidate I)
  pub next_sequence : ℕ

-- The reservation of the source, and the serial of its next transition.
pub record Gate (I : Type 0) : Type 0 where
  pub reservation : Option (Transition I)
  pub next_serial : ℕ

abbrev pub closed_gate : (I : Type 0) → Gate I
closed_gate I = record { reservation = none; next_serial = 0 }

unfoldable pub fail_transition : {I : Type 0} → Transition I → Option (Transition I) × List Effect
unfolding close_candidates
fail_transition t = (none, close_candidates t.candidates)

-- A callback of the transition with that serial, when it is still the one that is reserved.
unfoldable pub on_transition :
    {I : Type 0}
    → (Transition I → Option (Transition I) × List Effect)
    → ℕ
    → Gate I
    → Gate I × List Effect
on_transition callback serial g = elim g.reservation [
  | none ↦ (g, [])
  | some t ↦
      (let (left, effects) = callback t in
        if t.serial == serial then (record g { reservation = left }, effects) else (g, []))
]

module _ {I : Type 0} (has_lifetime : I → Bool) (same_lifetime : I → I → Bool) where
  -- The loop of tryPromote on the transition's candidates: the reservation it leaves, and its effects.
  unfoldable pub promote :
      I → Acceptance → Transition I → List (Candidate I) → Option (Transition I) × List Effect
  unfolding accept_head close_candidates close_candidate
  promote current acceptance t [] = (some (record t { candidates = [] }), [])
  promote current acceptance t (c ∷ cs) =
      let (left, effects) = promote current acceptance t cs in
      if c.expired
      then (left, (close_candidate c).1 ++ effects)
      else if not c.live || not t.cleanup_complete
      then (some (record t { candidates = c ∷ cs }), [])
      else if not (has_lifetime current)
      then (none, close_candidates (c ∷ cs))
      else if not (same_lifetime t.target current)
      then (some (record t { target = current; candidates = [] }), close_candidates (c ∷ cs))
      else if not (same_lifetime c.identity t.target)
      then (left, (close_candidate c).1 ++ effects)
      else (none, accept_head acceptance c cs)

  -- tryPromote, on the transition that is reserved.
  unfoldable pub try_promote : Turn I → Transition I → Option (Transition I) × List Effect
  unfolding promote
  try_promote turn t = promote turn.current turn.acceptance t t.candidates

  unfoldable pub add_candidate : ℕ → Turn I → Transition I → Option (Transition I) × List Effect
  unfolding try_promote
  add_candidate port turn t =
      let c = new_candidate t.next_sequence port turn in
      let grown : Transition I = record t { next_sequence = t.next_sequence + 1 } in
      if turn.posts
      then (some (record grown { candidates = t.candidates ++ (c ∷ []) }), [])
      else (let (closed_one, effects) = close_candidate (expire c) in
          let (left, more) =
            try_promote turn (record grown { candidates = t.candidates ++ (closed_one ∷ []) }) in
          (left, effects ++ more))

  -- startTransition; the cleanup of the previous context ends in a turn of its own.
  unfoldable pub start_transition : ℕ → Turn I → Gate I → Gate I × List Effect
  unfolding add_candidate
  start_transition port turn g =
      let (left, effects) = add_candidate port turn (record {
        serial = g.next_serial;
        target = turn.identity;
        cleanup_complete = elim turn.previous [ none ↦ true | some _ ↦ false ];
        candidates = [];
        next_sequence = 0;
      }) in
      (
        record { reservation = left; next_serial = g.next_serial + 1 },
        effects ++ elim turn.previous [ none ↦ [] | some _ ↦ destroyed_previous ∷ [] ],
      )

  -- The handler, once the message is well formed and its sender has a lifetime, when a transition of the
  -- source is reserved.
  unfoldable pub join_transition : ℕ → Turn I → Transition I → Option (Transition I) × List Effect
  unfolding add_candidate is_live
  join_transition port turn t =
      if same_lifetime t.target turn.identity
      then (if is_live t.candidates
          then (some t, rejected port ∷ [])
          else add_candidate port turn t)
      else (let (left, effects) =
            add_candidate port turn (record t { target = turn.identity; candidates = [] }) in
          (left, close_candidates t.candidates ++ effects))

  unfoldable pub is_refused : Option I → I → Bool
  is_refused none identity = false
  is_refused (some previous) identity =
      same_lifetime previous identity
      || (not (has_lifetime previous) || not (has_lifetime identity))

  unfoldable pub admit_port : ℕ → Turn I → Gate I → Gate I × List Effect
  unfolding start_transition join_transition is_refused
  admit_port port turn g = elim g.reservation [
    | some t ↦
        (let (left, effects) = join_transition port turn t in
          (record g { reservation = left }, effects))
    | none ↦
        if is_refused turn.previous turn.identity
        then (g, rejected port ∷ [])
        else start_transition port turn g
  ]

  -- The handler; `well_formed` is that the message's data is null and that it has a source.
  unfoldable pub on_bootstrap : Bool → List ℕ → Turn I → Gate I → Gate I × List Effect
  unfolding admit_port reject_ports
  on_bootstrap well_formed [] turn g = (g, [])
  on_bootstrap well_formed (p ∷ []) turn g =
      if not (well_formed && has_lifetime turn.identity)
      then (g, rejected p ∷ [])
      else admit_port p turn g
  on_bootstrap well_formed (p ∷ q ∷ ps) turn g = (g, reject_ports (p ∷ q ∷ ps))

  -- The listener of a candidate's port, on a response to its probe.
  unfoldable pub on_response : ℕ → ℕ → Turn I → Transition I → Option (Transition I) × List Effect
  unfolding try_promote takes any_candidate revive_where
  on_response sequence challenge turn t =
      if any_candidate (takes sequence challenge) t.candidates
      then try_promote turn
          (record t { candidates = revive_where (takes sequence challenge) t.candidates })
      else (some t, [])

  -- The timer of a candidate.
  unfoldable pub on_deadline : ℕ → Turn I → Transition I → Option (Transition I) × List Effect
  unfolding try_promote lapses any_candidate expire_where
  on_deadline sequence turn t =
      let (candidates, effects) = expire_where (lapses sequence) t.candidates in
      if any_candidate (lapses sequence) t.candidates
      then (let (left, more) = try_promote turn (record t { candidates = candidates }) in
          (left, effects ++ more))
      else (some t, [])

  -- The previous context is destroyed, or its destruction failed.
  unfoldable pub on_cleanup : Turn I → Transition I → Option (Transition I) × List Effect
  unfolding try_promote
  on_cleanup turn t = try_promote turn (record t { cleanup_complete = true })
