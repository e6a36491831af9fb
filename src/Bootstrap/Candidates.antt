-- ===== src/Bootstrap/Candidates.antt =====
-- The candidates of a transition in addon/js/content/isolated/bootstrap-lifetime.js, and what a turn of
-- the gate is given and does.
use ff_web_hid.Prelude.{
  ℕ, List, [], ◌∷◌, ◌++◌, Option, Bool, true, false, not, ◌&&◌, ◌||◌, ◌==◌, nat_eq, if◌then◌else◌,
}

-- `deadline` is that a deadlineHandle is set. A closed candidate's port has no listener any more.
pub record Candidate (I : Type 0) : Type 0 where
  pub sequence : ℕ
  pub port : ℕ
  pub identity : I
  pub challenge : ℕ
  pub live : Bool
  pub expired : Bool
  pub closed : Bool
  pub deadline : Bool

pub data Effect : Type 0 where
  accepted rejected destroyed : ℕ → Effect
  destroyed_previous : Effect

-- What `accept(…)` and then `accepted(…)` do.
pub data Acceptance : Type 0 where
  accepts accept_throws accepted_throws : Acceptance

-- What the dependencies answer in one turn: getIdentity, getContext, createChallenge, whether the probe
-- is posted, getCurrentIdentity, and the acceptance.
pub record Turn (I : Type 0) : Type 0 where
  pub identity : I
  pub previous : Option I
  pub challenge : ℕ
  pub posts : Bool
  pub current : I
  pub acceptance : Acceptance

abbrev pub new_candidate : {I : Type 0} → ℕ → ℕ → Turn I → Candidate I
new_candidate sequence port turn = record {
  sequence = sequence;
  port = port;
  identity = turn.identity;
  challenge = turn.challenge;
  live = false;
  expired = false;
  closed = false;
  deadline = true;
}

unfoldable pub close_candidate : {I : Type 0} → Candidate I → Candidate I × List Effect
close_candidate c =
    if c.closed
    then (c, [])
    else (record c { closed = true; deadline = false }, rejected c.port ∷ [])

unfoldable pub close_candidates : {I : Type 0} → List (Candidate I) → List Effect
unfolding close_candidate
close_candidates [] = []
close_candidates (c ∷ cs) = (close_candidate c).1 ++ close_candidates cs

-- The end of tryPromote: the head is taken from the transition and accepted, or the transition fails.
unfoldable pub accept_head :
    {I : Type 0} → Acceptance → Candidate I → List (Candidate I) → List Effect
accept_head accepts c cs = accepted c.port ∷ close_candidates cs
accept_head accept_throws c cs = rejected c.port ∷ close_candidates cs
accept_head accepted_throws c cs = destroyed c.port ∷ rejected c.port ∷ close_candidates cs

unfoldable pub reject_ports : List ℕ → List Effect
reject_ports [] = []
reject_ports (p ∷ ps) = rejected p ∷ reject_ports ps

unfoldable pub is_live : {I : Type 0} → List (Candidate I) → Bool
is_live [] = false
is_live (c ∷ cs) = if c.live then true else is_live cs

-- The listener of a candidate's port takes the message.
unfoldable pub takes : {I : Type 0} → ℕ → ℕ → Candidate I → Bool
takes sequence challenge c =
    c.sequence == sequence && (not c.closed && (not c.expired && (c.challenge == challenge)))

-- The timer of a candidate has something to do.
unfoldable pub lapses : {I : Type 0} → ℕ → Candidate I → Bool
lapses sequence c = c.sequence == sequence && not (c.expired || (c.live || c.closed))

abbrev pub revive : {I : Type 0} → Candidate I → Candidate I
revive c = record c { live = true; deadline = false }

abbrev pub expire : {I : Type 0} → Candidate I → Candidate I
expire c = record c { expired = true }

unfoldable pub any_candidate : {I : Type 0} → (Candidate I → Bool) → List (Candidate I) → Bool
any_candidate test [] = false
any_candidate test (c ∷ cs) = if test c then true else any_candidate test cs

unfoldable pub revive_where :
    {I : Type 0} → (Candidate I → Bool) → List (Candidate I) → List (Candidate I)
revive_where test [] = []
revive_where test (c ∷ cs) = if test c then revive c ∷ cs else c ∷ revive_where test cs

-- The candidate is expired and closed where it stands.
unfoldable pub expire_where :
    {I : Type 0} → (Candidate I → Bool) → List (Candidate I) → List (Candidate I) × List Effect
unfolding close_candidate
expire_where test [] = ([], [])
expire_where test (c ∷ cs) =
    let (rest, effects) = expire_where test cs in
    if test c
    then ((close_candidate (expire c)).0 ∷ cs, (close_candidate (expire c)).1)
    else (c ∷ rest, effects)
