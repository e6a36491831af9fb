-- ===== src/Bootstrap/Tests.antt =====
-- A run of the gate: two bootstraps of one lifetime, of which the first answers its probe and is accepted.
-- An identity is a number, and has a lifetime when it is not 0.
use ff_web_hid.Prelude.{ℕ, [], ◌∷◌, ◌++◌, none, Bool, true, not, nat_eq, ◌==◌, ◌≡◌, refl}
use ff_web_hid.Bootstrap.Gate.{
  Transition, promote, try_promote, on_bootstrap, on_transition, on_response,
}
use ff_web_hid.Bootstrap.Candidates.{accepts, Turn, new_candidate, revive, accept_head}
use ff_web_hid.Bootstrap.Gate.Runs.{
  Run, start, did, here, next, arriving, responding, IsFair, Reach-IsFair,
}
use ff_web_hid.Bootstrap.Gate.Accepted.{
  has_accepted, acceptances, may_accept, try_promote-may_accept,
}

abbrev has_lifetime : ℕ → Bool
has_lifetime i = not (i == 0)

abbrev same_lifetime : ℕ → ℕ → Bool
same_lifetime i j = i == j

abbrev turn : Turn ℕ
turn = record {
  identity = 5;
  previous = none;
  challenge = 77;
  posts = true;
  current = 5;
  acceptance = accepts;
}

abbrev arrived : ℕ → Run ℕ → Run ℕ
arrived port x = record {
  gate = (on_bootstrap has_lifetime same_lifetime true (port ∷ []) turn x.gate).0;
  received = x.received ++ (port ∷ []);
  effects = x.effects ++ (on_bootstrap has_lifetime same_lifetime true (port ∷ []) turn x.gate).1;
}

abbrev two_arrived : Run ℕ
two_arrived = arrived 32 (arrived 31 (start ℕ))

abbrev answered : Run ℕ
answered =
    did two_arrived
      (on_transition (on_response has_lifetime same_lifetime 0 77 turn) 0 two_arrived.gate)

Reach-IsFair_example : IsFair answered
Reach-IsFair_example = Reach-IsFair has_lifetime same_lifetime (
    next (next (next here (arriving true (31 ∷ []) turn)) (arriving true (32 ∷ []) turn))
      (responding 0 0 77 turn))

-- The transition in which the first of the two candidates is live.
abbrev live_first : Transition ℕ
live_first = record {
  serial = 0;
  target = 5;
  cleanup_complete = true;
  candidates = revive (new_candidate 0 31 turn) ∷ new_candidate 1 32 turn ∷ [];
  next_sequence = 2;
}

try_promote-may_accept_example :
    (let r = try_promote has_lifetime same_lifetime turn live_first in
      (acceptances r.1 ≡ 1) × (may_accept has_lifetime same_lifetime 31 5 live_first r.0 ≡ true))
unfolding try_promote promote has_accepted accept_head
try_promote-may_accept_example =
    try_promote-may_accept has_lifetime same_lifetime 31 turn live_first refl
