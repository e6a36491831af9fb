-- ===== src/Bridge/Data/Allocation.antt =====
-- The loop of allocateDataReqId ends, with an id that no pending request has.
use ff_web_hid.Prelude.{
  ℕ, suc, zero, ◌+◌, ◌<◌, ◌≤◌, [], ◌∷◌, Option, none, some, Bool, true, false, ltb, nat_eq,
  if◌then◌else◌, ◌≡◌, arith, Bool-cases, Option-cases, inl, inr, length, refl,
}
use native.Mathlib.Decide.{dec_le}
use ff_web_hid.Prelude.Maps.{Map, get, has}
use ff_web_hid.Bridge.Data.{
  Pending, Data, allocate, allocate_data_req_id, next_seq, max_safe_integer,
}

pub allocate-fresh :
    (fuel seq : ℕ) (m : Map ℕ Pending) (r : ℕ) → allocate fuel seq m ≡ some r → has r m ≡ false
unfolding allocate
allocate-fresh zero seq m r h = absurd (ground arith)
allocate-fresh (suc fuel) seq m r h = elim (Bool-cases (has (next_seq seq) m)) [
  | inl taken ↦ allocate-fresh fuel (next_seq seq) m r (ground (arith, taken, h))
  | inr free ↦ ground (arith, free, h)
]

-- How many of the pending requests have a later id.
unfoldable pub later : ℕ → Map ℕ Pending → ℕ
later seq [] = 0
later seq ((r, p) ∷ m) = (if ltb seq r then 1 else 0) + later seq m

later-next : (seq : ℕ) (m : Map ℕ Pending) → later (seq + 1) m ≤ later seq m
unfolding later
later-next seq [] = omega arith
later-next seq ((r, p) ∷ m) = ground (arith, later-next seq m)

later-taken :
    (seq : ℕ) (m : Map ℕ Pending) → has (seq + 1) m ≡ true → later (seq + 1) m + 1 ≤ later seq m
unfolding later has get
later-taken seq [] h = absurd (ground arith)
later-taken seq ((r, p) ∷ m) h = ground (arith, later-next seq m, later-taken seq m)

later-length : (seq : ℕ) (m : Map ℕ Pending) → later seq m ≤ length m
unfolding later
later-length seq [] = omega arith
later-length seq ((r, p) ∷ m) = ground (arith, later-length seq m)

abbrev is_given : Option ℕ → Bool
is_given none = false
is_given (some r) = true

allocate-later :
    (fuel seq : ℕ) (m : Map ℕ Pending)
    → later seq m < fuel
    → seq + fuel ≤ max_safe_integer
    → is_given (allocate fuel seq m) ≡ true
unfolding allocate next_seq
allocate-later zero seq m h g = absurd (omega arith)
allocate-later (suc fuel) seq m h g = elim (Bool-cases (has (seq + 1) m)) [
  | inl taken ↦ ground (arith, taken, later-taken seq m taken, allocate-later fuel (seq + 1) m)
  | inr free ↦ ground (arith, free)
]

allocate-more :
    (fuel more seq : ℕ) (m : Map ℕ Pending)
    → fuel ≤ more
    → is_given (allocate fuel seq m) ≡ true
    → is_given (allocate more seq m) ≡ true
unfolding allocate
allocate-more zero more seq m h g = absurd (ground arith)
allocate-more (suc fuel) zero seq m h g = absurd (omega arith)
allocate-more (suc fuel) (suc more) seq m h g = elim (Bool-cases (has (next_seq seq) m)) [
  | inl taken ↦
      rw taken (allocate-more fuel more (next_seq seq) m (omega arith) (ground (arith, taken)))
  | inr free ↦ ground (arith, free)
]

-- Without a wrap-around, one round more than there are requests is enough.
allocate_below :
    (fuel seq : ℕ) (m : Map ℕ Pending)
    → length m + 1 ≤ fuel
    → seq + length m + 1 ≤ max_safe_integer
    → is_given (allocate fuel seq m) ≡ true
allocate_below fuel seq m enough below =
    allocate-more (length m + 1) fuel seq m enough
      (allocate-later (length m + 1) seq m (omega (arith, later-length seq m)) (omega arith))

-- From the largest safe integer on, the loop goes on as from 0.
allocate_wrapped :
    (fuel seq : ℕ) (m : Map ℕ Pending)
    → max_safe_integer ≤ seq
    → allocate fuel seq m ≡ allocate fuel 0 m
unfolding allocate next_seq
allocate_wrapped zero seq m h = refl
allocate_wrapped (suc fuel) seq m h = let wraps : next_seq seq ≡ 1 = ground arith in rw wraps refl

allocate_around :
    (fuel seq : ℕ) (m : Map ℕ Pending)
    → length m + 1 ≤ max_safe_integer
    → max_safe_integer + length m + 1 ≤ fuel + seq
    → length m + 1 ≤ fuel
    → is_given (allocate fuel seq m) ≡ true
unfolding allocate next_seq
allocate_around zero seq m h far enough = absurd (omega arith)
allocate_around (suc fuel) seq m h far enough = elim (dec_le max_safe_integer seq) [
  | yes wrapped ↦
      rw (allocate_wrapped (suc fuel) seq m wrapped)
        (allocate_below (suc fuel) 0 m enough (omega arith))
  | no below ↦
      let next : next_seq seq ≡ seq + 1 = ground arith in
      elim (Bool-cases (has (seq + 1) m)) [
        | inl taken ↦
            rw (next, taken) (allocate_around fuel (seq + 1) m h (omega arith) (omega arith))
        | inr free ↦ ground (arith, next, free)
      ]
]

-- While fewer requests are pending than there are safe integers from 1 on, the loop of allocateDataReqId
-- ends, wherever the sequence stands and also when it wraps around, after at most two rounds more than
-- twice the requests that are pending, with an id that none of them has.
pub allocate_data_req_id-fresh :
    (d : Data)
    → length d.data_pending + 1 ≤ max_safe_integer
    → (r : ℕ) × (allocate_data_req_id d ≡ some r) × (has r d.data_pending ≡ false)
unfolding allocate_data_req_id
allocate_data_req_id-fresh d h =
    let seq = d.data_req_seq in
    let m = d.data_pending in
    let rounds = length m + 1 in
    let fuel = rounds + rounds in
    let given : is_given (allocate fuel seq m) ≡ true =
      elim (dec_le (seq + length m + 1) max_safe_integer) [
        | yes below ↦ allocate_below fuel seq m (omega arith) below
        | no far ↦ allocate_around fuel seq m h (omega arith) (omega arith)
      ] in
    elim (Option-cases (allocate fuel seq m)) [
      | inl nothing ↦ absurd (ground (arith, nothing, given))
      | inr (r, some_one) ↦ (r, some_one, allocate-fresh fuel seq m r some_one)
    ]
