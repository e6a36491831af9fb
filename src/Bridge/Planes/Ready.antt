-- ===== src/Bridge/Planes/Ready.antt =====
-- What is recorded of a plane: its ready generation, and the caller that waits. The map has one caller for
-- each plane: one that a later call displaces, or whose wait has timed out, is in it no more.
use ff_web_hid.Prelude.{
  ℕ, ◌+◌, String, Option, none, some, Bool, true, false, not, ◌&&◌, ◌==◌, nat_eq, string_eq,
  if◌then◌else◌, ◌≡◌, refl, arith, Bool-cases, inl, inr,
}
use ff_web_hid.Prelude.Maps.{get, get-put, get-del}
use ff_web_hid.Ownership.Opens.{or_zero}
use ff_web_hid.Bridge.Planes.{
  Planes, no_planes, Readiness, Waiter, Prerequisite, is_generation, settle_stale, settle_ready,
  begin_plane_generation, readiness_for, mark, become_ready, mark_current, mark_plane_prerequisite,
  mark_plane_ready, wait_for_plane_ready, wait_timed_out, despawn_ends, local, authoritative,
}

-- The generation that is ready, told from the current generation and its marks.
unfoldable pub ready_of : Option ℕ → Option Readiness → Option ℕ
ready_of none r = none
ready_of (some g) none = none
ready_of (some g) (some r) =
    if r.generation == g && (r.local && r.authoritative) then some g else none

-- The caller that is recorded is recorded for the current generation, which is not ready.
unfoldable pub waits_well : Option Waiter → Option ℕ → Option ℕ → Bool
waits_well none spawned readied = true
waits_well (some w) spawned readied =
    is_generation w.generation spawned && not (is_generation w.generation readied)

pub record IsSound (p : Planes) : Type 0 where
  pub readied :
      (key : String)
      → get key p.ready_generations ≡ ready_of (get key p.spawn_gen) (get key p.plane_readiness)
  pub waiting :
      (key : String)
      → waits_well (get key p.pending_ready) (get key p.spawn_gen) (get key p.ready_generations)
        ≡ true

begin_plane_generation-IsSound :
    (key : String) (p : Planes) → IsSound p → IsSound (begin_plane_generation key p).0
unfolding begin_plane_generation settle_stale ready_of waits_well
begin_plane_generation-IsSound key p h = record {
  readied = λ j.
      let g = or_zero (get key p.spawn_gen) + 1 in
      let r : Readiness = record { generation = g; local = false; authoritative = false } in
      ground (
        arith,
        h.readied j,
        get-put key j g p.spawn_gen,
        get-put key j r p.plane_readiness,
        get-del key j p.ready_generations,
      );
  waiting = λ j.
      let g = or_zero (get key p.spawn_gen) + 1 in
      ground (
        arith,
        h.waiting j,
        string_eq.beq_iff key j,
        get-put key j g p.spawn_gen,
        get-del key j p.ready_generations,
        get-del key j p.pending_ready,
      );
}

mark_current-IsSound :
    (has_client : Bool) (key : String) (generation : ℕ) (prerequisite : Prerequisite) (p : Planes)
    → is_generation generation (get key p.spawn_gen) ≡ true
    → IsSound p
    → IsSound (mark_current has_client key generation prerequisite p).0
unfolding mark_current become_ready settle_ready readiness_for mark ready_of waits_well
mark_current-IsSound has_client key generation prerequisite p current h = record {
  readied = λ j.
      let r = mark prerequisite (readiness_for generation (get key p.plane_readiness)) in
      ground (
        arith,
        h.readied j,
        string_eq.beq_iff key j,
        get-put key j r p.plane_readiness,
        get-put key j generation p.ready_generations,
      );
  waiting = λ j.
      let r = mark prerequisite (readiness_for generation (get key p.plane_readiness)) in
      ground (
        arith,
        h.waiting j,
        string_eq.beq_iff key j,
        get-put key j generation p.ready_generations,
        get-del key j p.pending_ready,
      );
}

mark_plane_prerequisite-IsSound :
    (has_client : Bool) (key : String) (generation : ℕ) (prerequisite : Prerequisite) (p : Planes)
    → IsSound p
    → IsSound (mark_plane_prerequisite has_client key generation prerequisite p).0
unfolding mark_plane_prerequisite
mark_plane_prerequisite-IsSound has_client key generation prerequisite p h =
    elim (Bool-cases (is_generation generation (get key p.spawn_gen))) [
      | inl current ↦
          rw (current, mark_plane_prerequisite)
            (mark_current-IsSound has_client key generation prerequisite p current h)
      | inr past ↦ rw (past, mark_plane_prerequisite) h
    ]

mark_plane_ready-IsSound :
    (has_client : Bool) (key : String) (generation : ℕ) (p : Planes)
    → IsSound p
    → IsSound (mark_plane_ready has_client key generation p).0
unfolding mark_plane_ready
mark_plane_ready-IsSound has_client key generation p h =
    let p' = (mark_plane_prerequisite has_client key generation local p).0 in
    mark_plane_prerequisite-IsSound has_client key generation authoritative p'
      (mark_plane_prerequisite-IsSound has_client key generation local p h)

wait_for_plane_ready-IsSound :
    (alive : Bool) (caller : ℕ) (key : String) (generation : ℕ) (p : Planes)
    → IsSound p
    → IsSound (wait_for_plane_ready alive caller key generation p).0
unfolding wait_for_plane_ready ready_of waits_well
wait_for_plane_ready-IsSound alive caller key generation p h = record {
  readied = λ j. ground (arith, h.readied j);
  waiting = λ j.
      let w : Waiter = record { generation = generation; caller = caller } in
      ground (arith, h.waiting j, string_eq.beq_iff key j, get-put key j w p.pending_ready);
}

wait_timed_out-IsSound :
    (key : String) (generation : ℕ) (p : Planes)
    → IsSound p
    → IsSound (wait_timed_out key generation p).0
unfolding wait_timed_out ready_of waits_well
wait_timed_out-IsSound key generation p h = record {
  readied = λ j. ground (arith, h.readied j);
  waiting =
      λ j. ground (arith, h.waiting j, string_eq.beq_iff key j, get-del key j p.pending_ready);
}

despawn_ends-IsSound : (key : String) (p : Planes) → IsSound p → IsSound (despawn_ends key p)
unfolding despawn_ends ready_of waits_well
despawn_ends-IsSound key p h = record {
  readied = λ j.
      ground
        (arith, h.readied j, get-del key j p.plane_readiness, get-del key j p.ready_generations);
  waiting = λ j. ground (arith, h.waiting j, get-del key j p.ready_generations);
}

-- The operations on the planes, in any order, on any generations.
pub data Reach : Planes → Type 0 where
  here : Reach no_planes
  begins : {p : Planes} (key : String) → Reach p → Reach (begin_plane_generation key p).0
  marks :
      {p : Planes} (has_client : Bool) (key : String) (generation : ℕ) (prerequisite : Prerequisite)
      → Reach p
      → Reach (mark_plane_prerequisite has_client key generation prerequisite p).0
  marks_both :
      {p : Planes} (has_client : Bool) (key : String) (generation : ℕ)
      → Reach p
      → Reach (mark_plane_ready has_client key generation p).0
  waits :
      {p : Planes} (alive : Bool) (caller : ℕ) (key : String) (generation : ℕ)
      → Reach p
      → Reach (wait_for_plane_ready alive caller key generation p).0
  times_out :
      {p : Planes} (key : String) (generation : ℕ)
      → Reach p
      → Reach (wait_timed_out key generation p).0
  despawns : {p : Planes} (key : String) → Reach p → Reach (despawn_ends key p)

no_planes-IsSound : IsSound no_planes
unfolding ready_of waits_well get
no_planes-IsSound = record { readied = λ j. refl; waiting = λ j. refl }

-- After the bridge's operations on planes, in any order and on any generations, a plane's generation is
-- recorded as ready exactly when it is the current one and both of its prerequisites are marked in it;
-- and the caller that is recorded as waiting for a plane, at most one, is recorded for the plane's current
-- generation, which is not ready.
pub Reach-IsSound : {p : Planes} → Reach p → IsSound p
Reach-IsSound here = no_planes-IsSound
Reach-IsSound (begins {p} key r) = begin_plane_generation-IsSound key p (Reach-IsSound r)
Reach-IsSound (marks {p} has_client key generation prerequisite r) =
    mark_plane_prerequisite-IsSound has_client key generation prerequisite p (Reach-IsSound r)
Reach-IsSound (marks_both {p} has_client key generation r) =
    mark_plane_ready-IsSound has_client key generation p (Reach-IsSound r)
Reach-IsSound (waits {p} alive caller key generation r) =
    wait_for_plane_ready-IsSound alive caller key generation p (Reach-IsSound r)
Reach-IsSound (times_out {p} key generation r) =
    wait_timed_out-IsSound key generation p (Reach-IsSound r)
Reach-IsSound (despawns {p} key r) = despawn_ends-IsSound key p (Reach-IsSound r)
