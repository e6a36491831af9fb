-- ===== src/Bridge/Planes.antt =====
-- The generations of data planes in addon/js/content/isolated/bridge.js: beginPlaneGeneration, the marks
-- of a plane's two prerequisites, waitForPlaneReady, and what despawnDataPlane does to them. The timers
-- and the client ports are arguments.

pub mod Ready
use ff_web_hid.Prelude.{
  ℕ, suc, ◌+◌, String, List, [], ◌∷◌, ◌++◌, Option, none, some, Bool, true, false, not, ◌&&◌, ◌==◌,
  nat_eq, string_eq, if◌then◌else◌,
}
use ff_web_hid.Prelude.Maps.{Map, get, put, del}
use ff_web_hid.Ownership.Opens.{or_zero}

pub record Readiness : Type 0 where
  pub generation : ℕ
  pub local : Bool
  pub authoritative : Bool

-- A caller of waitForPlaneReady that waits, by a number.
pub record Waiter : Type 0 where
  pub generation : ℕ
  pub caller : ℕ

pub record Planes : Type 0 where
  pub spawn_gen : Map String ℕ
  pub ready_generations : Map String ℕ
  pub plane_readiness : Map String Readiness
  pub pending_ready : Map String Waiter

abbrev pub no_planes : Planes
no_planes = record {
  spawn_gen = [];
  ready_generations = [];
  plane_readiness = [];
  pending_ready = [];
}

-- `{ ok: true }`, `{ ok: false, stale: true }` and `{ ok: false, destroyed: true }`
pub data PlaneReply : Type 0 where
  ready stale destroyed : PlaneReply

pub data Effect : Type 0 where
  resolved : ℕ → PlaneReply → Effect
  notified : String → ℕ → Effect

pub data Prerequisite : Type 0 where
  local authoritative : Prerequisite

-- A generation that is stored under a key: `map.get(key) === generation`.
abbrev pub is_generation : ℕ → Option ℕ → Bool
is_generation generation none = false
is_generation generation (some g) = g == generation

-- The caller that waits for an older generation of the key is told so.
unfoldable pub settle_stale : String → ℕ → Planes → Planes × List Effect
settle_stale key generation p = elim (get key p.pending_ready) [
  | none ↦ (p, [])
  | some w ↦
      if w.generation == generation
      then (p, [])
      else (record p { pending_ready = del key p.pending_ready }, resolved w.caller stale ∷ [])
]

unfoldable pub begin_plane_generation : String → Planes → Planes × List Effect
unfolding settle_stale
begin_plane_generation key p =
    let generation = or_zero (get key p.spawn_gen) + 1 in
    settle_stale key generation (record p {
      spawn_gen = put key generation p.spawn_gen;
      ready_generations = del key p.ready_generations;
      plane_readiness =
          put key (record { generation = generation; local = false; authoritative = false })
            p.plane_readiness;
    })

-- `state`, made anew for another generation.
unfoldable pub readiness_for : ℕ → Option Readiness → Readiness
readiness_for generation none = record {
  generation = generation;
  local = false;
  authoritative = false;
}
readiness_for generation (some r) =
    if r.generation == generation
    then r
    else record { generation = generation; local = false; authoritative = false }

unfoldable pub mark : Prerequisite → Readiness → Readiness
mark local r = record r { local = true }
mark authoritative r = record r { authoritative = true }

-- notifyPlaneReady, once the generation is known to be the current one: it posts to the client there is.
unfoldable pub notify_plane_ready : Bool → String → ℕ → List Effect
notify_plane_ready has_client key generation =
    if has_client then notified key generation ∷ [] else []

-- `const pending = …; if (!pending || pending.generation !== generation) return; …`
unfoldable pub settle_ready : String → ℕ → Planes → Planes × List Effect
settle_ready key generation p = elim (get key p.pending_ready) [
  | none ↦ (p, [])
  | some w ↦
      if w.generation == generation
      then (record p { pending_ready = del key p.pending_ready }, resolved w.caller ready ∷ [])
      else (p, [])
]

-- Both prerequisites are there.
unfoldable pub become_ready : Bool → String → ℕ → Planes → Planes × List Effect
unfolding settle_ready
become_ready has_client key generation p =
    let (p', settled) =
      settle_ready key generation
        (record p { ready_generations = put key generation p.ready_generations }) in
    (
      p',
      (if is_generation generation (get key p.ready_generations)
            then []
            else notify_plane_ready has_client key generation)
          ++ settled,
    )

unfoldable pub mark_current : Bool → String → ℕ → Prerequisite → Planes → Planes × List Effect
unfolding become_ready
mark_current has_client key generation prerequisite p =
    let r = mark prerequisite (readiness_for generation (get key p.plane_readiness)) in
    let p' : Planes = record p { plane_readiness = put key r p.plane_readiness } in
    if r.local && r.authoritative then become_ready has_client key generation p' else (p', [])

unfoldable pub mark_plane_prerequisite :
    Bool → String → ℕ → Prerequisite → Planes → Planes × List Effect
unfolding mark_current
mark_plane_prerequisite has_client key generation prerequisite p =
    if is_generation generation (get key p.spawn_gen)
    then mark_current has_client key generation prerequisite p
    else (p, [])

unfoldable pub mark_plane_ready : Bool → String → ℕ → Planes → Planes × List Effect
mark_plane_ready has_client key generation p =
    let (p', first) = mark_plane_prerequisite has_client key generation local p in
    let (p'', second) = mark_plane_prerequisite has_client key generation authoritative p' in
    (p'', first ++ second)

-- waitForPlaneReady: the reply at once, or none when the caller waits.
unfoldable pub wait_for_plane_ready : Bool → ℕ → String → ℕ → Planes → Planes × Option PlaneReply
wait_for_plane_ready alive caller key generation p =
    if not alive
    then (p, some destroyed)
    else if not (is_generation generation (get key p.spawn_gen))
    then (p, some stale)
    else if is_generation generation (get key p.ready_generations)
    then (p, some ready)
    else (
      record p {
        pending_ready =
            put key (record { generation = generation; caller = caller }) p.pending_ready;
      },
      none,
    )

-- The timer of a wait: whether the caller's generation is given up, and for which generation the fallback
-- is tried.
unfoldable pub wait_timed_out : String → ℕ → Planes → Planes × Option PlaneReply
wait_timed_out key generation p = elim (get key p.pending_ready) [
  | none ↦ (p, none)
  | some w ↦
      if w.generation == generation
      then (
        record p { pending_ready = del key p.pending_ready },
        if is_generation generation (get key p.spawn_gen) then none else some stale,
      )
      else (p, none)
]

-- What despawnDataPlane does to the generations: it begins one, and in the end drops the readiness.
unfoldable pub despawn_begins : String → Planes → Planes × List Effect
despawn_begins key p = begin_plane_generation key p

unfoldable pub despawn_ends : String → Planes → Planes
despawn_ends key p = record p {
  plane_readiness = del key p.plane_readiness;
  ready_generations = del key p.ready_generations;
}
