-- ===== src/Ownership/Cleanup.antt =====
-- Closing daemon sessions: isCleanupConfirmed, closeForCleanup, retainOrphanCleanup,
-- enqueueOrphanCleanup and retryOrphanCleanup of addon/js/background/state_ops.js. closeForCleanup
-- waits for the daemon between its two halves, so it is two functions: what other tasks do in between
-- happens to the state that the second half is given.
pub mod Settling
use ff_web_hid.Prelude.{
  ℕ, suc, zero, ◌+◌, String, List, [], ◌∷◌, Option, none, some, Bool, true, false, ◌&&◌, ◌||◌, ltb,
  leb, length, map, ◌==◌, nat_eq, string_eq, if◌then◌else◌,
}
use ff_web_hid.Prelude.Maps.{Map, get, put, del, has}
use ff_web_hid.Ownership.State.{State, Owner, Orphan, get_in}
use ff_web_hid.Ownership.Sessions.{unregister_device_session}

-- What the daemon's close came to: an exception, a response with no status, or a status.
pub data Reply : Type 0 where
  threw no_status : Reply
  status : ℕ → Reply

abbrev pub cleanup_already_gone : ℕ
cleanup_already_gone = 404

unfoldable pub is_cleanup_confirmed : Reply → Bool
is_cleanup_confirmed threw = false
is_cleanup_confirmed no_status = false
is_cleanup_confirmed (status s) = (leb 200 s && ltb s 300) || s == cleanup_already_gone

-- A close that has been asked of the daemon, with the owner of the session at that time.
pub record Closing : Type 0 where
  pub device_id : ℕ
  pub token : String
  pub owner_at_start : Option Owner

-- The first half of closeForCleanup, up to its `await`.
unfoldable pub start_close : ℕ → String → State → Closing
start_close device token st = record {
  device_id = device;
  token = token;
  owner_at_start = get_in device token st.device_sessions;
}

is_same_object : Owner → Option Owner → Bool
is_same_object owner none = false
is_same_object owner (some current) = current.ref == owner.ref

-- `owner && deviceSessions.get(deviceId)?.get(token) === owner`
unfoldable pub is_still_owner : Option Owner → ℕ → String → State → Bool
unfolding is_same_object
is_still_owner none device token st = false
is_still_owner (some owner) device token st =
    is_same_object owner (get_in device token st.device_sessions)

-- Unregisters the session if it still has the owner that is expected.
unfoldable pub release_owned : Option Owner → ℕ → String → State → State
unfolding is_still_owner
release_owned expected device token st =
    if is_still_owner expected device token st
    then unregister_device_session device token st
    else st

add_orphan : ℕ → String → State → State
add_orphan device token st = if has token st.orphan_cleanup then st else record st {
  orphan_cleanup = put token (record { device_id = device; attempts = 0 }) st.orphan_cleanup;
}

unfoldable pub retain_orphan_cleanup : ℕ → String → Option Owner → State → State
unfolding add_orphan
retain_orphan_cleanup device token expected st =
    add_orphan device token (release_owned expected device token st)

drop_orphan : String → State → State
drop_orphan token st = record st { orphan_cleanup = del token st.orphan_cleanup }

-- The second half of closeForCleanup: the state after it, and what it resolves to.
unfoldable pub finish_close : Closing → Reply → State → State × Bool
unfolding drop_orphan
finish_close c reply st =
    if is_cleanup_confirmed reply
    then (drop_orphan c.token (release_owned c.owner_at_start c.device_id c.token st), true)
    else (retain_orphan_cleanup c.device_id c.token c.owner_at_start st, false)

unfoldable pub enqueue_orphan_cleanup : ℕ → String → State → State
enqueue_orphan_cleanup device token st =
    retain_orphan_cleanup device token none (unregister_device_session device token st)

-- One attempt more for each orphan of the list.
unfoldable pub count_attempts : Map String Orphan → Map String Orphan
count_attempts [] = []
count_attempts ((token, entry) ∷ m) =
    (token, record entry { attempts = entry.attempts + 1 }) ∷ count_attempts m

unfoldable pub start_orphans : Map String Orphan → State → List Closing
start_orphans [] st = []
start_orphans ((token, entry) ∷ m) st = start_close entry.device_id token st ∷ start_orphans m st

-- retryOrphanCleanup: the state, the closes that it starts and the number that it returns.
unfoldable pub retry_orphan_cleanup : State → State × List Closing × ℕ
unfolding count_attempts start_orphans
retry_orphan_cleanup st = (
  record st { orphan_cleanup = count_attempts st.orphan_cleanup },
  start_orphans st.orphan_cleanup st,
  length st.orphan_cleanup,
)
