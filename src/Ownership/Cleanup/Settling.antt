-- ===== src/Ownership/Cleanup/Settling.antt =====
-- What the two halves of closeForCleanup do to the sessions and to the queue of orphans.
use ff_web_hid.Prelude.{
  ℕ, ◌<◌, String, Option, none, some, not, ◌&&◌, ◌||◌, ◌==◌, nat_eq, string_eq, if◌then◌else◌, ◌≡◌,
  arith, Option-cases, inl, inr, Bool-cases,
}
use ff_web_hid.Prelude.Maps.{
  get, has, get-put, get-del, HasDistinctKeys, put-HasDistinctKeys, del-HasDistinctKeys,
}
use ff_web_hid.Ownership.State.{State, Owner}
use ff_web_hid.Ownership.State.Tables.{IsTable}
use ff_web_hid.Ownership.Sessions.{unregister_device_session}
use ff_web_hid.Ownership.Sessions.Lookup.{session, session-unregister_device_session_any}
use ff_web_hid.Ownership.Sessions.Owners.{unregister_device_session-IsTable}
use ff_web_hid.Ownership.Cleanup.{
  Reply, is_cleanup_confirmed, Closing, is_still_owner, release_owned, add_orphan,
  retain_orphan_cleanup, drop_orphan, finish_close,
}

-- The close's session, if the object that owned it at the start still owns it.
session-release_owned :
    (expected : Option Owner) (device d : ℕ) (token k : String) (st : State)
    → session d k (release_owned expected device token st) ≡ (
        if is_still_owner expected device token st
          && not (device == 0 || token == "")
          && (device == d && token == k)
        then none
        else session d k st)
unfolding release_owned
session-release_owned expected device d token k st =
    ground (arith, session-unregister_device_session_any device d token k st)

release_owned-orphans :
    (expected : Option Owner) (device : ℕ) (token : String) (st : State)
    → (release_owned expected device token st).orphan_cleanup ≡ st.orphan_cleanup
unfolding release_owned unregister_device_session
release_owned-orphans expected device token st = ground arith

release_owned-next_ref :
    (expected : Option Owner) (device : ℕ) (token : String) (st : State)
    → (release_owned expected device token st).next_ref ≡ st.next_ref
unfolding release_owned unregister_device_session
release_owned-next_ref expected device token st = ground arith

pub next_ref-finish_close :
    (c : Closing) (reply : Reply) (st : State) → (finish_close c reply st).0.next_ref ≡ st.next_ref
unfolding finish_close retain_orphan_cleanup drop_orphan add_orphan
next_ref-finish_close c reply st =
    ground (arith, release_owned-next_ref c.owner_at_start c.device_id c.token st)

-- The sessions after a close: only the session of the close is dropped, and only if its owner is the
-- object that owned it when the close began.
pub session-finish_close :
    (c : Closing) (reply : Reply) (d : ℕ) (k : String) (st : State)
    → session d k (finish_close c reply st).0 ≡ (
        if is_still_owner c.owner_at_start c.device_id c.token st
          && not (c.device_id == 0 || c.token == "")
          && (c.device_id == d && c.token == k)
        then none
        else session d k st)
unfolding finish_close retain_orphan_cleanup drop_orphan add_orphan
session-finish_close c reply d k st =
    ground (arith, session-release_owned c.owner_at_start c.device_id d c.token k st)

-- The orphans after a close: a confirmed close takes its token out of the queue; any other leaves it
-- there, with the attempts that it had, or puts it there with none; other tokens keep their entries.
pub orphan-finish_close :
    (c : Closing) (reply : Reply) (k : String) (st : State)
    → get k (finish_close c reply st).0.orphan_cleanup ≡ (
        if c.token == k
        then (if is_cleanup_confirmed reply then none else elim (get k st.orphan_cleanup) [
          | none ↦ some (record { device_id = c.device_id; attempts = 0 })
          | some entry ↦ some entry
        ])
        else get k st.orphan_cleanup)
unfolding finish_close retain_orphan_cleanup drop_orphan add_orphan has
orphan-finish_close c reply k st = ground (
  arith,
  release_owned-orphans c.owner_at_start c.device_id c.token st,
  string_eq.beq_iff c.token k,
  get-del c.token k st.orphan_cleanup,
  get-put c.token k (record { device_id = c.device_id; attempts = 0 }) st.orphan_cleanup,
)

pub finish_close-confirmed :
    (c : Closing) (reply : Reply) (st : State)
    → (finish_close c reply st).1 ≡ is_cleanup_confirmed reply
unfolding finish_close
finish_close-confirmed c reply st = ground arith

release_owned-IsTable :
    (expected : Option Owner) (device : ℕ) (token : String) (st : State)
    → IsTable st.device_sessions
    → IsTable (release_owned expected device token st).device_sessions
unfolding release_owned
release_owned-IsTable expected device token st h =
    elim (Bool-cases (is_still_owner expected device token st)) [
      | inl same ↦ rw (same, release_owned) (unregister_device_session-IsTable device token st h)
      | inr other ↦ rw (other, release_owned) h
    ]

release_then :
    (c : Closing) (reply : Reply) (st : State)
    → (finish_close c reply st).0.device_sessions
      ≡ (release_owned c.owner_at_start c.device_id c.token st).device_sessions
unfolding finish_close retain_orphan_cleanup drop_orphan add_orphan
release_then c reply st = ground arith

-- A close keeps the shape of the table of sessions.
pub finish_close-IsTable :
    (c : Closing) (reply : Reply) (st : State)
    → IsTable st.device_sessions
    → IsTable (finish_close c reply st).0.device_sessions
finish_close-IsTable c reply st h =
    rw (release_then c reply st) (release_owned-IsTable c.owner_at_start c.device_id c.token st h)

-- A close keeps the tokens of the queue distinct.
pub finish_close-HasDistinctKeys :
    (c : Closing) (reply : Reply) (st : State)
    → HasDistinctKeys st.orphan_cleanup
    → HasDistinctKeys (finish_close c reply st).0.orphan_cleanup
unfolding finish_close retain_orphan_cleanup drop_orphan add_orphan
finish_close-HasDistinctKeys c reply st h =
    let st' = release_owned c.owner_at_start c.device_id c.token st in
    let h' : HasDistinctKeys st'.orphan_cleanup =
      rw (release_owned-orphans c.owner_at_start c.device_id c.token st) h in
    elim (Bool-cases (is_cleanup_confirmed reply)) [
      | inl confirmed ↦ rw confirmed (del-HasDistinctKeys c.token st'.orphan_cleanup h')
      | inr pending ↦ rw pending (elim (Bool-cases (has c.token st'.orphan_cleanup)) [
        | inl queued ↦ rw queued h'
        | inr fresh ↦ rw fresh (
            put-HasDistinctKeys c.token (record { device_id = c.device_id; attempts = 0 })
              st'.orphan_cleanup h')
      ])
    ]

-- An owner that was made before a given one, or none.
abbrev pub IsOlder : ℕ → Option Owner → Type 0
IsOlder n none = Unit
IsOlder n (some owner) = owner.ref < n

-- A session whose owner is younger than the one that the close captured stays.
pub session-finish_close_younger :
    (c : Closing) (reply : Reply) (d : ℕ) (k : String) (st : State) (owner : Owner)
    → session d k st ≡ some owner
    → IsOlder owner.ref c.owner_at_start
    → session d k (finish_close c reply st).0 ≡ some owner
unfolding is_still_owner
session-finish_close_younger c reply d k st owner found older =
    elim (Option-cases c.owner_at_start) [
      | inl unowned ↦ ground (arith, unowned, session-finish_close c reply d k st)
      | inr (captured, e) ↦
          let younger : captured.ref < owner.ref = ground arith in
          ground (arith, e, string_eq.beq_iff c.token k, session-finish_close c reply d k st)
    ]

release_owned-tabs :
    (expected : Option Owner) (device : ℕ) (token : String) (st : State)
    → (release_owned expected device token st).device_tabs ≡ st.device_tabs
unfolding release_owned unregister_device_session
release_owned-tabs expected device token st = ground arith

pub tabs-finish_close :
    (c : Closing) (reply : Reply) (st : State)
    → (finish_close c reply st).0.device_tabs ≡ st.device_tabs
unfolding finish_close retain_orphan_cleanup drop_orphan add_orphan
tabs-finish_close c reply st =
    ground (arith, release_owned-tabs c.owner_at_start c.device_id c.token st)
