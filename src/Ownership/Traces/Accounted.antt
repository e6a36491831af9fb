-- ===== src/Ownership/Traces/Accounted.antt =====
-- No daemon session is forgotten: one that was registered, and whose end the daemon has not reported, is
-- still recorded with its owner or queued for another attempt to close it.
pub mod Runs
use ff_web_hid.Prelude.{
  ℕ, ◌+◌, String, List, [], ◌∷◌, ◌++◌, Option, none, some, Bool, true, false, not, ◌&&◌, ◌||◌, ◌==◌,
  nat_eq, string_eq, if◌then◌else◌, ◌≡◌, ◌≢◌, refl, arith, Option-cases, inl, inr, Bool-cases, ap,
  sym, subst,
}
use ff_web_hid.Prelude.Maps.{
  Map, get, put, del, del_where, has, HasDistinctKeys, put-HasDistinctKeys, del-HasDistinctKeys,
  del_where-HasDistinctKeys, get-del_where,
}
use ff_web_hid.Ownership.State.{State, Owner, Orphan, get_in}
use ff_web_hid.Ownership.Opens.{register_device_tab, unregister_device_tab}
use ff_web_hid.Ownership.Lifetimes.{register_frame_lifetime}
use ff_web_hid.Ownership.Sessions.{OwnerInfo, register_device_session, unregister_device_session}
use ff_web_hid.Ownership.Sessions.Lookup.{
  session, session-register_device_session, session-unregister_device_session_any,
  orphans-register_device_session, orphans-unregister_device_session,
}
use ff_web_hid.Ownership.Cleanup.{
  Reply, is_cleanup_confirmed, Closing, start_close, finish_close, retry_orphan_cleanup,
  count_attempts,
}
use ff_web_hid.Ownership.Cleanup.Settling.{
  session-finish_close, orphan-finish_close, finish_close-HasDistinctKeys,
}
use ff_web_hid.Ownership.Purge.{
  purge_tab, purge_frame, purge_bridge, clear_authority_ownership, clear_device_ownership,
}
use ff_web_hid.Ownership.Purge.Same.{
  KeepsSessions, purge_tab-KeepsSessions, purge_frame-KeepsSessions, purge_bridge-KeepsSessions,
}
use ff_web_hid.Ownership.Traces.{
  World, Step, Reach, start, forgive_token, forgive_device, is_orphan_of, opened, began, settled,
  page_closed, tab_opened, tab_released, frame_opened, tab_purged, frame_purged, bridge_purged,
  retried, reset, unplugged, here, next,
}
use ff_web_hid.Ownership.Traces.Identity.{
  get_in-del, register_frame_lifetime-KeepsSessions, register_device_tab-KeepsSessions,
  unregister_device_tab-KeepsSessions,
}

-- Whether the daemon still owes the end of a session.
unfoldable pub owes : ℕ → String → List (ℕ × String) → Bool
owes d k [] = false
owes d k ((e, j) ∷ owed) = if e == d && j == k then true else owes d k owed

-- Whether a session is recorded with its owner, or its token is queued for another attempt.
unfoldable pub is_kept : ℕ → String → State → Bool
is_kept d k st = (elim (session d k st) [ none ↦ false | some _ ↦ true ]) || has k st.orphan_cleanup

pub record IsAccounted (w : World) : Type 0 where
  pub kept : (d : ℕ) (k : String) → owes d k w.owed ≡ true → is_kept d k w.state ≡ true
  pub orphans : HasDistinctKeys w.state.orphan_cleanup

pub owes-forgive_token :
    (d : ℕ) (k token : String) (owed : List (ℕ × String))
    → owes d k (forgive_token token owed) ≡ (owes d k owed && not (k == token))
unfolding owes forgive_token
owes-forgive_token d k token [] = refl
owes-forgive_token d k token ((e, j) ∷ owed) = ground (
  arith,
  string_eq.beq_iff j token,
  string_eq.beq_iff k token,
  string_eq.beq_iff j k,
  owes-forgive_token d k token owed,
)

pub owes-forgive_device :
    (d device : ℕ) (k : String) (st : State) (owed : List (ℕ × String))
    → owes d k (forgive_device device st owed)
      ≡ (owes d k owed && not (d == device || is_orphan_of device (get k st.orphan_cleanup)))
unfolding owes forgive_device
owes-forgive_device d device k st [] = refl
owes-forgive_device d device k st ((e, j) ∷ owed) = elim (Bool-cases (j == k)) [
  | inl same ↦
      rw ((string_eq.beq_iff j k).0 same)
        (ground (arith, string_eq.beq_iff k k, owes-forgive_device d device k st owed))
  | inr differ ↦ ground (arith, differ, owes-forgive_device d device k st owed)
]

pub is_kept-same :
    (d : ℕ) (k : String) (st' st : State)
    → st'.device_sessions ≡ st.device_sessions
    → st'.orphan_cleanup ≡ st.orphan_cleanup
    → is_kept d k st' ≡ is_kept d k st
unfolding is_kept
is_kept-same d k st' st s o = rw (s, o)

pub is_kept-register :
    (device d tab : ℕ) (token k : String) (info : OwnerInfo) (st : State)
    → info.tab_id ≡ some tab
    → (let r = register_device_session device token info st in
        is_kept d k r.0 ≡ (if r.1 && (device == d && token == k) then true else is_kept d k st))
unfolding is_kept has
is_kept-register device d tab token k info st e = ground (
  arith,
  session-register_device_session device d tab token k info st e,
  orphans-register_device_session device token info st,
)

pub is_kept-finish :
    (c : Closing) (reply : Reply) (d : ℕ) (k : String) (st : State)
    → is_kept d k st ≡ true
    → (is_cleanup_confirmed reply && (k == c.token)) ≡ false
    → is_kept d k (finish_close c reply st).0 ≡ true
unfolding is_kept has
is_kept-finish c reply d k st h unconfirmed = ground (
  arith,
  string_eq.beq_iff c.token k,
  string_eq.beq_iff k c.token,
  session-finish_close c reply d k st,
  orphan-finish_close c reply k st,
)

pub is_kept-unregister :
    (device d : ℕ) (token k : String) (st : State)
    → is_kept d k st ≡ true
    → (k == token) ≡ false
    → is_kept d k (unregister_device_session device token st) ≡ true
unfolding is_kept has
is_kept-unregister device d token k st h other = ground (
  arith,
  string_eq.beq_iff token k,
  string_eq.beq_iff k token,
  session-unregister_device_session_any device d token k st,
  orphans-unregister_device_session device token st,
)

pub is_kept-unplugged :
    (device d : ℕ) (k : String) (st : State)
    → HasDistinctKeys st.orphan_cleanup
    → is_kept d k st ≡ true
    → (d == device || is_orphan_of device (get k st.orphan_cleanup)) ≡ false
    → is_kept d k (clear_device_ownership device st) ≡ true
unfolding is_kept has clear_device_ownership
is_kept-unplugged device d k st distinct h other = ground (
  arith,
  get_in-del device d k st.device_sessions,
  get-del_where (λ _ entry. entry.device_id == device) k st.orphan_cleanup distinct,
)
