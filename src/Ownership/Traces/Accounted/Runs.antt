-- ===== src/Ownership/Traces/Accounted/Runs.antt =====
-- The account holds in every run.
use ff_web_hid.Prelude.{
  ℕ, String, List, [], ◌∷◌, ◌++◌, none, some, true, ◌==◌, nat_eq, string_eq, if◌then◌else◌, ◌≡◌,
  refl, arith, ◌∙◌,
}
use ff_web_hid.Prelude.Maps.{Map, get, has, HasDistinctKeys, del_where-HasDistinctKeys}
use ff_web_hid.Ownership.State.{State, Orphan}
use ff_web_hid.Ownership.Sessions.{OwnerInfo, register_device_session, unregister_device_session}
use ff_web_hid.Ownership.Sessions.Lookup.{
  orphans-register_device_session, orphans-unregister_device_session,
}
use ff_web_hid.Ownership.Cleanup.{
  Reply, is_cleanup_confirmed, Closing, finish_close, retry_orphan_cleanup, count_attempts,
}
use ff_web_hid.Ownership.Cleanup.Settling.{finish_close-HasDistinctKeys}
use ff_web_hid.Ownership.Purge.{clear_authority_ownership, clear_device_ownership}
use ff_web_hid.Ownership.Purge.Same.{
  KeepsSessions, purge_tab-KeepsSessions, purge_frame-KeepsSessions, purge_bridge-KeepsSessions,
}
use ff_web_hid.Ownership.Traces.{
  World, Step, Reach, start, forgive_token, forgive_device, opened, began, settled, page_closed,
  tab_opened, tab_released, frame_opened, tab_purged, frame_purged, bridge_purged, retried, reset,
  unplugged, here, next,
}
use ff_web_hid.Ownership.Traces.Identity.{
  register_frame_lifetime-KeepsSessions, register_device_tab-KeepsSessions,
  unregister_device_tab-KeepsSessions,
}
use ff_web_hid.Ownership.Traces.Accounted.{
  owes, is_kept, IsAccounted, owes-forgive_token, owes-forgive_device, is_kept-same,
  is_kept-register, is_kept-finish, is_kept-unregister, is_kept-unplugged,
}

get-count_attempts_none : (k : String) (m : Map String Orphan) → has k (count_attempts m) ≡ has k m
unfolding get count_attempts has
get-count_attempts_none k [] = refl
get-count_attempts_none k ((j, entry) ∷ m) = ground (arith, get-count_attempts_none k m)

get-count_attempts :
    (k : String) (m : Map String Orphan) → get k m ≡ none → get k (count_attempts m) ≡ none
unfolding get count_attempts
get-count_attempts k [] h = refl
get-count_attempts k ((j, entry) ∷ m) h = ground (arith, get-count_attempts k m)

count_attempts-HasDistinctKeys :
    (m : Map String Orphan) → HasDistinctKeys m → HasDistinctKeys (count_attempts m)
unfolding count_attempts
count_attempts-HasDistinctKeys [] h = tt
count_attempts-HasDistinctKeys ((j, entry) ∷ m) (h, hs) =
    (get-count_attempts j m h, count_attempts-HasDistinctKeys m hs)

is_kept-retry :
    (d : ℕ) (k : String) (st : State) → is_kept d k (retry_orphan_cleanup st).0 ≡ is_kept d k st
unfolding is_kept retry_orphan_cleanup
is_kept-retry d k st = rw (get-count_attempts_none k st.orphan_cleanup)

-- A step that changes no session and no orphan.
IsAccounted-same :
    (w : World) (st : State) (closing : List Closing)
    → KeepsSessions st w.state
    → IsAccounted w
    → IsAccounted (record w { state = st; closing = closing })
IsAccounted-same w st closing (s, o, _) h = record {
  kept = λ d k owed. is_kept-same d k st w.state s o ∙ h.kept d k owed;
  orphans = rw o h.orphans;
}

IsAccounted-opened :
    (w : World) (device : ℕ) (token : String) (info : OwnerInfo) (tab : ℕ)
    → info.tab_id ≡ some tab
    → IsAccounted w
    → (let r = register_device_session device token info w.state in
        IsAccounted
          (record w { state = r.0; owed = if r.1 then (device, token) ∷ w.owed else w.owed }))
unfolding owes
IsAccounted-opened w device token info tab e h = record {
  kept =
      λ d k owed. ground (arith, h.kept d k, is_kept-register device d tab token k info w.state e);
  orphans = rw (orphans-register_device_session device token info w.state) h.orphans;
}

IsAccounted-settled :
    (w : World) (closing : List Closing) (c : Closing) (reply : Reply)
    → IsAccounted w
    → IsAccounted (record {
      state = (finish_close c reply w.state).0;
      closing = closing;
      owed = if is_cleanup_confirmed reply then forgive_token c.token w.owed else w.owed;
    })
IsAccounted-settled w closing c reply h = record {
  kept = λ d k owed. ground (
    arith,
    h.kept d k,
    owes-forgive_token d k c.token w.owed,
    is_kept-finish c reply d k w.state,
  );
  orphans = finish_close-HasDistinctKeys c reply w.state h.orphans;
}

IsAccounted-page_closed :
    (w : World) (device : ℕ) (token : String)
    → IsAccounted w
    → IsAccounted (record w {
      state = unregister_device_session device token w.state;
      owed = forgive_token token w.owed;
    })
IsAccounted-page_closed w device token h = record {
  kept = λ d k owed. ground (
    arith,
    h.kept d k,
    owes-forgive_token d k token w.owed,
    is_kept-unregister device d token k w.state,
  );
  orphans = rw (orphans-unregister_device_session device token w.state) h.orphans;
}

IsAccounted-unplugged :
    (w : World) (device : ℕ)
    → IsAccounted w
    → IsAccounted (record w {
      state = clear_device_ownership device w.state;
      owed = forgive_device device w.state w.owed;
    })
unfolding clear_device_ownership
IsAccounted-unplugged w device h = record {
  kept = λ d k owed. ground (
    arith,
    h.kept d k,
    owes-forgive_device d device k w.state w.owed,
    is_kept-unplugged device d k w.state h.orphans,
  );
  orphans =
      del_where-HasDistinctKeys (λ _ entry. entry.device_id == device) w.state.orphan_cleanup
        h.orphans;
}

IsAccounted-reset :
    (w : World) → IsAccounted (record w { state = clear_authority_ownership w.state; owed = [] })
unfolding clear_authority_ownership owes
IsAccounted-reset w = record { kept = λ d k owed. cc; orphans = tt }

IsAccounted-retried :
    (w : World) (closing : List Closing)
    → IsAccounted w
    → IsAccounted (record w { state = (retry_orphan_cleanup w.state).0; closing = closing })
IsAccounted-retried w closing h = record {
  kept = λ d k owed. is_kept-retry d k w.state ∙ h.kept d k owed;
  orphans =
      unfold retry_orphan_cleanup in
      (count_attempts-HasDistinctKeys w.state.orphan_cleanup h.orphans);
}

Step-IsAccounted : {u v : World} → Step u v → IsAccounted u → IsAccounted v
Step-IsAccounted {u} (opened device token info tab e) h =
    IsAccounted-opened u device token info tab e h
Step-IsAccounted {u} (began device token) h = IsAccounted-same u u.state _ (refl, refl, refl) h
Step-IsAccounted {u} (settled before after c reply e) h =
    IsAccounted-settled u (before ++ after) c reply h
Step-IsAccounted {u} (page_closed device token) h = IsAccounted-page_closed u device token h
Step-IsAccounted {u} (tab_opened device tab) h =
    IsAccounted-same u _ u.closing (register_device_tab-KeepsSessions device tab u.state) h
Step-IsAccounted {u} (tab_released device tab) h =
    IsAccounted-same u _ u.closing (unregister_device_tab-KeepsSessions device tab u.state) h
Step-IsAccounted {u} (frame_opened tab frame) h =
    IsAccounted-same u _ u.closing (register_frame_lifetime-KeepsSessions tab frame u.state) h
Step-IsAccounted {u} (tab_purged tab) h =
    IsAccounted-same u _ _ (purge_tab-KeepsSessions tab u.state) h
Step-IsAccounted {u} (frame_purged tab frame) h =
    IsAccounted-same u _ _ (purge_frame-KeepsSessions tab frame u.state) h
Step-IsAccounted {u} (bridge_purged tab bridge) h =
    IsAccounted-same u _ _ (purge_bridge-KeepsSessions tab bridge u.state) h
Step-IsAccounted {u} retried h = IsAccounted-retried u _ h
Step-IsAccounted {u} reset h = IsAccounted-reset u
Step-IsAccounted {u} (unplugged device) h = IsAccounted-unplugged u device h

Reach-IsAccounted : {u v : World} → IsAccounted u → Reach u v → IsAccounted v
Reach-IsAccounted h here = h
Reach-IsAccounted h (next r s) = Step-IsAccounted s (Reach-IsAccounted h r)

start-IsAccounted : IsAccounted start
unfolding owes
start-IsAccounted = record { kept = λ d k owed. cc; orphans = tt }

-- In every run, with closes settling in any order and with any replies: a session that was registered,
-- and whose end the daemon has not reported, is recorded with its owner or its token is queued for
-- another attempt to close it.
pub sessions_accounted :
    {w : World} (d : ℕ) (k : String)
    → Reach start w
    → owes d k w.owed ≡ true
    → is_kept d k w.state ≡ true
sessions_accounted d k r = (Reach-IsAccounted start-IsAccounted r).kept d k
