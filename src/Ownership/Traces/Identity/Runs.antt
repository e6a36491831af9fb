-- ===== src/Ownership/Traces/Identity/Runs.antt =====
-- Every step keeps the identities apart, so a close cannot drop a session that was registered after it
-- began.
use ff_web_hid.Prelude.{
  ℕ, String, List, [], ◌∷◌, ◌++◌, some, true, nat_eq, string_eq, ◌≡◌, refl, arith, sym, subst,
  All-drop_middle,
}
use ff_web_hid.Ownership.Lifetimes.{register_frame_lifetime}
use ff_web_hid.Ownership.Opens.{register_device_tab, unregister_device_tab}
use ff_web_hid.Ownership.Sessions.{OwnerInfo, register_device_session}
use ff_web_hid.Ownership.Sessions.Lookup.{session, new_owner, session-register_device_session}
use ff_web_hid.Ownership.Cleanup.{Reply, Closing, start_close, finish_close, retry_orphan_cleanup}
use ff_web_hid.Ownership.Cleanup.Settling.{IsOlder, session-finish_close_younger}
use ff_web_hid.Ownership.Purge.{purge_tab, purge_frame, purge_bridge}
use ff_web_hid.Ownership.Purge.Same.{
  purge_tab-KeepsSessions, purge_frame-KeepsSessions, purge_bridge-KeepsSessions,
}
use ff_web_hid.Ownership.Purge.Captures.{
  purge_tab-Captures, purge_frame-Captures, purge_bridge-Captures, retry_orphan_cleanup-Captures,
}
use ff_web_hid.Ownership.Traces.{
  World, Step, Reach, start, opened, began, settled, page_closed, tab_opened, tab_released,
  frame_opened, tab_purged, frame_purged, bridge_purged, retried, reset, unplugged, here, next,
}
use ff_web_hid.Ownership.Traces.Identity.{
  ClosingsOlder, IsIdentified, IsIdentified-opened, IsIdentified-page_closed, IsIdentified-reset,
  IsIdentified-same, IsIdentified-settled, IsIdentified-start, IsIdentified-unplugged,
  empty_session, register_device_tab-KeepsSessions, register_frame_lifetime-KeepsSessions,
  retry_orphan_cleanup-sessions, start_close-Captures, unregister_device_tab-KeepsSessions,
}

Step-IsIdentified : {u v : World} → Step u v → IsIdentified u → IsIdentified v
Step-IsIdentified {u} (opened device token info tab e) h =
    IsIdentified-opened u device token info tab _ e h
Step-IsIdentified {u} (began device token) h =
    IsIdentified-start u u.state (start_close device token u.state ∷ []) refl refl
      (start_close-Captures device token u.state) h
Step-IsIdentified {u} (settled before after c reply e) h =
    IsIdentified-settled u before after c reply _ e h
Step-IsIdentified {u} (page_closed device token) h = IsIdentified-page_closed u device token _ h
Step-IsIdentified {u} (tab_opened device tab) h =
    let (s, o, n) = register_device_tab-KeepsSessions device tab u.state in
    IsIdentified-same u (record u { state = register_device_tab device tab u.state }) s (sym n) refl
      h
Step-IsIdentified {u} (tab_released device tab) h =
    let (s, o, n) = unregister_device_tab-KeepsSessions device tab u.state in
    IsIdentified-same u (record u { state = unregister_device_tab device tab u.state }) s (sym n)
      refl h
Step-IsIdentified {u} (frame_opened tab frame) h =
    let (s, o, n) = register_frame_lifetime-KeepsSessions tab frame u.state in
    IsIdentified-same u (record u { state = (register_frame_lifetime tab frame u.state).0 }) s
      (sym n) refl h
Step-IsIdentified {u} (tab_purged tab) h =
    IsIdentified-start u (purge_tab tab u.state).0 (purge_tab tab u.state).1
      (purge_tab-KeepsSessions tab u.state).0 (purge_tab-KeepsSessions tab u.state).2
      (purge_tab-Captures tab u.state) h
Step-IsIdentified {u} (frame_purged tab frame) h =
    IsIdentified-start u (purge_frame tab frame u.state).0 (purge_frame tab frame u.state).1
      (purge_frame-KeepsSessions tab frame u.state).0
      (purge_frame-KeepsSessions tab frame u.state).2 (purge_frame-Captures tab frame u.state) h
Step-IsIdentified {u} (bridge_purged tab bridge) h =
    IsIdentified-start u (purge_bridge tab bridge u.state).0 (purge_bridge tab bridge u.state).1
      (purge_bridge-KeepsSessions tab bridge u.state).0
      (purge_bridge-KeepsSessions tab bridge u.state).2 (purge_bridge-Captures tab bridge u.state) h
Step-IsIdentified {u} retried h =
    let (s, n) = retry_orphan_cleanup-sessions u.state in
    IsIdentified-start u (retry_orphan_cleanup u.state).0 (retry_orphan_cleanup u.state).1 s n
      (retry_orphan_cleanup-Captures u.state) h
Step-IsIdentified {u} reset h = IsIdentified-reset u h
Step-IsIdentified {u} (unplugged device) h = IsIdentified-unplugged u device _ h

Reach-IsIdentified : {u v : World} → IsIdentified u → Reach u v → IsIdentified v
Reach-IsIdentified h here = h
Reach-IsIdentified h (next r s) = Step-IsIdentified s (Reach-IsIdentified h r)

start-IsIdentified : IsIdentified start
start-IsIdentified = record { owners = λ d k. rw (empty_session d k) tt; closings = tt }

-- In every run: if a close is in flight when a session is registered, even one of the same device and
-- token, then settling that close, with any reply, leaves the new session registered.
pub registered_session_survives :
    {w : World} (before after : List Closing) (c : Closing) (reply : Reply) (device : ℕ)
    (token : String) (info : OwnerInfo) (tab : ℕ)
    → Reach start w
    → w.closing ≡ before ++ (c ∷ after)
    → info.tab_id ≡ some tab
    → (register_device_session device token info w.state).1 ≡ true
    → session device token
        (finish_close c reply (register_device_session device token info w.state).0).0
      ≡ some (new_owner tab info w.state)
registered_session_survives {w} before after c reply device token info tab r e known accepted =
    let st' = (register_device_session device token info w.state).0 in
    let added = session-register_device_session device device tab token token info w.state known in
    let older =
      (All-drop_middle (λ c. IsOlder w.state.next_ref c.owner_at_start) before c after
        (subst (ClosingsOlder w.state.next_ref) e
          (Reach-IsIdentified start-IsIdentified r).closings)).0 in
    session-finish_close_younger c reply device token st' (new_owner tab info w.state)
      (ground (arith, added, accepted, string_eq.beq_iff token token)) older
