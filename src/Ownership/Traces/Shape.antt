-- ===== src/Ownership/Traces/Shape.antt =====
-- The shape of the maps in every run.
use ff_web_hid.Prelude.{ℕ, String, [], Option, none, nat_eq, string_eq, ◌≡◌, refl, arith}
use ff_web_hid.Prelude.Maps.{Map, get, del}
use ff_web_hid.Ownership.State.{State, get_in, inner}
use ff_web_hid.Ownership.State.Tables.{IsTable, nil-IsTable, del-IsTable, inner-del}
use ff_web_hid.Ownership.Lifetimes.{register_frame_lifetime}
use ff_web_hid.Ownership.Opens.{register_device_tab, unregister_device_tab}
use ff_web_hid.Ownership.Opens.Shape.{
  IsCounter, register_device_tab-IsCounter, unregister_device_tab-IsCounter,
}
use ff_web_hid.Ownership.Sessions.{OwnerInfo, register_device_session, unregister_device_session}
use ff_web_hid.Ownership.Sessions.Lookup.{
  tabs-register_device_session, tabs-unregister_device_session, tabs-register_frame_lifetime,
}
use ff_web_hid.Ownership.Sessions.Owners.{
  register_device_session-IsTable, unregister_device_session-IsTable,
}
use ff_web_hid.Ownership.Cleanup.{Reply, Closing, finish_close, retry_orphan_cleanup}
use ff_web_hid.Ownership.Cleanup.Settling.{tabs-finish_close, finish_close-IsTable}
use ff_web_hid.Ownership.Purge.{
  purge_tab, purge_frame, purge_bridge, clear_authority_ownership, clear_device_ownership,
}
use ff_web_hid.Ownership.Purge.Same.{
  purge_tab-KeepsSessions, purge_frame-KeepsSessions, purge_bridge-KeepsSessions,
}
use ff_web_hid.Ownership.Purge.Shape.{
  purge_tab-IsCounter, purge_frame-IsCounter, purge_bridge-IsCounter,
}
use ff_web_hid.Ownership.Traces.{
  World, Step, Reach, start, opened, began, settled, page_closed, tab_opened, tab_released,
  frame_opened, tab_purged, frame_purged, bridge_purged, retried, reset, unplugged, here, next,
}
use ff_web_hid.Ownership.Traces.Identity.{
  register_frame_lifetime-KeepsSessions, register_device_tab-KeepsSessions,
  unregister_device_tab-KeepsSessions,
}

pub record IsWellFormed (st : State) : Type 0 where
  pub sessions : IsTable st.device_sessions
  pub tabs : IsCounter st.device_tabs

nil-IsCounter : IsCounter []
nil-IsCounter = record { table = nil-IsTable; positive = λ d k. unfold get_in inner get in λ e. cc }

no_tab : (k : ℕ) → get {V = ℕ} k [] ≡ none
unfolding get
no_tab k = refl

del-IsCounter : (device : ℕ) (t : Map ℕ (Map ℕ ℕ)) → IsCounter t → IsCounter (del device t)
unfolding get_in
del-IsCounter device t h = record {
  table = del-IsTable device t h.table;
  positive = λ d k e. ground (arith, inner-del device d t, h.positive d k, no_tab k);
}

IsWellFormed-opened :
    (device : ℕ) (token : String) (info : OwnerInfo) (st : State)
    → IsWellFormed st
    → IsWellFormed (register_device_session device token info st).0
IsWellFormed-opened device token info st h = record {
  sessions = register_device_session-IsTable device token info st h.sessions;
  tabs = rw (tabs-register_device_session device token info st) h.tabs;
}

IsWellFormed-settled :
    (c : Closing) (reply : Reply) (st : State)
    → IsWellFormed st
    → IsWellFormed (finish_close c reply st).0
IsWellFormed-settled c reply st h = record {
  sessions = finish_close-IsTable c reply st h.sessions;
  tabs = rw (tabs-finish_close c reply st) h.tabs;
}

IsWellFormed-closed :
    (device : ℕ) (token : String) (st : State)
    → IsWellFormed st
    → IsWellFormed (unregister_device_session device token st)
IsWellFormed-closed device token st h = record {
  sessions = unregister_device_session-IsTable device token st h.sessions;
  tabs = rw (tabs-unregister_device_session device token st) h.tabs;
}

IsWellFormed-tabs :
    (st' st : State)
    → st'.device_sessions ≡ st.device_sessions
    → IsCounter st'.device_tabs
    → IsWellFormed st
    → IsWellFormed st'
IsWellFormed-tabs st' st s c h = record { sessions = rw s h.sessions; tabs = c }

IsWellFormed-unplugged :
    (device : ℕ) (st : State) → IsWellFormed st → IsWellFormed (clear_device_ownership device st)
unfolding clear_device_ownership
IsWellFormed-unplugged device st h = record {
  sessions = del-IsTable device st.device_sessions h.sessions;
  tabs = del-IsCounter device st.device_tabs h.tabs;
}

IsWellFormed-reset : (st : State) → IsWellFormed (clear_authority_ownership st)
unfolding clear_authority_ownership
IsWellFormed-reset st = record { sessions = nil-IsTable; tabs = nil-IsCounter }

IsWellFormed-frame :
    (tab : Option ℕ) (frame : String) (st : State)
    → IsWellFormed st
    → IsWellFormed (register_frame_lifetime tab frame st).0
IsWellFormed-frame tab frame st h =
    IsWellFormed-tabs (register_frame_lifetime tab frame st).0 st
      (register_frame_lifetime-KeepsSessions tab frame st).0
      (rw (tabs-register_frame_lifetime tab frame st) h.tabs) h

Step-IsWellFormed : {u v : World} → Step u v → IsWellFormed u.state → IsWellFormed v.state
Step-IsWellFormed {u} (opened device token info tab e) h =
    IsWellFormed-opened device token info u.state h
Step-IsWellFormed {u} (began device token) h = h
Step-IsWellFormed {u} (settled before after c reply e) h = IsWellFormed-settled c reply u.state h
Step-IsWellFormed {u} (page_closed device token) h = IsWellFormed-closed device token u.state h
Step-IsWellFormed {u} (tab_opened device tab) h =
    IsWellFormed-tabs (register_device_tab device tab u.state) u.state
      (register_device_tab-KeepsSessions device tab u.state).0
      (register_device_tab-IsCounter device tab u.state h.tabs) h
Step-IsWellFormed {u} (tab_released device tab) h =
    IsWellFormed-tabs (unregister_device_tab device tab u.state) u.state
      (unregister_device_tab-KeepsSessions device tab u.state).0
      (unregister_device_tab-IsCounter device tab u.state h.tabs) h
Step-IsWellFormed {u} (frame_opened tab frame) h = IsWellFormed-frame tab frame u.state h
Step-IsWellFormed {u} (tab_purged tab) h =
    IsWellFormed-tabs (purge_tab tab u.state).0 u.state (purge_tab-KeepsSessions tab u.state).0
      (purge_tab-IsCounter tab u.state h.tabs) h
Step-IsWellFormed {u} (frame_purged tab frame) h =
    IsWellFormed-tabs (purge_frame tab frame u.state).0 u.state
      (purge_frame-KeepsSessions tab frame u.state).0
      (purge_frame-IsCounter tab frame u.state h.tabs) h
Step-IsWellFormed {u} (bridge_purged tab bridge) h =
    IsWellFormed-tabs (purge_bridge tab bridge u.state).0 u.state
      (purge_bridge-KeepsSessions tab bridge u.state).0
      (purge_bridge-IsCounter tab bridge u.state h.tabs) h
Step-IsWellFormed {u} retried h =
    unfold retry_orphan_cleanup in record { sessions = h.sessions; tabs = h.tabs }
Step-IsWellFormed {u} reset h = IsWellFormed-reset u.state
Step-IsWellFormed {u} (unplugged device) h = IsWellFormed-unplugged device u.state h

start-IsWellFormed : IsWellFormed start.state
start-IsWellFormed = record { sessions = nil-IsTable; tabs = nil-IsCounter }

-- In every run the maps keep their shape: the devices, tokens and tabs of the maps are distinct, no
-- device has an empty map, and no tab is listed for a device with a count of 0.
pub Reach-IsWellFormed : {w : World} → Reach start w → IsWellFormed w.state
Reach-IsWellFormed here = start-IsWellFormed
Reach-IsWellFormed (next r s) = Step-IsWellFormed s (Reach-IsWellFormed r)
