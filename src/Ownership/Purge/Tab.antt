-- ===== src/Ownership/Purge/Tab.antt =====
-- purgeTab: the closing tab loses its opens and its documents, every session that it owned is closed
-- in the daemon, and nothing else is touched.
use ff_web_hid.Prelude.{
  ℕ, String, List, [], ◌∷◌, none, some, ◌&&◌, ◌==◌, nat_eq, string_eq, if◌then◌else◌, ◌≡◌, refl,
  arith, Option-cases, inl, inr, Bool-cases, ap,
}
use ff_web_hid.Prelude.Maps.{get, del, get-del, contains, holds}
use ff_web_hid.Ownership.State.{State, get_in}
use ff_web_hid.Ownership.State.Tables.{IsTable, inner_of_none, inner_of_get, inner-drop_empty}
use ff_web_hid.Ownership.Sessions.{collect_device_sessions_for_tab, owned_by_tab}
use ff_web_hid.Ownership.Sessions.Lookup.{session}
use ff_web_hid.Ownership.Sessions.Owners.{contains-collect_sessions}
use ff_web_hid.Ownership.Opens.Counts.{opens, count-nil}
use ff_web_hid.Ownership.Purge.{device_ids, start_all, forget_tab, purge_tab_devices, purge_tab}
use ff_web_hid.Ownership.Purge.Devices.{
  IsSameElsewhere, IsSameElsewhere-trans, missed_session, missed_opens, asks, asks-append,
  asks-start_all,
}

opens-forget_tab :
    (device tab d t : ℕ) (st : State)
    → opens d t (forget_tab tab device st) ≡ (if device == d && tab == t then 0 else opens d t st)
unfolding opens forget_tab get_in
opens-forget_tab device tab d t st = elim (Option-cases (get device st.device_tabs)) [
  | inl absent ↦ ground (arith, absent, inner_of_none device st.device_tabs absent, count-nil t)
  | inr (tabs, present) ↦ ground (
    arith,
    present,
    inner_of_get device tabs st.device_tabs present,
    inner-drop_empty device d (del tab tabs) st.device_tabs,
    get-del tab t tabs,
  )
]

pub forget_tab-IsSameElsewhere :
    (tab device : ℕ) (st : State) → IsSameElsewhere (forget_tab tab device st) st
unfolding forget_tab
forget_tab-IsSameElsewhere tab device st = (ground arith, ground arith, ground arith, ground arith)

opens-purge_tab_devices :
    (tab d t : ℕ) (devices : List ℕ) (st : State)
    → opens d t (purge_tab_devices tab devices st).0
      ≡ (if contains d devices && tab == t then 0 else opens d t st)
unfolding purge_tab_devices contains
opens-purge_tab_devices tab d t [] st = refl
opens-purge_tab_devices tab d t (device ∷ devices) st = ground (
  arith,
  opens-purge_tab_devices tab d t devices (forget_tab tab device st),
  opens-forget_tab device tab d t st,
)

pub purge_tab_devices-IsSameElsewhere :
    (tab : ℕ) (devices : List ℕ) (st : State)
    → IsSameElsewhere (purge_tab_devices tab devices st).0 st
unfolding purge_tab_devices
purge_tab_devices-IsSameElsewhere tab [] st = (refl, refl, refl, refl)
purge_tab_devices-IsSameElsewhere tab (device ∷ devices) st =
    let st' = forget_tab tab device st in
    IsSameElsewhere-trans (purge_tab_devices tab devices st').0 st' st
      (purge_tab_devices-IsSameElsewhere tab devices st') (forget_tab-IsSameElsewhere tab device st)

contains-tab_tokens :
    (device tab : ℕ) (k : String) (st : State)
    → IsTable st.device_sessions
    → contains k (collect_device_sessions_for_tab device (some tab) st)
      ≡ holds (owned_by_tab tab) (session device k st)
unfolding collect_device_sessions_for_tab
contains-tab_tokens device tab k st h = contains-collect_sessions (owned_by_tab tab) device k st h

same_session :
    (d : ℕ) (k : String) (st st' : State)
    → st'.device_sessions ≡ st.device_sessions
    → session d k st' ≡ session d k st
same_session d k st st' e = ap (get_in d k) e

asks-purge_tab_devices :
    (tab d : ℕ) (k : String) (devices : List ℕ) (st : State)
    → IsTable st.device_sessions
    → asks d k (purge_tab_devices tab devices st).1
      ≡ (contains d devices && holds (owned_by_tab tab) (session d k st))
unfolding purge_tab_devices contains
asks-purge_tab_devices tab d k [] st h = unfold asks in refl
asks-purge_tab_devices tab d k (device ∷ devices) st h =
    let st' = forget_tab tab device st in
    let same = (forget_tab-IsSameElsewhere tab device st).0 in
    let tokens = collect_device_sessions_for_tab device (some tab) st in
    let h' : IsTable st'.device_sessions = rw same h in
    ground (
      arith,
      asks-append d k (start_all device tokens st) (purge_tab_devices tab devices st').1,
      asks-start_all d device k tokens st,
      contains-tab_tokens device tab k st h,
      asks-purge_tab_devices tab d k devices st' h',
      same_session d k st st' same,
    )

module _ (tab d : ℕ) (st : State) (sessions : IsTable st.device_sessions)
    (tabs : IsTable st.device_tabs) where
  opens-purge_tab :
      (t : ℕ) → opens d t (purge_tab (some tab) st).0 ≡ (if tab == t then 0 else opens d t st)
  unfolding purge_tab opens
  opens-purge_tab t = elim (Bool-cases (contains d (device_ids st))) [
    | inl visited ↦ ground (arith, opens-purge_tab_devices tab d t (device_ids st) st)
    | inr missed ↦ ground (
      arith,
      opens-purge_tab_devices tab d t (device_ids st) st,
      missed_opens d st sessions tabs missed t,
    )
  ]

  asks-purge_tab :
      (k : String)
      → asks d k (purge_tab (some tab) st).1 ≡ holds (owned_by_tab tab) (session d k st)
  unfolding purge_tab
  asks-purge_tab k = elim (Bool-cases (contains d (device_ids st))) [
    | inl visited ↦ ground (arith, asks-purge_tab_devices tab d k (device_ids st) st sessions)
    | inr missed ↦ ground (
      arith,
      asks-purge_tab_devices tab d k (device_ids st) st sessions,
      missed_session d st sessions tabs missed k,
    )
  ]

-- After the purge of a tab: no device is open in the tab, and the opens of other tabs are as before;
-- the closes that it asks of the daemon are for exactly the sessions that the tab owned; the records of
-- the sessions stay until those closes are settled; and the tab has no document, while those of other
-- tabs are as before.
pub purge_tab_effect :
    (tab d t : ℕ) (k : String) (st : State)
    → IsTable st.device_sessions
    → IsTable st.device_tabs
    → (let r = purge_tab (some tab) st in
        (opens d t r.0 ≡ (if tab == t then 0 else opens d t st))
        × (asks d k r.1 ≡ holds (owned_by_tab tab) (session d k st))
        × (session d k r.0 ≡ session d k st)
        × (get t r.0.frame_lifetimes ≡ (if tab == t then none else get t st.frame_lifetimes)))
unfolding purge_tab
purge_tab_effect tab d t k st sessions tabs =
    let (s, _, f, _) = purge_tab_devices-IsSameElsewhere tab (device_ids st) st in
    (
      opens-purge_tab tab d st sessions tabs t,
      asks-purge_tab tab d st sessions tabs k,
      same_session d k st (purge_tab_devices tab (device_ids st) st).0 s,
      rw f (get-del tab t st.frame_lifetimes),
    )
