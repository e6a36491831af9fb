-- ===== src/Ownership/Purge/Loop.antt =====
-- The loop over the devices that purgeFrame and purgeBridge share: sessions that pass a test are closed
-- in the daemon, and the tab loses one open for each of them.
use ff_web_hid.Prelude.{
  ℕ, ◌-◌, String, List, [], ◌∷◌, some, Bool, ◌&&◌, ◌==◌, nat_eq, string_eq, if◌then◌else◌, ◌≡◌, ◌≢◌,
  refl, arith, Option-cases, inl, inr, Bool-cases, ap, ◌∙◌, sym, length,
}
use ff_web_hid.Prelude.Maps.{get, contains, holds, keys_where}
use ff_web_hid.Ownership.State.{State, Owner, get_in, inner}
use ff_web_hid.Ownership.State.Tables.{IsTable, inner_of_get, inner-drop_empty}
use ff_web_hid.Ownership.Opens.{unregister_device_tab}
use ff_web_hid.Ownership.Sessions.{collect_sessions}
use ff_web_hid.Ownership.Sessions.Lookup.{session}
use ff_web_hid.Ownership.Sessions.Owners.{contains-collect_sessions}
use ff_web_hid.Ownership.Opens.Counts.{opens, opens-unregister_device_tab}
use ff_web_hid.Ownership.Purge.{device_ids, start_all, sweep_device, unregister_each, purge_devices}
use ff_web_hid.Ownership.Purge.Devices.{
  IsSameElsewhere, IsSameElsewhere-trans, missed_session, missed_opens, asks, asks-append,
  asks-start_all, IsDistinct, device_ids-IsDistinct,
}

pub unregister_device_tab-IsSameElsewhere :
    (device tab : ℕ) (st : State) → IsSameElsewhere (unregister_device_tab device (some tab) st) st
unfolding unregister_device_tab
unregister_device_tab-IsSameElsewhere device tab st =
    (ground arith, ground arith, ground arith, ground arith)

pub unregister_each-IsSameElsewhere :
    (tab device : ℕ) (tokens : List String) (st : State)
    → IsSameElsewhere (unregister_each tab device tokens st) st
unfolding unregister_each
unregister_each-IsSameElsewhere tab device [] st = (refl, refl, refl, refl)
unregister_each-IsSameElsewhere tab device (_ ∷ tokens) st =
    let st' = unregister_device_tab device (some tab) st in
    IsSameElsewhere-trans (unregister_each tab device tokens st') st' st
      (unregister_each-IsSameElsewhere tab device tokens st')
      (unregister_device_tab-IsSameElsewhere device tab st)

pub sweep_device-IsSameElsewhere :
    (device : ℕ) (st : State) → IsSameElsewhere (sweep_device device st) st
unfolding sweep_device
sweep_device-IsSameElsewhere device st = (ground arith, ground arith, ground arith, ground arith)

opens-sweep_device :
    (device d t : ℕ) (st : State) → opens d t (sweep_device device st) ≡ opens d t st
unfolding opens sweep_device get_in
opens-sweep_device device d t st = elim (Option-cases (get device st.device_tabs)) [
  | inl absent ↦ ground (arith, absent)
  | inr (tabs, present) ↦ ground (
    arith,
    present,
    inner_of_get device tabs st.device_tabs present,
    inner-drop_empty device d tabs st.device_tabs,
  )
]

unregister_zero : (tab : ℕ) (st : State) → unregister_device_tab 0 (some tab) st ≡ st
unfolding unregister_device_tab
unregister_zero tab st = refl

opens-unregister_any :
    (device tab d t : ℕ) (st : State)
    → d ≢ 0
    → opens d t (unregister_device_tab device (some tab) st)
      ≡ (if device == d && tab == t then opens d t st - 1 else opens d t st)
opens-unregister_any device tab d t st h = elim (Bool-cases (device == 0)) [
  | inl zeroth ↦ ground (arith, unregister_zero tab st)
  | inr other ↦ opens-unregister_device_tab device tab d t st (ground arith)
]

opens-unregister_each :
    (tab device d t : ℕ) (tokens : List String) (st : State)
    → d ≢ 0
    → opens d t (unregister_each tab device tokens st)
      ≡ (if device == d && tab == t then opens d t st - length tokens else opens d t st)
unfolding unregister_each
opens-unregister_each tab device d t [] st h = ground arith
opens-unregister_each tab device d t (_ ∷ tokens) st h = ground (
  arith,
  opens-unregister_any device tab d t st h,
  opens-unregister_each tab device d t tokens (unregister_device_tab device (some tab) st) h,
)

pub collect_sessions-same :
    (test : Owner → Bool) (d : ℕ) (st' st : State)
    → st'.device_sessions ≡ st.device_sessions
    → collect_sessions test d st' ≡ collect_sessions test d st
unfolding collect_sessions
collect_sessions-same test d st' st e = ap (λ t. keys_where (λ _ owner. test owner) (inner d t)) e

-- The loop over the devices, for tokens that are those of the sessions whose owner passes a test.
module _ (tab : ℕ) (test : Owner → Bool) (tokens_of : ℕ → State → List String)
    (by_test : (device : ℕ) (st : State)
      → tokens_of device st ≡ collect_sessions test device st) where
  after_device : ℕ → State → State
  after_device device st = sweep_device device (unregister_each tab device (tokens_of device st) st)

  after_device-IsSameElsewhere :
      (device : ℕ) (st : State) → IsSameElsewhere (after_device device st) st
  unfolding after_device
  after_device-IsSameElsewhere device st =
      let st' = unregister_each tab device (tokens_of device st) st in
      IsSameElsewhere-trans (sweep_device device st') st' st
        (sweep_device-IsSameElsewhere device st')
        (unregister_each-IsSameElsewhere tab device (tokens_of device st) st)

  tokens_after : (d device : ℕ) (st : State) → tokens_of d (after_device device st) ≡ tokens_of d st
  tokens_after d device st =
      by_test d (after_device device st)
      ∙ collect_sessions-same test d (after_device device st) st
          (after_device-IsSameElsewhere device st).0
      ∙ sym (by_test d st)

  pub purge_devices-IsSameElsewhere :
      (devices : List ℕ) (st : State)
      → IsSameElsewhere (purge_devices tab tokens_of devices st).0 st
  unfolding purge_devices after_device
  purge_devices-IsSameElsewhere [] st = (refl, refl, refl, refl)
  purge_devices-IsSameElsewhere (device ∷ devices) st =
      IsSameElsewhere-trans (purge_devices tab tokens_of devices (after_device device st)).0
        (after_device device st) st (purge_devices-IsSameElsewhere devices (after_device device st))
        (after_device-IsSameElsewhere device st)

  opens-purge_devices :
      (d t : ℕ) (devices : List ℕ) (st : State)
      → d ≢ 0
      → IsDistinct devices
      → opens d t (purge_devices tab tokens_of devices st).0 ≡ (
          if contains d devices && tab == t
          then opens d t st - length (tokens_of d st)
          else opens d t st)
  unfolding purge_devices contains after_device
  opens-purge_devices d t [] st h distinct = refl
  opens-purge_devices d t (device ∷ devices) st h (new, distinct) =
      let st' = unregister_each tab device (tokens_of device st) st in
      ground (
        arith,
        opens-purge_devices d t devices (after_device device st) h distinct,
        opens-sweep_device device d t st',
        opens-unregister_each tab device d t (tokens_of device st) st h,
        tokens_after d device st,
      )

  asks-purge_devices :
      (d : ℕ) (k : String) (devices : List ℕ) (st : State)
      → IsTable st.device_sessions
      → asks d k (purge_devices tab tokens_of devices st).1
        ≡ (contains d devices && holds test (session d k st))
  unfolding purge_devices contains after_device
  asks-purge_devices d k [] st h = unfold asks in refl
  asks-purge_devices d k (device ∷ devices) st h =
      let st' = after_device device st in
      let same = (after_device-IsSameElsewhere device st).0 in
      let h' : IsTable st'.device_sessions = rw same h in
      ground (
        arith,
        asks-append d k (start_all device (tokens_of device st) st)
            (purge_devices tab tokens_of devices st').1,
        asks-start_all d device k (tokens_of device st) st,
        ap (contains k) (by_test device st),
        contains-collect_sessions test device k st h,
        asks-purge_devices d k devices st' h',
        ap (get_in d k) same,
      )

  -- The loop over all devices of a state.
  module _ (d : ℕ) (st : State) (sessions : IsTable st.device_sessions)
      (tabs : IsTable st.device_tabs) where
    pub opens-purge_all :
        (t : ℕ)
        → d ≢ 0
        → opens d t (purge_devices tab tokens_of (device_ids st) st).0
          ≡ (if tab == t then opens d t st - length (tokens_of d st) else opens d t st)
    opens-purge_all t h = elim (Bool-cases (contains d (device_ids st))) [
      | inl visited ↦
          ground (arith, opens-purge_devices d t (device_ids st) st h (device_ids-IsDistinct st))
      | inr missed ↦ ground (
        arith,
        opens-purge_devices d t (device_ids st) st h (device_ids-IsDistinct st),
        missed_opens d st sessions tabs missed t,
      )
    ]

    pub asks-purge_all :
        (k : String)
        → asks d k (purge_devices tab tokens_of (device_ids st) st).1 ≡ holds test (session d k st)
    asks-purge_all k = elim (Bool-cases (contains d (device_ids st))) [
      | inl visited ↦ ground (arith, asks-purge_devices d k (device_ids st) st sessions)
      | inr missed ↦ ground (
        arith,
        asks-purge_devices d k (device_ids st) st sessions,
        missed_session d st sessions tabs missed k,
      )
    ]
