-- ===== src/Ownership/Opens/Counts.antt =====
-- The nested maps are a counter of opens by device and tab.
use ff_web_hid.Prelude.{
  ℕ, ◌+◌, ◌-◌, ◌<◌, [], some, true, ◌&&◌, ◌==◌, nat_eq, if◌then◌else◌, ◌≡◌, refl, arith, ◌≢◌, ◌↔◌,
  Option-cases, inl, inr,
}
use ff_web_hid.Prelude.Maps.{Map, get, put, del, get-put, get-del}
use ff_web_hid.Ownership.State.{State, get_in, inner}
use ff_web_hid.Ownership.State.Tables.{
  get_in-put_in, inner-put, inner-drop_empty, inner_of_get, inner_of_none,
}
use ff_web_hid.Ownership.Opens.{
  or_zero, register_device_tab, unregister_device_tab, unregister_known, clear_device_tab,
  is_tab_authorized_for_device,
}

-- The opens that a tab holds on a device.
unfoldable pub opens : ℕ → ℕ → State → ℕ
opens device tab st = or_zero (get_in device tab st.device_tabs)

-- Registering counts one open more for that device and tab, and changes no other count.
pub opens-register_device_tab :
    (device tab d t : ℕ) (st : State)
    → device ≢ 0
    → opens d t (register_device_tab device (some tab) st)
      ≡ (if device == d && tab == t then opens d t st + 1 else opens d t st)
unfolding opens register_device_tab
opens-register_device_tab device tab d t st h = ground (
  arith,
  get_in-put_in device d tab t (or_zero (get_in device tab st.device_tabs) + 1) st.device_tabs,
)

pub count-nil : (t : ℕ) → or_zero (get {V = ℕ} t []) ≡ 0
unfolding get
count-nil t = refl

get-unregister_known :
    (device tab d t : ℕ) (tabs : Map ℕ ℕ) (table : Map ℕ (Map ℕ ℕ))
    → inner device table ≡ tabs
    → or_zero (get t (inner d (unregister_known device tab tabs table))) ≡ (
        if device == d && tab == t
        then or_zero (get t (inner d table)) - 1
        else or_zero (get t (inner d table)))
unfolding unregister_known
get-unregister_known device tab d t tabs table e =
    let remaining = or_zero (get tab tabs) - 1 in
    ground (
      arith,
      inner-put device d (put tab remaining tabs) table,
      inner-drop_empty device d (del tab tabs) table,
      get-put tab t remaining tabs,
      get-del tab t tabs,
    )

-- Unregistering counts one open less for that device and tab, none if there was none, and changes no
-- other count.
pub opens-unregister_device_tab :
    (device tab d t : ℕ) (st : State)
    → device ≢ 0
    → opens d t (unregister_device_tab device (some tab) st)
      ≡ (if device == d && tab == t then opens d t st - 1 else opens d t st)
unfolding opens unregister_device_tab get_in
opens-unregister_device_tab device tab d t st h = elim (Option-cases (get device st.device_tabs)) [
  | inl absent ↦ ground (arith, absent, inner_of_none device st.device_tabs absent, count-nil t)
  | inr (tabs, present) ↦
      let e = inner_of_get device tabs st.device_tabs present in
      ground (arith, present, get-unregister_known device tab d t tabs st.device_tabs e)
]

-- Clearing a tab's opens of a device leaves it none, and changes no other count.
pub opens-clear_device_tab :
    (device tab d t : ℕ) (st : State)
    → device ≢ 0
    → opens d t (clear_device_tab device (some tab) st)
      ≡ (if device == d && tab == t then 0 else opens d t st)
unfolding opens clear_device_tab get_in
opens-clear_device_tab device tab d t st h = elim (Option-cases (get device st.device_tabs)) [
  | inl absent ↦ ground (arith, absent, inner_of_none device st.device_tabs absent, count-nil t)
  | inr (tabs, present) ↦ ground (
    arith,
    present,
    inner_of_get device tabs st.device_tabs present,
    inner-drop_empty device d (del tab tabs) st.device_tabs,
    get-del tab t tabs,
  )
]

-- A tab is authorised for a device exactly while it holds an open of it.
pub is_tab_authorized_iff :
    (device tab : ℕ) (st : State)
    → (is_tab_authorized_for_device (some tab) device st ≡ true) ↔ (0 < opens device tab st)
unfolding is_tab_authorized_for_device opens
is_tab_authorized_iff device tab st = ground arith
