-- ===== src/Ownership/Purge/Shape.antt =====
-- Purges keep the shape of the table of opens.
use ff_web_hid.Prelude.{
  ℕ, String, List, [], ◌∷◌, Option, none, some, ◌==◌, nat_eq, string_eq, ◌≡◌, arith, Option-cases,
  Bool-cases, inl, inr,
}
use ff_web_hid.Prelude.Maps.{get, del, get-del, del-HasDistinctKeys}
use ff_web_hid.Ownership.State.{State}
use ff_web_hid.Ownership.Lifetimes.{retire_frame_lifetime}
use ff_web_hid.Ownership.Opens.{unregister_device_tab}
use ff_web_hid.Ownership.Opens.Shape.{
  IsCounter, inner_positive, drop_empty-IsCounter, unregister_device_tab-IsCounter,
}
use ff_web_hid.Ownership.Sessions.{
  collect_device_sessions_for_frame, collect_sessions, owned_by_bridge,
}
use ff_web_hid.Ownership.Purge.{
  device_ids, forget_tab, sweep_device, unregister_each, purge_tab_devices, purge_devices,
  retire_bridge, purge_tab, purge_frame, purge_bridge,
}
use ff_web_hid.Ownership.Purge.Bridge.{retire_bridge-tables}

forget_tab-IsCounter :
    (tab device : ℕ) (st : State)
    → IsCounter st.device_tabs
    → IsCounter (forget_tab tab device st).device_tabs
unfolding forget_tab
forget_tab-IsCounter tab device st h = elim (Option-cases (get device st.device_tabs)) [
  | inl absent ↦ rw (absent, forget_tab) h
  | inr (tabs, present) ↦
      let (distinct, pos) = inner_positive device tabs st.device_tabs present h in
      rw (present, forget_tab)
        (drop_empty-IsCounter device (del tab tabs) st.device_tabs
          (del-HasDistinctKeys tab tabs distinct) (λ k e. ground (arith, get-del tab k tabs, pos k))
          h)
]

sweep_device-IsCounter :
    (device : ℕ) (st : State)
    → IsCounter st.device_tabs
    → IsCounter (sweep_device device st).device_tabs
unfolding sweep_device
sweep_device-IsCounter device st h = elim (Option-cases (get device st.device_tabs)) [
  | inl absent ↦ rw (absent, sweep_device) h
  | inr (tabs, present) ↦
      let (distinct, pos) = inner_positive device tabs st.device_tabs present h in
      rw (present, sweep_device) (drop_empty-IsCounter device tabs st.device_tabs distinct pos h)
]

unregister_each-IsCounter :
    (tab device : ℕ) (tokens : List String) (st : State)
    → IsCounter st.device_tabs
    → IsCounter (unregister_each tab device tokens st).device_tabs
unfolding unregister_each
unregister_each-IsCounter tab device [] st h = h
unregister_each-IsCounter tab device (_ ∷ tokens) st h =
    unregister_each-IsCounter tab device tokens (unregister_device_tab device (some tab) st)
      (unregister_device_tab-IsCounter device (some tab) st h)

purge_tab_devices-IsCounter :
    (tab : ℕ) (devices : List ℕ) (st : State)
    → IsCounter st.device_tabs
    → IsCounter (purge_tab_devices tab devices st).0.device_tabs
unfolding purge_tab_devices
purge_tab_devices-IsCounter tab [] st h = h
purge_tab_devices-IsCounter tab (device ∷ devices) st h =
    purge_tab_devices-IsCounter tab devices (forget_tab tab device st)
      (forget_tab-IsCounter tab device st h)

purge_devices-IsCounter :
    (tab : ℕ) (tokens_of : ℕ → State → List String) (devices : List ℕ) (st : State)
    → IsCounter st.device_tabs
    → IsCounter (purge_devices tab tokens_of devices st).0.device_tabs
unfolding purge_devices
purge_devices-IsCounter tab tokens_of [] st h = h
purge_devices-IsCounter tab tokens_of (device ∷ devices) st h =
    let st' = unregister_each tab device (tokens_of device st) st in
    purge_devices-IsCounter tab tokens_of devices (sweep_device device st') (
      sweep_device-IsCounter device st'
        (unregister_each-IsCounter tab device (tokens_of device st) st h))

pub purge_tab-IsCounter :
    (tab : Option ℕ) (st : State)
    → IsCounter st.device_tabs
    → IsCounter (purge_tab tab st).0.device_tabs
unfolding purge_tab
purge_tab-IsCounter none st h = h
purge_tab-IsCounter (some tab) st h = purge_tab_devices-IsCounter tab (device_ids st) st h

retire-tabs :
    (tab : ℕ) (frame : String) (st : State)
    → (retire_frame_lifetime (some tab) frame st).device_tabs ≡ st.device_tabs
unfolding retire_frame_lifetime
retire-tabs tab frame st = ground arith

pub purge_frame-IsCounter :
    (tab : Option ℕ) (frame : String) (st : State)
    → IsCounter st.device_tabs
    → IsCounter (purge_frame tab frame st).0.device_tabs
unfolding purge_frame
purge_frame-IsCounter none frame st h = h
purge_frame-IsCounter (some tab) frame st h =
    let st' = retire_frame_lifetime (some tab) frame st in
    elim (Bool-cases (frame == "")) [
      | inl blank ↦ rw blank h
      | inr named ↦ rw named (
          purge_devices-IsCounter tab
            (λ device s. collect_device_sessions_for_frame device (some tab) frame s)
            (device_ids st') st' (rw (retire-tabs tab frame st) h))
    ]

pub purge_bridge-IsCounter :
    (tab : Option ℕ) (bridge : String) (st : State)
    → IsCounter st.device_tabs
    → IsCounter (purge_bridge tab bridge st).0.device_tabs
unfolding purge_bridge
purge_bridge-IsCounter none bridge st h = h
purge_bridge-IsCounter (some tab) bridge st h =
    let st' = retire_bridge tab bridge st in
    elim (Bool-cases (bridge == "")) [
      | inl blank ↦ rw blank h
      | inr named ↦ rw named (
          purge_devices-IsCounter tab (collect_sessions (owned_by_bridge tab bridge))
            (device_ids st') st' (rw (retire_bridge-tables tab bridge st).1 h))
    ]
