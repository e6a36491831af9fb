-- ===== src/Ownership/Purge/Captures.antt =====
-- Every close that a purge or a retry starts has captured the owner of its session.
use ff_web_hid.Prelude.{
  ℕ, String, List, [], ◌∷◌, Option, none, some, ◌≡◌, refl, ◌==◌, nat_eq, string_eq, Bool-cases, inl,
  inr, All, All-append, ◌∙◌, subst,
}
use ff_web_hid.Prelude.Maps.{Map}
use ff_web_hid.Ownership.State.{State, Owner, Orphan, get_in}
use ff_web_hid.Ownership.Lifetimes.{retire_frame_lifetime}
use ff_web_hid.Ownership.Sessions.{
  collect_device_sessions_for_tab, collect_device_sessions_for_frame, collect_sessions,
  owned_by_bridge,
}
use ff_web_hid.Ownership.Cleanup.{Closing, start_close, start_orphans, retry_orphan_cleanup}
use ff_web_hid.Ownership.Purge.{
  device_ids, start_all, forget_tab, sweep_device, unregister_each, purge_tab_devices,
  purge_devices, retire_bridge, purge_tab, purge_frame, purge_bridge,
}
use ff_web_hid.Ownership.Purge.Tab.{forget_tab-IsSameElsewhere}
use ff_web_hid.Ownership.Purge.Loop.{unregister_each-IsSameElsewhere, sweep_device-IsSameElsewhere}
use ff_web_hid.Ownership.Purge.Same.{
  retire_frame_lifetime-KeepsSessions, retire_bridge-KeepsSessions,
}

abbrev pub Captures : Map ℕ (Map String Owner) → List Closing → Type 0
Captures table closings = All (λ c. c.owner_at_start ≡ get_in c.device_id c.token table) closings

start_all-Captures :
    (device : ℕ) (tokens : List String) (st : State)
    → Captures st.device_sessions (start_all device tokens st)
unfolding start_all start_close
start_all-Captures device [] st = tt
start_all-Captures device (token ∷ tokens) st = (refl, start_all-Captures device tokens st)

purge_tab_devices-Captures :
    (tab : ℕ) (devices : List ℕ) (st : State)
    → Captures st.device_sessions (purge_tab_devices tab devices st).1
unfolding purge_tab_devices
purge_tab_devices-Captures tab [] st = tt
purge_tab_devices-Captures tab (device ∷ devices) st =
    let st' = forget_tab tab device st in
    let later : Captures st'.device_sessions (purge_tab_devices tab devices st').1 =
      purge_tab_devices-Captures tab devices st' in
    All-append _ (start_all device (collect_device_sessions_for_tab device (some tab) st) st)
      (purge_tab_devices tab devices st').1
      (start_all-Captures device (collect_device_sessions_for_tab device (some tab) st) st)
      (subst (λ table. Captures table (purge_tab_devices tab devices st').1)
        (forget_tab-IsSameElsewhere tab device st).0 later)

pub purge_tab-Captures :
    (tab : Option ℕ) (st : State) → Captures st.device_sessions (purge_tab tab st).1
unfolding purge_tab
purge_tab-Captures none st = tt
purge_tab-Captures (some tab) st = purge_tab_devices-Captures tab (device_ids st) st

purge_devices-Captures :
    (tab : ℕ) (tokens_of : ℕ → State → List String) (devices : List ℕ) (st : State)
    → Captures st.device_sessions (purge_devices tab tokens_of devices st).1
unfolding purge_devices
purge_devices-Captures tab tokens_of [] st = tt
purge_devices-Captures tab tokens_of (device ∷ devices) st =
    let tokens = tokens_of device st in
    let st1 = unregister_each tab device tokens st in
    let st' = sweep_device device st1 in
    let later : Captures st'.device_sessions (purge_devices tab tokens_of devices st').1 =
      purge_devices-Captures tab tokens_of devices st' in
    All-append _ (start_all device tokens st) (purge_devices tab tokens_of devices st').1
      (start_all-Captures device tokens st)
      (subst (λ table. Captures table (purge_devices tab tokens_of devices st').1)
        ((sweep_device-IsSameElsewhere device st1).0
          ∙ (unregister_each-IsSameElsewhere tab device tokens st).0)
        later)

pub purge_frame-Captures :
    (tab : Option ℕ) (frame : String) (st : State)
    → Captures st.device_sessions (purge_frame tab frame st).1
unfolding purge_frame
purge_frame-Captures none frame st = tt
purge_frame-Captures (some tab) frame st = elim (Bool-cases (frame == "")) [
  | inl blank ↦ rw blank tt
  | inr named ↦
      let st' = retire_frame_lifetime (some tab) frame st in
      rw named (
        subst
          (λ table.
            Captures table
              (purge_devices tab
                (λ device s. collect_device_sessions_for_frame device (some tab) frame s)
                (device_ids st') st').1)
          (retire_frame_lifetime-KeepsSessions (some tab) frame st).0
          (purge_devices-Captures tab
            (λ device s. collect_device_sessions_for_frame device (some tab) frame s)
            (device_ids st') st'))
]

pub purge_bridge-Captures :
    (tab : Option ℕ) (bridge : String) (st : State)
    → Captures st.device_sessions (purge_bridge tab bridge st).1
unfolding purge_bridge
purge_bridge-Captures none bridge st = tt
purge_bridge-Captures (some tab) bridge st = elim (Bool-cases (bridge == "")) [
  | inl blank ↦ rw blank tt
  | inr named ↦
      let st' = retire_bridge tab bridge st in
      rw named (
        subst
          (λ table.
            Captures table
              (purge_devices tab (collect_sessions (owned_by_bridge tab bridge)) (device_ids st')
                st').1)
          (retire_bridge-KeepsSessions tab bridge st).0
          (purge_devices-Captures tab (collect_sessions (owned_by_bridge tab bridge))
            (device_ids st') st'))
]

start_orphans-Captures :
    (m : Map String Orphan) (st : State) → Captures st.device_sessions (start_orphans m st)
unfolding start_orphans start_close
start_orphans-Captures [] st = tt
start_orphans-Captures ((token, entry) ∷ m) st = (refl, start_orphans-Captures m st)

pub retry_orphan_cleanup-Captures :
    (st : State) → Captures st.device_sessions (retry_orphan_cleanup st).1
unfolding retry_orphan_cleanup
retry_orphan_cleanup-Captures st = start_orphans-Captures st.orphan_cleanup st
