-- ===== src/Ownership/Opens.antt =====
-- The opens that tabs hold on devices (registerDeviceTab, unregisterDeviceTab, clearDeviceTab,
-- isTabAuthorizedForDevice and tabsForEvent of addon/js/background/state_ops.js).
pub mod Counts
pub mod Shape
use ff_web_hid.Prelude.{
  ℕ, suc, zero, ◌+◌, ◌-◌, String, List, [], ◌∷◌, Option, none, some, Bool, true, false, not, ◌&&◌,
  ltb, ◌==◌, nat_eq, if◌then◌else◌,
}
use ff_web_hid.Prelude.Maps.{Map, get, put, del, keys_where}
use ff_web_hid.Ownership.State.{State, put_in, get_in, inner, drop_empty}

-- `map.get(k) || 0`
abbrev pub or_zero : Option ℕ → ℕ
or_zero none = 0
or_zero (some n) = n

unfoldable pub register_device_tab : ℕ → Option ℕ → State → State
register_device_tab device none st = st
register_device_tab device (some tab) st = if device == 0 then st else record st {
  device_tabs = put_in device tab (or_zero (get_in device tab st.device_tabs) + 1) st.device_tabs;
}

-- The branch where the device has a map of tabs. `remaining` is the count less 1, which is not
-- positive for a tab that is not there.
unregister_known : ℕ → ℕ → Map ℕ ℕ → Map ℕ (Map ℕ ℕ) → Map ℕ (Map ℕ ℕ)
unregister_known device tab tabs t =
    let remaining = or_zero (get tab tabs) - 1 in
    if ltb 0 remaining
    then put device (put tab remaining tabs) t
    else drop_empty device (del tab tabs) t

unfoldable pub unregister_device_tab : ℕ → Option ℕ → State → State
unfolding unregister_known
unregister_device_tab device none st = st
unregister_device_tab device (some tab) st =
    if device == 0 then st else elim (get device st.device_tabs) [
      | none ↦ st
      | some tabs ↦ record st { device_tabs = unregister_known device tab tabs st.device_tabs }
    ]

unfoldable pub clear_device_tab : ℕ → Option ℕ → State → State
clear_device_tab device none st = st
clear_device_tab device (some tab) st =
    if device == 0 then st else elim (get device st.device_tabs) [
      | none ↦ st
      | some tabs ↦ record st { device_tabs = drop_empty device (del tab tabs) st.device_tabs }
    ]

unfoldable pub is_tab_authorized_for_device : Option ℕ → ℕ → State → Bool
is_tab_authorized_for_device none device st = false
is_tab_authorized_for_device (some tab) device st =
    ltb 0 (or_zero (get_in device tab st.device_tabs))

-- `tabs && tabs.size > 0 ? [...tabs.keys()] : null`
tabs_of : Map ℕ ℕ → Option (List ℕ)
tabs_of [] = none
tabs_of (entry ∷ tabs) = some (keys_where (λ _ _. true) (entry ∷ tabs))

unfoldable pub tabs_for_event : ℕ → State → Option (List ℕ)
unfolding tabs_of
tabs_for_event device st = if device == 0 then none else tabs_of (inner device st.device_tabs)
