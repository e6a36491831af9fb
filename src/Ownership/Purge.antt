-- ===== src/Ownership/Purge.antt =====
-- What ends with a tab, a document, a bridge, the Native Messaging authority or a device (purgeTab,
-- purgeFrame, purgeBridge, clearAuthorityOwnership and clearDeviceOwnership of
-- addon/js/background/state_ops.js). Each purge gives the state and the closes that it starts.
pub mod Devices
pub mod Tab
pub mod Loop
pub mod Frame
pub mod Bridge
pub mod Same
pub mod Captures
pub mod Shape
use Prim.Native.String.{◌++◌ as concat}
use text.Mathlib.Text.{starts_with}
use ff_web_hid.Prelude.{
  ℕ, suc, zero, ◌+◌, String, List, [], ◌∷◌, ◌++◌, Option, none, some, Bool, true, false, map, ◌==◌,
  nat_eq, string_eq, if◌then◌else◌,
}
use ff_web_hid.Prelude.Maps.{Map, get, put, del, del_where, keys_where, contains}
use ff_web_hid.Prelude.Texts.{is_blank}
use ff_web_hid.Ownership.State.{State, Owner, Orphan, inner, drop_empty}
use ff_web_hid.Ownership.Lifetimes.{retire_frame_lifetime}
use ff_web_hid.Ownership.Opens.{unregister_device_tab}
use ff_web_hid.Ownership.Sessions.{
  collect_device_sessions_for_tab, collect_device_sessions_for_frame, collect_sessions,
  owned_by_bridge,
}
use ff_web_hid.Ownership.Cleanup.{Closing, start_close}

-- The keys that are not in the list yet, added at its end: `new Set([...keys, ...more])`.
add_keys : List ℕ → List ℕ → List ℕ
add_keys seen [] = seen
add_keys seen (k ∷ ks) = add_keys (if contains k seen then seen else seen ++ (k ∷ [])) ks

unfoldable pub device_ids : State → List ℕ
unfolding add_keys
device_ids st =
    add_keys (add_keys [] (keys_where (λ _ _. true) st.device_sessions))
      (keys_where (λ _ _. true) st.device_tabs)

-- `const tabs = deviceTabMap.get(deviceId); if (tabs && tabs.size === 0) deviceTabMap.delete(deviceId)`
pub sweep_device : ℕ → State → State
sweep_device device st = elim (get device st.device_tabs) [
  | none ↦ st
  | some tabs ↦ record st { device_tabs = drop_empty device tabs st.device_tabs }
]

-- `if (tabs) tabs.delete(tabId)`, and the device's entry dropped when no tab is left.
pub forget_tab : ℕ → ℕ → State → State
forget_tab tab device st = elim (get device st.device_tabs) [
  | none ↦ st
  | some tabs ↦ record st { device_tabs = drop_empty device (del tab tabs) st.device_tabs }
]

pub start_all : ℕ → List String → State → List Closing
start_all device tokens st = map (λ token. start_close device token st) tokens

-- The loop over the devices of purgeTab.
pub purge_tab_devices : ℕ → List ℕ → State → State × List Closing
unfolding forget_tab start_all
purge_tab_devices tab [] st = (st, [])
purge_tab_devices tab (device ∷ devices) st =
    let (st', later) = purge_tab_devices tab devices (forget_tab tab device st) in
    (st', start_all device (collect_device_sessions_for_tab device (some tab) st) st ++ later)

unfoldable pub purge_tab : Option ℕ → State → State × List Closing
unfolding purge_tab_devices
purge_tab none st = (st, [])
purge_tab (some tab) st =
    let (st', closings) = purge_tab_devices tab (device_ids st) st in
    (record st' { frame_lifetimes = del tab st'.frame_lifetimes }, closings)

-- `unregisterDeviceTab(deviceId, tabId)` once for each token.
pub unregister_each : ℕ → ℕ → List String → State → State
unregister_each tab device [] st = st
unregister_each tab device (_ ∷ tokens) st =
    unregister_each tab device tokens (unregister_device_tab device (some tab) st)

-- The loop over the devices of purgeFrame and purgeBridge: the sessions whose owner passes the test.
pub purge_devices : ℕ → (ℕ → State → List String) → List ℕ → State → State × List Closing
unfolding unregister_each sweep_device start_all
purge_devices tab tokens_of [] st = (st, [])
purge_devices tab tokens_of (device ∷ devices) st =
    let tokens = tokens_of device st in
    let (st', later) =
      purge_devices tab tokens_of devices
        (sweep_device device (unregister_each tab device tokens st)) in
    (st', start_all device tokens st ++ later)

unfoldable pub purge_frame : Option ℕ → String → State → State × List Closing
unfolding purge_devices
purge_frame none frame st = (st, [])
purge_frame (some tab) frame st =
    if is_blank frame
    then (st, [])
    else purge_devices tab (λ device s. collect_device_sessions_for_frame device (some tab) frame s)
        (device_ids (retire_frame_lifetime (some tab) frame st))
        (retire_frame_lifetime (some tab) frame st)

-- `for (const frameKey of frames.keys()) if (frameKey.startsWith(prefix)) frames.set(frameKey, 0)`
retire_prefix : String → Map String ℕ → Map String ℕ
retire_prefix prefix [] = []
retire_prefix prefix ((frame, generation) ∷ m) =
    (frame, if starts_with frame prefix then 0 else generation) ∷ retire_prefix prefix m

pub retire_bridge : ℕ → String → State → State
unfolding retire_prefix
retire_bridge tab bridge st = elim (get tab st.frame_lifetimes) [
  | none ↦ st
  | some frames ↦ record st {
    frame_lifetimes = put tab (retire_prefix (concat bridge "/") frames) st.frame_lifetimes;
  }
]

unfoldable pub purge_bridge : Option ℕ → String → State → State × List Closing
unfolding purge_devices retire_bridge
purge_bridge none bridge st = (st, [])
purge_bridge (some tab) bridge st =
    if is_blank bridge
    then (st, [])
    else purge_devices tab (collect_sessions (owned_by_bridge tab bridge))
        (device_ids (retire_bridge tab bridge st)) (retire_bridge tab bridge st)

unfoldable pub clear_authority_ownership : State → State
clear_authority_ownership st = record st {
  device_tabs = [];
  device_sessions = [];
  frame_lifetimes = [];
  orphan_cleanup = [];
}

unfoldable pub clear_device_ownership : ℕ → State → State
clear_device_ownership device st = record st {
  device_tabs = del device st.device_tabs;
  device_sessions = del device st.device_sessions;
  orphan_cleanup = del_where (λ _ entry. entry.device_id == device) st.orphan_cleanup;
}
