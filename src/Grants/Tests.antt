-- ===== src/Grants/Tests.antt =====
-- Grants in stores that are lists.
use ff_web_hid.Prelude.{ℕ, String, [], ◌∷◌, true, false, nat_eq, string_eq, ◌≡◌}
use ff_web_hid.Prelude.Maps.{Map, contains, get}
use ff_web_hid.Native.Devices.{Device}
use ff_web_hid.Grants.Stores.{ObjectStore, list_store, pair_eq}
use ff_web_hid.Grants.Allowed.{
  get_allowed_devices, add_allowed_device, remove_allowed_device, get_all_allowed_by_origin,
  or_empty, get_allowed_devices-add_allowed_device, get_allowed_devices-remove_allowed_device,
  get_all_allowed_by_origin-get_allowed_devices,
}
use ff_web_hid.Grants.Revoke.{
  GrantGroup, target_ids, is_granted_with, get_grant_groups_for_origin, groups_of, has_target,
  revoke_grants, revoke_grants_effect,
}

abbrev origins : ObjectStore (String × ℕ) ℕ
origins = list_store

abbrev infos : ObjectStore ℕ Device
infos = list_store

abbrev groups : ObjectStore ℕ GrantGroup
groups = list_store

abbrev rows : Map (String × ℕ) ℕ
rows = (("https://a.test", 9), 0) ∷ (("https://a.test", 10), 0) ∷ (("https://b.test", 9), 0) ∷ []

abbrev pair_of_devices : Map ℕ GrantGroup
pair_of_devices = (1, record { origin = "https://a.test"; device_ids = 9 ∷ 10 ∷ [] }) ∷ []

abbrev pad : Device
pad = record { device_id = 9; description = "pad" }

get_allowed_devices-add_allowed_device_example :
    contains 7 (
      get_allowed_devices origins "https://b.test"
        (add_allowed_device origins 0 true "https://b.test" 7 rows).0)
    ≡ true
get_allowed_devices-add_allowed_device_example =
    get_allowed_devices-add_allowed_device origins 0 true "https://b.test" "https://b.test" 7 7 rows

get_allowed_devices-remove_allowed_device_example :
    contains 9 (
      get_allowed_devices origins "https://b.test"
        (remove_allowed_device origins true "https://b.test" 9 rows).0)
    ≡ false
get_allowed_devices-remove_allowed_device_example =
    get_allowed_devices-remove_allowed_device origins true "https://b.test" "https://b.test" 9 9
      rows

get_all_allowed_by_origin-get_allowed_devices_example :
    or_empty (get "https://a.test" (get_all_allowed_by_origin origins true rows))
    ≡ get_allowed_devices origins "https://a.test" rows
get_all_allowed_by_origin-get_allowed_devices_example =
    get_all_allowed_by_origin-get_allowed_devices origins "https://a.test" rows

-- Device 10 was granted together with device 9, so revoking 9 revokes it too.
revoke_grants_effect_example :
    contains 10 (
      get_allowed_devices origins "https://a.test"
        (revoke_grants groups origins "https://a.test" [] 9 pair_of_devices rows).0)
    ≡ false
unfolding contains target_ids is_granted_with get_grant_groups_for_origin groups_of has_target
revoke_grants_effect_example =
    revoke_grants_effect groups origins "https://a.test" "https://a.test" [] 9 10 pair_of_devices
      rows
