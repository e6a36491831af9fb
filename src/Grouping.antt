-- ===== src/Grouping.antt =====
-- addon/js/utils/device-filters.js: the groups in which devices are shown, and which filters are valid.
mod Tests
use Prim.Native.String.{◌++◌ as concat}
use ff_web_hid.Prelude.{
  append_nil, append_one_more, ℕ, String, List, [], ◌∷◌, ◌++◌, Option, none, some, Bool, true,
  false, not, ◌&&◌, ◌||◌, ◌==◌, nat_eq, string_eq, if◌then◌else◌, ◌≡◌, refl, arith, sym, ap,
}
use ff_web_hid.Prelude.Maps.{Map, get, put, get-put}
use ff_web_hid.Prelude.Texts.{or_else, decimal}

pub record NamedDevice : Type 0 where
  pub device_id : ℕ
  pub product_name : String

-- A filter with the fields that it has.
pub record DeviceFilter : Type 0 where
  pub vendor_id : Option ℕ
  pub product_id : Option ℕ
  pub usage_page : Option ℕ
  pub usage : Option ℕ

-- `'field' in filter`
has_field : Option ℕ → Bool
has_field none = false
has_field (some n) = true

unfoldable pub is_valid_filter : DeviceFilter → Bool
unfolding has_field
is_valid_filter f =
    (has_field f.vendor_id || has_field f.product_id || has_field f.usage_page || has_field f.usage)
    && not (has_field f.product_id && not (has_field f.vendor_id))
    && not (has_field f.usage && not (has_field f.usage_page))

-- `device.productName || NativeString(device.deviceId)`
unfoldable pub name_of : NamedDevice → String
name_of d = or_else d.product_name (decimal d.device_id)

unfoldable pub or_no_devices : Option (List NamedDevice) → List NamedDevice
or_no_devices none = []
or_no_devices (some devices) = devices

unfoldable pub add_to_groups :
    List NamedDevice → Map String (List NamedDevice) → Map String (List NamedDevice)
unfolding or_no_devices
add_to_groups [] groups = groups
add_to_groups (d ∷ devices) groups =
    add_to_groups devices
      (put (name_of d) (or_no_devices (get (name_of d) groups) ++ (d ∷ [])) groups)

unfoldable pub group_devices : List NamedDevice → Map String (List NamedDevice)
unfolding add_to_groups
group_devices devices = add_to_groups devices []

-- groupIdFor of a group, which has a first device.
unfoldable pub group_id_for : NamedDevice → List NamedDevice → String
group_id_for d [] = decimal d.device_id
group_id_for d (e ∷ more) = concat "group:" (decimal d.device_id)

unfoldable pub named : String → List NamedDevice → List NamedDevice
named name [] = []
named name (d ∷ devices) = if name_of d == name then d ∷ named name devices else named name devices

get-add_to_groups :
    (name : String) (devices : List NamedDevice) (groups : Map String (List NamedDevice))
    → or_no_devices (get name (add_to_groups devices groups))
      ≡ or_no_devices (get name groups) ++ named name devices
unfolding add_to_groups named or_no_devices
get-add_to_groups name [] groups = sym (append_nil (or_no_devices (get name groups)))
get-add_to_groups name (d ∷ devices) groups =
    let more = or_no_devices (get (name_of d) groups) ++ (d ∷ []) in
    ground (
      arith,
      string_eq.beq_iff (name_of d) name,
      get-add_to_groups name devices (put (name_of d) more groups),
      get-put (name_of d) name more groups,
      append_one_more (or_no_devices (get name groups)) d (named name devices),
    )

-- The group of a name has exactly the devices of that name, in the order of the list: no device is lost,
-- shown twice or shown under another name.
pub get-group_devices :
    (name : String) (devices : List NamedDevice)
    → or_no_devices (get name (group_devices devices)) ≡ named name devices
unfolding group_devices or_no_devices get
get-group_devices name devices = get-add_to_groups name devices []
