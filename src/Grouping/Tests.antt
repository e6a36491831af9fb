-- ===== src/Grouping/Tests.antt =====
-- Three devices, two of one name.
use ff_web_hid.Prelude.{List, [], ◌∷◌, string_eq, none, some, false, ◌≡◌, refl}
use ff_web_hid.Prelude.Maps.{get}
use ff_web_hid.Grouping.{
  NamedDevice, is_valid_filter, group_devices, or_no_devices, named, get-group_devices,
}

abbrev shelf : List NamedDevice
shelf =
    record { device_id = 1; product_name = "pad" }
    ∷ record { device_id = 2; product_name = "" }
    ∷ record { device_id = 3; product_name = "pad" }
    ∷ []

-- A product without its vendor makes no valid filter.
is_valid_filter-product :
    is_valid_filter
      (record { vendor_id = none; product_id = some 5; usage_page = none; usage = none })
    ≡ false
unfolding is_valid_filter
is_valid_filter-product = refl

get-group_devices_example : or_no_devices (get "pad" (group_devices shelf)) ≡ named "pad" shelf
get-group_devices_example = get-group_devices "pad" shelf
