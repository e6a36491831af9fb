-- ===== src/Messages/Pairing.antt =====
-- handlePairDevice, handleUnpairDevice, handleGetPairedDevices, handleGetAllowedDevices and
-- handleEnumeratePaired of addon/js/background/messages.js, over the stores of Grants. Whether a
-- transaction completes is an argument.
use ff_web_hid.Prelude.{
  ℕ, String, List, [], ◌∷◌, Option, none, some, Bool, true, false, not, ◌&&◌, ◌||◌, ◌==◌, nat_eq,
  string_eq, if◌then◌else◌, ◌≡◌, ◌≢◌, refl, arith,
}
use ff_web_hid.Prelude.Maps.{contains}
use ff_web_hid.Native.Devices.{Device}
use ff_web_hid.Grants.Stores.{ObjectStore, pair_eq}
use ff_web_hid.Grants.Allowed.{
  get_allowed_devices, add_allowed_device, remove_allowed_device,
  get_allowed_devices-add_allowed_device, get_allowed_devices-remove_allowed_device,
}
use ff_web_hid.Messages.Opening.{is_ok}

-- `{ success, hashes }`
pub data PairReply : Type 0 where
  hashes : List ℕ → PairReply
  failed : PairReply

-- The answer to enumerateDevices; `devices` is none when it has no list.
pub record DeviceList : Type 0 where
  pub status : ℕ
  pub devices : Option (List Device)

-- `response.D.filter((d) => ids.includes(d.deviceId))`
unfoldable pub paired_of : List ℕ → List Device → List Device
paired_of granted [] = []
paired_of granted (d ∷ devices) =
    if contains d.device_id granted
    then d ∷ paired_of granted devices
    else paired_of granted devices

unfoldable pub has_device : ℕ → List Device → Bool
has_device id [] = false
has_device id (d ∷ devices) = d.device_id == id || has_device id devices

has_device-paired_of :
    (id : ℕ) (granted : List ℕ) (devices : List Device)
    → has_device id (paired_of granted devices) ≡ (has_device id devices && contains id granted)
unfolding has_device paired_of
has_device-paired_of id granted [] = refl
has_device-paired_of id granted (d ∷ devices) =
    ground (arith, has_device-paired_of id granted devices)

module _ {V : Type 0} (origins : ObjectStore (String × ℕ) V) where
  -- handleGetPairedDevices; handleGetAllowedDevices answers with the empty list where this one fails.
  unfoldable pub handle_get_paired_devices : Bool → String → origins.Rows → PairReply
  handle_get_paired_devices read origin rows =
      if read then hashes (get_allowed_devices origins origin rows) else failed

  unfoldable pub handle_get_allowed_devices : Bool → String → origins.Rows → List ℕ
  handle_get_allowed_devices read origin rows =
      if read then get_allowed_devices origins origin rows else []

  unfoldable pub handle_pair_device :
      V → Bool → Bool → String → ℕ → origins.Rows → origins.Rows × PairReply
  unfolding handle_get_paired_devices
  handle_pair_device row done read origin id rows =
      let (rows', added) = add_allowed_device origins row done origin id rows in
      (rows', if added then handle_get_paired_devices read origin rows' else failed)

  -- An id of 0 stands for a request without one.
  unfoldable pub handle_unpair_device :
      Bool → Bool → String → ℕ → origins.Rows → origins.Rows × PairReply
  unfolding handle_get_paired_devices
  handle_unpair_device done read origin id rows =
      if id == 0
      then (rows, handle_get_paired_devices read origin rows)
      else (let (rows', removed) = remove_allowed_device origins done origin id rows in
          (rows', if removed then handle_get_paired_devices read origin rows' else failed))

  -- The answer for the page: `{ s: 500 }` when the grants cannot be read.
  unfoldable pub handle_enumerate_paired : DeviceList → Bool → String → origins.Rows → DeviceList
  unfolding paired_of
  handle_enumerate_paired response read origin rows = elim response.devices [
    | none ↦ response
    | some devices ↦
        if not (is_ok response.status)
        then response
        else if read
        then record {
          status = response.status;
          devices = some (paired_of (get_allowed_devices origins origin rows) devices);
        }
        else record { status = 500; devices = none }
  ]

  -- The devices of an answer; none of them when it has no list.
  unfoldable pub lists : ℕ → DeviceList → Bool
  lists id answer = elim answer.devices [ none ↦ false | some devices ↦ has_device id devices ]

  -- When the daemon lists its devices, a page is shown exactly those that its origin is granted: after the
  -- origin is paired with a device, that one and those granted before; after it is unpaired, those granted
  -- before without that one. Another origin is shown what it was shown before.
  pub handle_enumerate_paired_effect :
      (row : V) (origin o : String) (id j status : ℕ) (devices : List Device) (rows : origins.Rows)
      → is_ok status ≡ true
      → id ≢ 0
      → (let shown = λ (r : origins.Rows). lists j (
            handle_enumerate_paired
              (record { status = status; devices = some devices })
              true
              o
              r) in
          (shown (handle_pair_device row true true origin id rows).0
            ≡ (if origin == o && (id == j) then has_device j devices else shown rows))
          × (shown (handle_unpair_device true true origin id rows).0
              ≡ (if origin == o && (id == j) then false else shown rows)))
  unfolding handle_enumerate_paired handle_pair_device handle_unpair_device lists add_allowed_device
      remove_allowed_device
  handle_enumerate_paired_effect row origin o id j status devices rows ok h =
      let before = has_device-paired_of j (get_allowed_devices origins o rows) devices in
      let added = origins.put_row (origin, id) row rows in
      let removed = origins.delete_row (origin, id) rows in
      (
        ground (
          arith,
          ok,
          before,
          has_device-paired_of j (get_allowed_devices origins o added) devices,
          get_allowed_devices-add_allowed_device origins row true origin o id j rows,
        ),
        ground (
          arith,
          ok,
          before,
          has_device-paired_of j (get_allowed_devices origins o removed) devices,
          get_allowed_devices-remove_allowed_device origins true origin o id j rows,
        ),
      )
