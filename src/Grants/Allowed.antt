-- ===== src/Grants/Allowed.antt =====
-- The devices that an origin is granted (getAllowedDevices, addAllowedDevice, removeAllowedDevice and
-- getAllAllowedByOrigin), the device descriptions and the grant groups of addon/js/background/storage.js.
-- Whether a transaction completes is an argument: one that does not changes nothing.
use ff_web_hid.Prelude.{
  append_nil, append_one_more, ℕ, String, List, [], ◌∷◌, ◌++◌, Option, none, some, Bool, true,
  false, ◌&&◌, ◌==◌, nat_eq, string_eq, if◌then◌else◌, ◌≡◌, ◌≢◌, refl, arith, ap, ◌∙◌, sym,
}
use ff_web_hid.Prelude.Maps.{Map, get, put, has, contains, get-put}
use ff_web_hid.Native.Devices.{Device, find_device}
use ff_web_hid.Grants.Stores.{ObjectStore, pair_eq}

-- `req.result.map((r) => r.deviceId)` of the rows of an origin.
unfoldable pub allowed_in : {V : Type 0} → String → Map (String × ℕ) V → List ℕ
allowed_in origin [] = []
allowed_in origin (((o, id), _) ∷ rows) =
    if o == origin then id ∷ allowed_in origin rows else allowed_in origin rows

-- `if (!map.has(row.origin)) map.set(row.origin, []); map.get(row.origin).push(row.deviceId)`
unfoldable pub or_empty : Option (List ℕ) → List ℕ
or_empty none = []
or_empty (some ids) = ids

unfoldable pub group_rows :
    {V : Type 0} → Map (String × ℕ) V → Map String (List ℕ) → Map String (List ℕ)
unfolding or_empty
group_rows [] groups = groups
group_rows (((o, id), _) ∷ rows) groups =
    group_rows rows (put o (or_empty (get o groups) ++ (id ∷ [])) groups)

contains-allowed_in :
    {V : Type 0} (origin : String) (id : ℕ) (rows : Map (String × ℕ) V)
    → contains id (allowed_in origin rows) ≡ has (origin, id) rows
unfolding contains allowed_in has get
contains-allowed_in origin id [] = refl
contains-allowed_in origin id (((o, j), v) ∷ rows) =
    ground (arith, contains-allowed_in origin id rows)

grouped :
    {V : Type 0} (origin : String) (rows : Map (String × ℕ) V) (groups : Map String (List ℕ))
    → or_empty (get origin (group_rows rows groups))
      ≡ or_empty (get origin groups) ++ allowed_in origin rows
unfolding group_rows allowed_in or_empty
grouped origin [] groups = sym (append_nil (or_empty (get origin groups)))
grouped origin (((o, id), v) ∷ rows) groups =
    let more = or_empty (get o groups) ++ (id ∷ []) in
    ground (
      arith,
      string_eq.beq_iff o origin,
      grouped origin rows (put o more groups),
      get-put o origin more groups,
      append_one_more (or_empty (get origin groups)) id (allowed_in origin rows),
    )

module _ {V : Type 0} (origins : ObjectStore (String × ℕ) V) where
  unfoldable pub get_allowed_devices : String → origins.Rows → List ℕ
  unfolding allowed_in
  get_allowed_devices origin rows = allowed_in origin (origins.all rows)

  -- The rows after it, and whether its promise is fulfilled; `row` is the value that is put.
  unfoldable pub add_allowed_device : V → Bool → String → ℕ → origins.Rows → origins.Rows × Bool
  add_allowed_device row done origin id rows =
      if done then (origins.put_row (origin, id) row rows, true) else (rows, false)

  unfoldable pub remove_allowed_device : Bool → String → ℕ → origins.Rows → origins.Rows × Bool
  remove_allowed_device done origin id rows =
      if done then (origins.delete_row (origin, id) rows, true) else (rows, false)

  -- A transaction that fails gives the empty map.
  unfoldable pub get_all_allowed_by_origin : Bool → origins.Rows → Map String (List ℕ)
  unfolding group_rows
  get_all_allowed_by_origin done rows = if done then group_rows (origins.all rows) [] else []

  pub contains-get_allowed_devices :
      (origin : String) (id : ℕ) (rows : origins.Rows)
      → contains id (get_allowed_devices origin rows)
        ≡ (elim (origins.get_row (origin, id) rows) [ none ↦ false | some _ ↦ true ])
  unfolding get_allowed_devices has
  contains-get_allowed_devices origin id rows =
      contains-allowed_in origin id (origins.all rows)
      ∙ ap (λ found. elim found [ none ↦ false | some _ ↦ true ])
          (origins.get-all (origin, id) rows)

  -- Granting adds exactly that device to the devices of exactly that origin, and a promise that is
  -- rejected grants nothing.
  pub get_allowed_devices-add_allowed_device :
      (row : V) (done : Bool) (origin o : String) (id j : ℕ) (rows : origins.Rows)
      → contains j (get_allowed_devices o (add_allowed_device row done origin id rows).0) ≡ (
          if done && (origin == o && (id == j))
          then true
          else contains j (get_allowed_devices o rows))
  unfolding add_allowed_device
  get_allowed_devices-add_allowed_device row done origin o id j rows = ground (
    arith,
    contains-get_allowed_devices o j (origins.put_row (origin, id) row rows),
    contains-get_allowed_devices o j rows,
    origins.get_row-put_row (origin, id) (o, j) row rows,
  )

  -- Revoking removes exactly that device from the devices of exactly that origin, and a promise that is
  -- rejected revokes nothing.
  pub get_allowed_devices-remove_allowed_device :
      (done : Bool) (origin o : String) (id j : ℕ) (rows : origins.Rows)
      → contains j (get_allowed_devices o (remove_allowed_device done origin id rows).0) ≡ (
          if done && (origin == o && (id == j))
          then false
          else contains j (get_allowed_devices o rows))
  unfolding remove_allowed_device
  get_allowed_devices-remove_allowed_device done origin o id j rows = ground (
    arith,
    contains-get_allowed_devices o j (origins.delete_row (origin, id) rows),
    contains-get_allowed_devices o j rows,
    origins.get_row-delete_row (origin, id) (o, j) rows,
  )

  -- The list of all grants by origin says the same as asking for each origin: under every origin it has the
  -- same devices in the same order, none being listed where none is granted.
  pub get_all_allowed_by_origin-get_allowed_devices :
      (origin : String) (rows : origins.Rows)
      → or_empty (get origin (get_all_allowed_by_origin true rows))
        ≡ get_allowed_devices origin rows
  unfolding get_all_allowed_by_origin get_allowed_devices or_empty get
  get_all_allowed_by_origin-get_allowed_devices origin rows = grouped origin (origins.all rows) []

module _ (infos : ObjectStore ℕ Device) where
  unfoldable pub save_device_info : Bool → Device → infos.Rows → infos.Rows
  save_device_info done d rows =
      if d.device_id == 0 then rows else if done then infos.put_row d.device_id d rows else rows

  put_each : List Device → infos.Rows → infos.Rows
  put_each [] rows = rows
  put_each (d ∷ devices) rows =
      put_each devices (if d.device_id == 0 then rows else infos.put_row d.device_id d rows)

  unfoldable pub save_device_info_batch : Bool → List Device → infos.Rows → infos.Rows
  unfolding put_each
  save_device_info_batch done devices rows = if done then put_each devices rows else rows

  -- The cache first; a read that fails gives nothing.
  unfoldable pub get_device_info : Bool → ℕ → List Device → infos.Rows → Option Device
  get_device_info done id cache rows = if id == 0 then none else elim (find_device id cache) [
    | some live ↦ some live
    | none ↦ if done then infos.get_row id rows else none
  ]

  unfoldable pub remove_device_info : Bool → ℕ → infos.Rows → infos.Rows
  remove_device_info done id rows =
      if id == 0 then rows else if done then infos.delete_row id rows else rows

  -- A description that is saved is the one that is read later, whatever is cached of other devices, until
  -- the device is cached or removed.
  pub get_device_info-save_device_info :
      (d : Device) (id : ℕ) (cache : List Device) (rows : infos.Rows)
      → d.device_id ≢ 0
      → find_device id cache ≡ none
      → (get_device_info true id cache (save_device_info true d rows)
          ≡ (if d.device_id == id then some d else get_device_info true id cache rows))
        × (get_device_info true d.device_id []
              (remove_device_info true d.device_id (save_device_info true d rows))
            ≡ none)
  unfolding get_device_info save_device_info remove_device_info find_device
  get_device_info-save_device_info d id cache rows h uncached = (
    ground (arith, uncached, infos.get_row-put_row d.device_id id d rows),
    ground (
      arith,
      infos.get_row-delete_row d.device_id d.device_id (infos.put_row d.device_id d rows),
    ),
  )
