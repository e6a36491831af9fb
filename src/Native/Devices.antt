-- ===== src/Native/Devices.antt =====
-- The device cache of the background (handleDeviceConnectionEvent and onControlEvent of
-- addon/js/background/nm.js).
use ff_web_hid.Prelude.{
  ℕ, String, List, [], ◌∷◌, ◌++◌, Option, none, some, Bool, ◌||◌, ◌==◌, nat_eq, if◌then◌else◌, ◌≡◌,
  refl, arith, Option-cases, Bool-cases, inl, inr,
}
use ff_web_hid.Ownership.State.{State}
use ff_web_hid.Ownership.Opens.{tabs_for_event}
use ff_web_hid.Ownership.Purge.{clear_device_ownership}

abbrev pub evt_connect : ℕ
evt_connect = 2

abbrev pub evt_disconnect : ℕ
evt_disconnect = 3

-- A device as the daemon describes it; `description` stands for its other fields.
pub record Device : Type 0 where
  pub device_id : ℕ
  pub description : String

-- `deviceCache.find((d) => d.deviceId === id)`
unfoldable pub find_device : ℕ → List Device → Option Device
find_device id [] = none
find_device id (d ∷ cache) = if d.device_id == id then some d else find_device id cache

-- `const idx = deviceCache.findIndex(…); if (idx >= 0) deviceCache.splice(idx, 1)`
unfoldable pub remove_first : ℕ → List Device → List Device
remove_first id [] = []
remove_first id (d ∷ cache) = if d.device_id == id then cache else d ∷ remove_first id cache

add_new : Device → List Device → List Device
add_new d cache = elim (find_device d.device_id cache) [
  | none ↦ cache ++ (d ∷ [])
  | some known ↦ cache
]

-- What the message says: the kind of event, the device, and its description if there is one.
pub record ConnectionEvent : Type 0 where
  pub kind : ℕ
  pub device_id : ℕ
  pub device : Option Device

-- The cache right after the event. Without a description the cache is replaced by a later answer of the
-- daemon (`refreshed_cache`).
unfoldable pub cache_after : ConnectionEvent → List Device → List Device
unfolding add_new
cache_after m cache = elim m.device [
  | none ↦ cache
  | some d ↦ if m.kind == evt_connect then add_new d cache else remove_first m.device_id cache
]

unfoldable pub handle_device_connection_event :
    ConnectionEvent → List Device → State → List Device × State
unfolding cache_after
handle_device_connection_event m cache st = (
  cache_after m cache,
  if m.kind == evt_disconnect then clear_device_ownership m.device_id st else st,
)

-- The answer to enumerateDevices: `if (http.isOk(resp.s) && resp.D)`.
unfoldable pub refreshed_cache : Bool → Option (List Device) → List Device → List Device
refreshed_cache ok none cache = cache
refreshed_cache ok (some devices) cache = if ok then devices else cache

-- Where an event goes: to every tab, or to the tabs that hold the device open.
pub data Audience : Type 0 where
  every_tab : Audience
  tabs : List ℕ → Audience

unfoldable pub on_control_event :
    ConnectionEvent → List Device → State → (List Device × State) × Audience
on_control_event m cache st =
    if m.kind == evt_connect || m.kind == evt_disconnect
    then (handle_device_connection_event m cache st, every_tab)
    else ((cache, st), tabs (elim (tabs_for_event m.device_id st) [ none ↦ [] | some ids ↦ ids ]))

-- No two devices of the cache have the same id.
abbrev pub HasDistinctIds : List Device → Type 0
HasDistinctIds [] = Unit
HasDistinctIds (d ∷ cache) = (find_device d.device_id cache ≡ none) × HasDistinctIds cache

find_device-append_one :
    (id : ℕ) (d : Device) (cache : List Device)
    → find_device id (cache ++ (d ∷ [])) ≡ (elim (find_device id cache) [
      | none ↦ (if d.device_id == id then some d else none)
      | some e ↦ some e
    ])
unfolding find_device
find_device-append_one id d [] = refl
find_device-append_one id d (c ∷ cache) = ground (arith, find_device-append_one id d cache)

append_one-HasDistinctIds :
    (d : Device) (cache : List Device)
    → find_device d.device_id cache ≡ none
    → HasDistinctIds cache
    → HasDistinctIds (cache ++ (d ∷ []))
unfolding find_device
append_one-HasDistinctIds d [] e h = (refl, tt)
append_one-HasDistinctIds d (c ∷ cache) e (new, h) = (
  ground (arith, find_device-append_one c.device_id d cache),
  append_one-HasDistinctIds d cache (ground arith) h,
)

find_device-remove_first :
    (id j : ℕ) (cache : List Device)
    → HasDistinctIds cache
    → find_device j (remove_first id cache) ≡ (if id == j then none else find_device j cache)
unfolding find_device remove_first
find_device-remove_first id j [] h = ground arith
find_device-remove_first id j (d ∷ cache) (new, h) =
    ground (arith, new, find_device-remove_first id j cache h)

remove_first-HasDistinctIds :
    (id : ℕ) (cache : List Device) → HasDistinctIds cache → HasDistinctIds (remove_first id cache)
unfolding remove_first
remove_first-HasDistinctIds id [] h = tt
remove_first-HasDistinctIds id (d ∷ cache) (new, h) = elim (Bool-cases (d.device_id == id)) [
  | inl same ↦ rw same h
  | inr differ ↦ rw differ (
    ground (arith, new, find_device-remove_first id d.device_id cache h),
    remove_first-HasDistinctIds id cache h,
  )
]

add_new_effect :
    (d : Device) (id : ℕ) (cache : List Device)
    → HasDistinctIds cache
    → HasDistinctIds (add_new d cache)
      × (find_device id (add_new d cache) ≡ (elim (find_device id cache) [
        | none ↦ (if d.device_id == id then some d else none)
        | some e ↦ some e
      ]))
unfolding add_new
add_new_effect d id cache h = elim (Option-cases (find_device d.device_id cache)) [
  | inl unknown ↦
      rw (unknown, add_new)
        (append_one-HasDistinctIds d cache unknown h, find_device-append_one id d cache)
  | inr (known, found) ↦ rw (found, add_new) (h, ground (arith, found))
]

-- A connection event that describes the device keeps the ids of the cache distinct when they were so.
-- After a connect the cache has a device under the id of the description, the one that was there if there
-- was one; after a disconnect it has none under the id of the event; and other ids are as before.
pub cache_after_effect :
    (m : ConnectionEvent) (d : Device) (id : ℕ) (cache : List Device)
    → m.device ≡ some d
    → HasDistinctIds cache
    → HasDistinctIds (cache_after m cache)
      × (find_device id (cache_after m cache) ≡ (
          if m.kind == evt_connect
          then (elim (find_device id cache) [
            | none ↦ (if d.device_id == id then some d else none)
            | some e ↦ some e
          ])
          else (if m.device_id == id then none else find_device id cache)))
unfolding cache_after
cache_after_effect m d id cache e h = elim (Bool-cases (m.kind == evt_connect)) [
  | inl connect ↦ rw (e, connect) (add_new_effect d id cache h)
  | inr disconnect ↦
      rw (e, disconnect)
        (
          remove_first-HasDistinctIds m.device_id cache h,
          find_device-remove_first m.device_id id cache h,
        )
]
