-- ===== src/Bridge/Allowed.antt =====
-- The devices that an origin may use, as addon/js/content/isolated/bridge.js asks for them:
-- isDeviceAllowed, loadAllowedDeviceIds, flushAllowedDeviceIdsQueue, and the message that they changed.
pub mod Asked
pub mod Runs
use ff_web_hid.Prelude.{
  ℕ, String, List, [], ◌∷◌, ◌++◌, Option, none, some, Bool, true, false, ◌==◌, string_eq,
  if◌then◌else◌,
}
use ff_web_hid.Prelude.Maps.{Map, get, put, contains}

-- An entry of allowedDeviceIdsQueue; its `resolve` is told by the number of the question.
pub record Question : Type 0 where
  pub number : ℕ
  pub origin : String
  pub device : String

-- `loads` is allowedLoads, by its origins.
pub record Allowed : Type 0 where
  pub allowed_by_origin : Map String (List String)
  pub loaded_origins : List String
  pub loads : List String
  pub queue : List Question

abbrev pub nothing_loaded : Allowed
nothing_loaded = record { allowed_by_origin = []; loaded_origins = []; loads = []; queue = [] }

-- A question that is resolved, with its answer, and a load that begins.
pub data Effect : Type 0 where
  resolved : ℕ → Bool → Effect
  load_begun : String → Effect

abbrev pub allowed_of : Option (List String) → List String
allowed_of none = []
allowed_of (some devices) = devices

-- The answers of flushAllowedDeviceIdsQueue, from the end of the queue to its start.
unfoldable pub flush_answers : String → List String → List Question → List Effect
flush_answers origin devices [] = []
flush_answers origin devices (q ∷ queue) =
    let later = flush_answers origin devices queue in
    if q.origin == origin
    then later ++ (resolved q.number (contains q.device devices) ∷ [])
    else later

unfoldable pub flush_rest : String → List Question → List Question
flush_rest origin [] = []
flush_rest origin (q ∷ queue) =
    let rest = flush_rest origin queue in if q.origin == origin then rest else q ∷ rest

unfoldable pub flush_allowed_device_ids_queue : String → Allowed → Allowed × List Effect
unfolding flush_answers flush_rest
flush_allowed_device_ids_queue origin a = (
  record a { queue = flush_rest origin a.queue },
  flush_answers origin (allowed_of (get origin a.allowed_by_origin)) a.queue,
)

unfoldable pub is_device_allowed : Question → Allowed → Allowed × List Effect
is_device_allowed q a =
    if q.origin == ""
    then (a, resolved q.number false ∷ [])
    else if contains q.origin a.loaded_origins
    then (
      a,
      resolved q.number (contains q.device (allowed_of (get q.origin a.allowed_by_origin))) ∷ [],
    )
    else if contains q.origin a.loads
    then (record a { queue = a.queue ++ (q ∷ []) }, [])
    else (
      record a { queue = a.queue ++ (q ∷ []); loads = q.origin ∷ a.loads },
      load_begun q.origin ∷ [],
    )

abbrev pub add_origin : String → List String → List String
add_origin origin origins = if contains origin origins then origins else origin ∷ origins

abbrev pub drop_origin : String → List String → List String
drop_origin origin [] = []
drop_origin origin (o ∷ origins) =
    let rest = drop_origin origin origins in if o == origin then rest else o ∷ rest

-- The end of loadAllowedDeviceIds: the ids of the response, or none where there is no list or it failed.
unfoldable pub load_ends : String → Option (List String) → Allowed → Allowed × List Effect
unfolding flush_allowed_device_ids_queue
load_ends origin response a =
    let (a', effects) = flush_allowed_device_ids_queue origin (record a {
      allowed_by_origin = put origin (allowed_of response) a.allowed_by_origin;
      loaded_origins = add_origin origin a.loaded_origins;
    }) in
    (record a' { loads = drop_origin origin a'.loads }, effects)

-- The message allowedDevicesChanged, with the origin and the ids that it carries.
unfoldable pub allowed_devices_change : String → List String → Allowed → Allowed × List Effect
unfolding flush_allowed_device_ids_queue
allowed_devices_change origin devices a = flush_allowed_device_ids_queue origin (record a {
  allowed_by_origin = put origin devices a.allowed_by_origin;
  loaded_origins = add_origin origin a.loaded_origins;
})
