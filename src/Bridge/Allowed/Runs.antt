-- ===== src/Bridge/Allowed/Runs.antt =====
-- The runs of the questions, with the loads of origins and the changes of their devices in any order.
use ff_web_hid.Prelude.{
  ℕ, ◌+◌, String, List, [], ◌∷◌, ◌++◌, Option, Bool, true, ◌==◌, nat_eq, string_eq, if◌then◌else◌,
  ◌≡◌, refl, arith,
}
use ff_web_hid.Prelude.Maps.{get, put, contains}
use ff_web_hid.Bridge.Allowed.{
  Question, Allowed, nothing_loaded, Effect, allowed_of, flush_allowed_device_ids_queue,
  is_device_allowed, load_ends, allowed_devices_change,
}
use ff_web_hid.Bridge.Allowed.Asked.{
  questions, resolutions, are_loading, resolutions-append, questions-append, flush-questions,
  are_loading-flush_rest, are_loading-append, are_loading-more,
}

-- A question, the end of a load, and the message that the devices of an origin changed.
pub data Operation : Type 0 where
  asking : Question → Operation
  loading_ends : String → Option (List String) → Operation
  changing : String → List String → Operation

unfoldable pub perform : Operation → Allowed → Allowed × List Effect
perform (asking q) a = is_device_allowed q a
perform (loading_ends origin response) a = load_ends origin response a
perform (changing origin devices) a = allowed_devices_change origin devices a

unfoldable pub run : List Operation → Allowed → Allowed × List Effect
run [] a = (a, [])
run (op ∷ ops) a =
    let (a', effects) = perform op a in let (last, more) = run ops a' in (last, effects ++ more)

abbrev pub asks : ℕ → Operation → ℕ
asks n (asking q) = if q.number == n then 1 else 0
asks n (loading_ends origin response) = 0
asks n (changing origin devices) = 0

-- How often the operations ask the question.
unfoldable pub asked : ℕ → List Operation → ℕ
asked n [] = 0
asked n (op ∷ ops) = asks n op + asked n ops

abbrev waits_well : Allowed → Bool
waits_well a = are_loading a.loads a.loaded_origins a.queue

perform-asks :
    (n : ℕ) (op : Operation) (a : Allowed)
    → asks n op + questions n a.queue
      ≡ resolutions n (perform op a).1 + questions n (perform op a).0.queue
unfolding perform is_device_allowed load_ends allowed_devices_change flush_allowed_device_ids_queue
    resolutions questions
perform-asks n (asking q) a = ground (arith, questions-append n a.queue (q ∷ []))
perform-asks n (loading_ends origin response) a =
    let devices = allowed_of (get origin (put origin (allowed_of response) a.allowed_by_origin)) in
    omega (arith, flush-questions n origin devices a.queue)
perform-asks n (changing origin devices) a =
    let stored = allowed_of (get origin (put origin devices a.allowed_by_origin)) in
    omega (arith, flush-questions n origin stored a.queue)

perform-waits_well :
    (op : Operation) (a : Allowed) → waits_well a ≡ true → waits_well (perform op a).0 ≡ true
unfolding perform is_device_allowed load_ends allowed_devices_change flush_allowed_device_ids_queue
    contains
perform-waits_well (asking q) a h = ground (
  arith,
  h,
  string_eq.beq_iff q.origin q.origin,
  are_loading-append a.loads a.loaded_origins a.queue q,
  are_loading-append (q.origin ∷ a.loads) a.loaded_origins a.queue q,
  are_loading-more q.origin a.loads a.loaded_origins a.queue,
)
perform-waits_well (loading_ends origin response) a h =
    (are_loading-flush_rest origin a.loads a.loaded_origins a.queue h).1
perform-waits_well (changing origin devices) a h =
    (are_loading-flush_rest origin a.loads a.loaded_origins a.queue h).0

run-asked-from :
    (n : ℕ) (ops : List Operation) (a : Allowed)
    → waits_well a ≡ true
    → (let x = run ops a in
        (asked n ops + questions n a.queue ≡ resolutions n x.1 + questions n x.0.queue)
        × (waits_well x.0 ≡ true))
unfolding run asked resolutions
run-asked-from n [] a h = (refl, h)
run-asked-from n (op ∷ ops) a h =
    let x = perform op a in
    let (b, c) = run-asked-from n ops x.0 (perform-waits_well op a h) in
    (omega (arith, b, perform-asks n op a, resolutions-append n x.1 (run ops x.0).1), c)

-- In every run, with loads that end in any order or fail, and with changes of the devices in between: a
-- question whether a device is allowed was asked as often as it was answered or waits, and every question
-- that waits is for an origin whose load is under way and has not ended.
pub run-asked :
    (n : ℕ) (ops : List Operation)
    → (let x = run ops nothing_loaded in
        (asked n ops ≡ resolutions n x.1 + questions n x.0.queue)
        × (are_loading x.0.loads x.0.loaded_origins x.0.queue ≡ true))
unfolding questions are_loading
run-asked n ops = let (b, c) = run-asked-from n ops nothing_loaded refl in (omega (arith, b), c)
