-- ===== src/Bridge/Tests.antt =====
-- Runs of the control port and of the planes of one page, and a plane's key.
use ff_web_hid.Prelude.{
  ◌+◌, List, false, ℕ, [], ◌∷◌, ◌++◌, some, Bool, true, nat_eq, string_eq, ◌==◌, ◌≡◌, refl, arith,
  none, String,
}
use ff_web_hid.Prelude.Maps.{has, get}
use ff_web_hid.Bridge.Control.{send_background_request, pump_control_queue, pump_queue}
use ff_web_hid.Bridge.Control.Order.{requests, waiting}
use ff_web_hid.Bridge.Control.Runs.{
  Run, start, Reach, asking, here, next, is_pumped, hear_replies, Reach-waiting,
  hear_replies-waiting,
}
use ff_web_hid.Bridge.Planes.{
  Planes, no_planes, begin_plane_generation, wait_for_plane_ready, mark_plane_prerequisite, local,
}
use ff_web_hid.Bridge.Planes.Ready.{IsSound, here as empty, begins, marks, waits, Reach-IsSound}
use ff_web_hid.Bridge.Data.{Data, Pending, no_data, send, allocate_data_req_id}
use ff_web_hid.Bridge.Data.Allocation.{allocate_data_req_id-fresh}
use ff_web_hid.Bridge.Data.Answered.{forwards, answers, one_if, is_served}
use ff_web_hid.Bridge.Data.Runs.{asking, responding, disconnecting, Operation, run, run-answered}
use ff_web_hid.Bridge.Allowed.{nothing_loaded, Question}
use ff_web_hid.Bridge.Allowed.Asked.{questions, resolutions, are_loading}
use ff_web_hid.Bridge.Allowed.Runs.{
  asking as asks_for, loading_ends, asked as asked_in, Operation as Step, run as run_all, run-asked,
}
use ff_web_hid.Bridge.Keys.{
  plane_key_for_client, context_key_for_plane_key, device_id_for_plane_key,
  client_key_for_plane_key, plane_key_for_client-read,
}

-- Requests 4 and 7 are asked; the post of 4 throws.
abbrev throwing : ℕ → Bool
throwing r = r == 4

abbrev asked : ℕ → Run → Run
asked r x = record {
  control = (send_background_request throwing r x.control).0;
  asked = x.asked ++ (r ∷ []);
  settled = x.settled ++ (send_background_request throwing r x.control).1;
}

abbrev three_asked : Run
three_asked = asked 9 (asked 7 (asked 4 start))

abbrev three_asked-Reach : Reach three_asked
three_asked-Reach =
    next (next (next here (asking throwing 4)) (asking throwing 7)) (asking throwing 9)

Reach-waiting_example :
    (4 ∷ 7 ∷ 9 ∷ [] ≡ requests three_asked.settled ++ waiting three_asked.control)
    × (is_pumped three_asked.control ≡ true)
Reach-waiting_example = Reach-waiting three_asked-Reach

three_asked-waiting : waiting three_asked.control ≡ 7 ∷ 9 ∷ []
unfolding send_background_request pump_control_queue pump_queue
three_asked-waiting = refl

hear_replies-waiting_example :
    (requests (hear_replies (200 ∷ 404 ∷ []) three_asked.control).1 ≡ waiting three_asked.control)
    × (waiting (hear_replies (200 ∷ 404 ∷ []) three_asked.control).0 ≡ [])
hear_replies-waiting_example =
    hear_replies-waiting (200 ∷ 404 ∷ []) three_asked-Reach (rw three_asked-waiting refl)

-- A plane is begun, a caller waits for it, and its local prerequisite is marked.
abbrev begun : Planes
begun = (begin_plane_generation "f/d" no_planes).0

abbrev waited : Planes
waited = (wait_for_plane_ready true 1 "f/d" 1 begun).0

Reach-IsSound_example : IsSound (mark_plane_prerequisite true "f/d" 1 local waited).0
Reach-IsSound_example =
    Reach-IsSound (marks true "f/d" 1 local (waits true 1 "f/d" 1 (begins "f/d" empty)))

plane_key_for_client-read_example :
    (let key = plane_key_for_client (7 ∷ []) (8 ∷ 9 ∷ []) (5 ∷ []) in
      (context_key_for_plane_key key ≡ some (7 ∷ []))
      × (device_id_for_plane_key key ≡ 8 ∷ 9 ∷ [])
      × (client_key_for_plane_key key ≡ 5 ∷ []))
plane_key_for_client-read_example =
    plane_key_for_client-read (7 ∷ []) (8 ∷ 9 ∷ []) (5 ∷ []) (omega arith, tt)
      (omega arith, (omega arith, tt))

-- Two reports of one device; the first is answered, and then the device's port is lost.
abbrev report : ℕ → Pending
report page_req = record {
  kind = send;
  page_req_id = page_req;
  port = some 5;
  key = (("f", "d"), "window");
  device = "d";
}

abbrev reports : List Operation
reports =
    asking (report 11) true
    ∷ asking (report 12) true
    ∷ responding "d" 1 (record { status = 204; bytes_of = none })
    ∷ disconnecting "d"
    ∷ []

run-answered_example :
    (let x = run reports no_data in
      (forwards 2 x.1 ≡ answers 2 x.1 + one_if (has 2 x.0.data_pending))
      × (is_served (get 2 x.0.data_pending) x.0.runtime_ports ≡ true))
run-answered_example = run-answered reports 2

abbrev one_pending : Data
one_pending = record no_data { data_pending = (1, report 11) ∷ [] }

allocate_data_req_id-fresh_example :
    (r : ℕ) × (allocate_data_req_id one_pending ≡ some r) × (has r one_pending.data_pending ≡ false)
allocate_data_req_id-fresh_example = allocate_data_req_id-fresh one_pending (omega arith)

-- Two questions for different origins, of which one load ends.
abbrev question : ℕ → String → Question
question n origin = record { number = n; origin = origin; device = "d" }

abbrev two_questions : List Step
two_questions =
    asks_for (question 1 "https://a.test")
    ∷ asks_for (question 2 "https://b.test")
    ∷ loading_ends "https://a.test" (some ("d" ∷ []))
    ∷ []

run-asked_example :
    (let x = run_all two_questions nothing_loaded in
      (asked_in 2 two_questions ≡ resolutions 2 x.1 + questions 2 x.0.queue)
      × (are_loading x.0.loads x.0.loaded_origins x.0.queue ≡ true))
run-asked_example = run-asked 2 two_questions
