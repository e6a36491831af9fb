-- ===== src/Bridge/Data/Runs.antt =====
-- The runs of the bridge's forwarding: messages of pages, responses, disconnects and despawns, in any order.
use ff_web_hid.Prelude.{
  ℕ, ◌+◌, String, List, [], ◌∷◌, ◌++◌, Bool, true, ltb, nat_eq, string_eq, ◌≡◌, refl, arith,
  Bool-cases, inl, inr,
}
use ff_web_hid.Prelude.Maps.{get, has}
use ff_web_hid.Ownership.Opens.{or_zero}
use ff_web_hid.Bridge.Data.{
  PlaneKey, plane_key_eq, Pending, Data, no_data, Effect, Response, on_data_port_message,
  on_runtime_response, on_runtime_disconnect, despawn_requests, retain_nm_open_attempt,
  release_nm_open_attempt,
}
use ff_web_hid.Bridge.Data.Answered.{
  forwards, answers, forwards-append, answers-append, one_if, is_served, IsServed, IsKept,
}
use ff_web_hid.Bridge.Data.Kept.{
  IsKept-idle, on_data_port_message-IsKept, on_runtime_response-IsKept,
  on_runtime_disconnect-IsKept, despawn_requests-IsKept,
}

-- A message of a page, a response, the disconnection of a runtime port, the despawn of a plane, a plane
-- that comes to use Native Messaging, and an attempt at it that begins or ends.
pub data Operation : Type 0 where
  asking : Pending → Bool → Operation
  responding : String → ℕ → Response → Operation
  disconnecting : String → Operation
  despawning using retaining releasing : PlaneKey → Operation

unfoldable pub perform : Operation → Data → Data × List Effect
perform (asking p posts) d = on_data_port_message p posts d
perform (responding device req_id response) d = on_runtime_response device req_id response d
perform (disconnecting device) d = on_runtime_disconnect device d
perform (despawning key) d = despawn_requests key d
perform (using key) d = (record d { nm_planes = key ∷ d.nm_planes }, [])
perform (retaining key) d = (retain_nm_open_attempt key d, [])
perform (releasing key) d = (release_nm_open_attempt key d, [])

unfoldable pub run : List Operation → Data → Data × List Effect
run [] d = (d, [])
run (op ∷ ops) d =
    let (d', effects) = perform op d in let (last, more) = run ops d' in (last, effects ++ more)

perform-IsKept : (op : Operation) (d : Data) → IsServed d → IsKept d (perform op d)
unfolding perform retain_nm_open_attempt release_nm_open_attempt forwards answers
perform-IsKept (asking p posts) d h = on_data_port_message-IsKept p posts d h
perform-IsKept (responding device req_id response) d h =
    on_runtime_response-IsKept device req_id response d h
perform-IsKept (disconnecting device) d h = on_runtime_disconnect-IsKept device d h
perform-IsKept (despawning key) d h = despawn_requests-IsKept key d h
perform-IsKept (using key) d h = record {
  tally = λ r. refl;
  well = record { distinct = h.distinct; served = h.served };
}
perform-IsKept (retaining key) d h = record {
  tally = λ r. refl;
  well = record { distinct = h.distinct; served = h.served };
}
perform-IsKept (releasing key) d h =
    elim (Bool-cases (ltb 1 (or_zero (get key d.nm_open_attempts)))) [
      | inl more ↦
          rw (more, release_nm_open_attempt)
            (record {
              tally = λ r. refl;
              well = record { distinct = h.distinct; served = h.served };
            })
      | inr last ↦
          rw (last, release_nm_open_attempt)
            (record {
              tally = λ r. refl;
              well = record { distinct = h.distinct; served = h.served };
            })
    ]

run-IsKept : (ops : List Operation) (d : Data) → IsServed d → IsKept d (run ops d)
unfolding run
run-IsKept [] d h = IsKept-idle d h
run-IsKept (op ∷ ops) d h =
    let x = perform op d in
    let first = perform-IsKept op d h in
    let y = run ops x.0 in
    let later = run-IsKept ops x.0 first.well in
    record {
      tally = λ r. omega (
        arith,
        first.tally r,
        later.tally r,
        forwards-append r x.1 y.1,
        answers-append r x.1 y.1,
      );
      well = later.well;
    }

no_data-IsServed : IsServed no_data
unfolding is_served get
no_data-IsServed = record { distinct = tt; served = λ r. refl }

-- Whatever the pages, the daemon and the planes do, in any order: a report that the bridge has forwarded
-- under an id is answered exactly once or pending under it, each time that the id is given out; and while
-- a report is pending, its device has a runtime port.
pub run-answered :
    (ops : List Operation) (r : ℕ)
    → (let x = run ops no_data in
        (forwards r x.1 ≡ answers r x.1 + one_if (has r x.0.data_pending))
        × (is_served (get r x.0.data_pending) x.0.runtime_ports ≡ true))
unfolding has get
run-answered ops r =
    let kept = run-IsKept ops no_data no_data-IsServed in
    (omega (arith, kept.tally r), kept.well.served r)
