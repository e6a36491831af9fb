-- ===== src/Bridge/Data/Answered.antt =====
-- Every report that the bridge forwards is answered once, and while it is pending its device has a runtime
-- port.
use ff_web_hid.Prelude.{
  ℕ, ◌+◌, String, List, [], ◌∷◌, ◌++◌, Option, none, some, Bool, true, false, not, ◌||◌, ◌==◌,
  nat_eq, string_eq, if◌then◌else◌, ◌≡◌, refl, arith, Option-cases, Bool-cases, inl, inr,
}
use ff_web_hid.Prelude.Maps.{Map, get, del, has, del_where, HasDistinctKeys, get-del}
use ff_web_hid.Bridge.Data.{
  plane_key_eq, Pending, Data, Effect, forwarded, told, unheard, Response, status_only,
  handle_worker_report_response, has_device_key, keys_of, any_pending,
  maybe_disconnect_runtime_data_port, answer_where,
}

-- How often the request is forwarded, and answered to the page or to nobody.
unfoldable pub forwards : ℕ → List Effect → ℕ
forwards r [] = 0
forwards r (forwarded q ∷ effects) = (if q == r then 1 else 0) + forwards r effects
forwards r (told q port page_req t ∷ effects) = forwards r effects
forwards r (unheard q ∷ effects) = forwards r effects

unfoldable pub answers : ℕ → List Effect → ℕ
answers r [] = 0
answers r (forwarded q ∷ effects) = answers r effects
answers r (told q port page_req t ∷ effects) = (if q == r then 1 else 0) + answers r effects
answers r (unheard q ∷ effects) = (if q == r then 1 else 0) + answers r effects

pub forwards-append :
    (r : ℕ) (xs ys : List Effect) → forwards r (xs ++ ys) ≡ forwards r xs + forwards r ys
unfolding forwards
forwards-append r [] ys = omega arith
forwards-append r (forwarded q ∷ xs) ys = omega (arith, forwards-append r xs ys)
forwards-append r (told q port page_req t ∷ xs) ys = forwards-append r xs ys
forwards-append r (unheard q ∷ xs) ys = forwards-append r xs ys

pub answers-append :
    (r : ℕ) (xs ys : List Effect) → answers r (xs ++ ys) ≡ answers r xs + answers r ys
unfolding answers
answers-append r [] ys = omega arith
answers-append r (forwarded q ∷ xs) ys = answers-append r xs ys
answers-append r (told q port page_req t ∷ xs) ys = omega (arith, answers-append r xs ys)
answers-append r (unheard q ∷ xs) ys = omega (arith, answers-append r xs ys)

abbrev pub one_if : Bool → ℕ
one_if b = if b then 1 else 0

-- A response is one answer.
pub handle_worker_report_response-one :
    (r q : ℕ) (p : Pending) (response : Response)
    → (forwards r (handle_worker_report_response q p response) ≡ 0)
      × (answers r (handle_worker_report_response q p response) ≡ one_if (q == r))
unfolding handle_worker_report_response forwards answers
handle_worker_report_response-one r q p response = elim (Option-cases p.port) [
  | inl nobody ↦ rw (nobody, handle_worker_report_response) (refl, omega arith)
  | inr (port, there) ↦ rw (there, handle_worker_report_response) (refl, omega arith)
]

pub answer_where-answers :
    (r : ℕ) (test : Pending → Bool) (status : ℕ) (m : Map ℕ Pending)
    → HasDistinctKeys m
    → (forwards r (answer_where test status m) ≡ 0)
      × (answers r (answer_where test status m) + one_if (has r (del_where (λ q p. test p) m))
          ≡ one_if (has r m))
unfolding answer_where forwards answers has get del_where
answer_where-answers r test status [] h = (refl, refl)
answer_where-answers r test status ((q, p) ∷ m) (h, hs) =
    let (a, b) = answer_where-answers r test status m hs in
    let response = handle_worker_report_response q p (status_only status) in
    let (c, d) = handle_worker_report_response-one r q p (status_only status) in
    (
      ground (arith, a, c, forwards-append r response (answer_where test status m)),
      ground (
        arith,
        b,
        d,
        h,
        nat_eq.beq_iff q r,
        answers-append r response (answer_where test status m),
      ),
    )

-- The device of a request has a port.
unfoldable pub is_served : Option Pending → Map String ℕ → Bool
is_served none ports = true
is_served (some p) ports = has p.device ports

pub record IsServed (d : Data) : Type 0 where
  pub distinct : HasDistinctKeys d.data_pending
  pub served : (r : ℕ) → is_served (get r d.data_pending) d.runtime_ports ≡ true

pub record IsKept (d : Data) (x : Data × List Effect) : Type 0 where
  pub tally :
      (r : ℕ)
      → forwards r x.1 + one_if (has r d.data_pending)
        ≡ answers r x.1 + one_if (has r x.0.data_pending)
  pub well : IsServed x.0

any_pending-none :
    (device : String) (m : Map ℕ Pending) (r : ℕ)
    → any_pending device m ≡ false
    → elim (get r m) [ none ↦ true | some p ↦ not (p.device == device) ] ≡ true
unfolding any_pending get
any_pending-none device [] r h = refl
any_pending-none device ((q, p) ∷ m) r h = ground (arith, any_pending-none device m r)

pub maybe_disconnect_runtime_data_port-IsServed :
    (device : String) (d : Data)
    → IsServed d
    → IsServed (maybe_disconnect_runtime_data_port device d)
unfolding maybe_disconnect_runtime_data_port is_served has
maybe_disconnect_runtime_data_port-IsServed device d h =
    elim (Bool-cases
      (has_device_key d.nm_planes device || has_device_key (keys_of d.nm_open_attempts) device)) [
        | inl used ↦ rw (used, maybe_disconnect_runtime_data_port) h
        | inr unused ↦ elim (Bool-cases (any_pending device d.data_pending)) [
          | inl some_one ↦ rw (unused, maybe_disconnect_runtime_data_port, some_one) h
          | inr nobody ↦ rw (unused, maybe_disconnect_runtime_data_port, nobody) (dropped nobody)
        ]
      ]
  where
    without_port :
        (o : Option Pending)
        → is_served o d.runtime_ports ≡ true
        → elim o [ none ↦ true | some p ↦ not (p.device == device) ] ≡ true
        → is_served o (del device d.runtime_ports) ≡ true
    without_port none s k = refl
    without_port (some p) s k = ground (
      arith,
      s,
      k,
      string_eq.beq_iff device p.device,
      string_eq.beq_iff p.device device,
      get-del device p.device d.runtime_ports,
    )

    dropped :
        any_pending device d.data_pending ≡ false
        → IsServed (record d { runtime_ports = del device d.runtime_ports })
    dropped nobody = record {
      distinct = h.distinct;
      served = λ r.
          without_port (get r d.data_pending) (h.served r)
            (any_pending-none device d.data_pending r nobody);
    }
