-- ===== src/Bridge/Data/Kept.antt =====
-- Every operation on the bridge's requests keeps them accounted for.
use ff_web_hid.Prelude.{
  ℕ, ◌+◌, String, [], ◌∷◌, Option, none, some, Bool, true, false, ◌==◌, nat_eq, string_eq,
  if◌then◌else◌, ◌≡◌, refl, arith, Option-cases, Bool-cases, inl, inr, length,
}
use ff_web_hid.Prelude.Maps.{
  get, put, del, has, del_where, keep_if, get-put, get-del, get-del_where, put-HasDistinctKeys,
  del-HasDistinctKeys, del_where-HasDistinctKeys,
}
use ff_web_hid.Bridge.Data.{
  PlaneKey, plane_key_eq, same_key, Pending, Data, forwarded, Response, status_only,
  handle_worker_report_response, allocate_data_req_id, drop_plane,
  maybe_disconnect_runtime_data_port, ensure_runtime_data_port, on_data_port_message,
  on_runtime_response, on_runtime_disconnect, despawn_requests,
}
use ff_web_hid.Bridge.Data.Allocation.{allocate-fresh}
use ff_web_hid.Bridge.Data.Answered.{
  forwards, answers, handle_worker_report_response-one, answer_where-answers, is_served, IsServed,
  IsKept, maybe_disconnect_runtime_data_port-IsServed,
}

maybe_disconnect_runtime_data_port-pending :
    (device : String) (d : Data)
    → (maybe_disconnect_runtime_data_port device d).data_pending ≡ d.data_pending
unfolding maybe_disconnect_runtime_data_port
maybe_disconnect_runtime_data_port-pending device d = ground arith

ensure_runtime_data_port-has :
    (device : String) (d : Data)
    → ((ensure_runtime_data_port device d).data_pending ≡ d.data_pending)
      × (has device (ensure_runtime_data_port device d).runtime_ports ≡ true)
unfolding ensure_runtime_data_port has
ensure_runtime_data_port-has device d = (
  ground arith,
  ground
      (arith, get-put device device d.next_port d.runtime_ports, string_eq.beq_iff device device),
)

ensure_runtime_data_port-more :
    (device other : String) (d : Data)
    → has other d.runtime_ports ≡ true
    → has other (ensure_runtime_data_port device d).runtime_ports ≡ true
unfolding ensure_runtime_data_port has
ensure_runtime_data_port-more device other d h =
    ground (arith, h, get-put device other d.next_port d.runtime_ports)

-- A request is put among those pending, with an id that is free and a device that has a port.
put-IsServed :
    (r : ℕ) (p : Pending) (d : Data)
    → has p.device d.runtime_ports ≡ true
    → IsServed d
    → IsServed (record d { data_pending = put r p d.data_pending })
unfolding is_served
put-IsServed r p d port h = record {
  distinct = put-HasDistinctKeys r p d.data_pending h.distinct;
  served = λ q. ground (arith, port, h.served q, get-put r q p d.data_pending);
}

del-IsServed :
    (r : ℕ) (d : Data) → IsServed d → IsServed (record d { data_pending = del r d.data_pending })
unfolding is_served
del-IsServed r d h = record {
  distinct = del-HasDistinctKeys r d.data_pending h.distinct;
  served = λ q. ground (arith, h.served q, get-del r q d.data_pending);
}

ensure_runtime_data_port-IsServed :
    (device : String) (d : Data) → IsServed d → IsServed (ensure_runtime_data_port device d)
unfolding is_served
ensure_runtime_data_port-IsServed device d h = record {
  distinct = rw ((ensure_runtime_data_port-has device d).0) h.distinct;
  served = λ r.
      rw ((ensure_runtime_data_port-has device d).0) (more (get r d.data_pending) (h.served r));
}
  where
    more :
        (o : Option Pending)
        → is_served o d.runtime_ports ≡ true
        → is_served o (ensure_runtime_data_port device d).runtime_ports ≡ true
    more none s = refl
    more (some p) s = ensure_runtime_data_port-more device p.device d s

-- The request with a fresh id is forwarded, and pending, or answered at once.
forwarding-IsKept :
    (r : ℕ) (p : Pending) (posts : Bool) (d : Data)
    → has r d.data_pending ≡ false
    → IsServed d
    → (let d' = ensure_runtime_data_port p.device (record d { data_req_seq = r }) in
        IsKept d (
          if posts
          then (record d' { data_pending = put r p d'.data_pending }, forwarded r ∷ [])
          else (
            record d' { data_pending = del r (put r p d'.data_pending) },
            forwarded r ∷ handle_worker_report_response r p (status_only 500),
          )))
unfolding forwards answers has
forwarding-IsKept r p true d free h =
    let d' = ensure_runtime_data_port p.device (record d { data_req_seq = r }) in
    let (same, port) = ensure_runtime_data_port-has p.device (record d { data_req_seq = r }) in
    let well =
      ensure_runtime_data_port-IsServed p.device (record d { data_req_seq = r })
        (record { distinct = h.distinct; served = h.served }) in
    record {
      tally = λ q. rw same (ground (arith, free, get-put r q p d.data_pending, nat_eq.beq_iff r q));
      well = put-IsServed r p d' port well;
    }
forwarding-IsKept r p false d free h =
    let d' = ensure_runtime_data_port p.device (record d { data_req_seq = r }) in
    let (same, port) = ensure_runtime_data_port-has p.device (record d { data_req_seq = r }) in
    let well =
      ensure_runtime_data_port-IsServed p.device (record d { data_req_seq = r })
        (record { distinct = h.distinct; served = h.served }) in
    record {
      tally = λ q. rw same (
          ground (
            arith,
            free,
            get-put r q p d.data_pending,
            get-del r q (put r p d.data_pending),
            nat_eq.beq_iff r q,
            handle_worker_report_response-one q r p (status_only 500),
          ));
      well =
          del-IsServed r (record d' { data_pending = put r p d'.data_pending })
            (put-IsServed r p d' port well);
    }

pub IsKept-idle : (d : Data) → IsServed d → IsKept d (d, [])
unfolding forwards answers
IsKept-idle d h = record { tally = λ r. refl; well = h }

pub on_data_port_message-IsKept :
    (p : Pending) (posts : Bool) (d : Data) → IsServed d → IsKept d (on_data_port_message p posts d)
unfolding on_data_port_message allocate_data_req_id
on_data_port_message-IsKept p posts d h =
    let rounds = length d.data_pending + 1 in
    elim (Option-cases (allocate_data_req_id d)) [
      | inl nothing ↦ rw (nothing, on_data_port_message) (IsKept-idle d h)
      | inr (r, given) ↦
          rw (given, on_data_port_message)
            (forwarding-IsKept r p posts d
              (allocate-fresh (rounds + rounds) d.data_req_seq d.data_pending r given) h)
    ]

pub on_runtime_response-IsKept :
    (device : String) (r : ℕ) (response : Response) (d : Data)
    → IsServed d
    → IsKept d (on_runtime_response device r response d)
unfolding on_runtime_response has
on_runtime_response-IsKept device r response d h = elim (Option-cases (get r d.data_pending)) [
  | inl nobody ↦ rw (nobody, on_runtime_response) (IsKept-idle d h)
  | inr (p, asked) ↦ elim (Bool-cases (p.device == device)) [
    | inr other ↦ rw (asked, on_runtime_response, other) (IsKept-idle d h)
    | inl same ↦
        let left : Data = record d { data_pending = del r d.data_pending } in
        rw (asked, on_runtime_response, same)
          (record {
            tally = λ q. rw (maybe_disconnect_runtime_data_port-pending device left) (
                ground (
                  arith,
                  asked,
                  get-del r q d.data_pending,
                  nat_eq.beq_iff r q,
                  handle_worker_report_response-one q r p response,
                ));
            well = maybe_disconnect_runtime_data_port-IsServed device left (del-IsServed r d h);
          })
  ]
]

pub on_runtime_disconnect-IsKept :
    (device : String) (d : Data) → IsServed d → IsKept d (on_runtime_disconnect device d)
unfolding on_runtime_disconnect is_served has
on_runtime_disconnect-IsKept device d h = record {
  tally = λ r.
      omega (arith, answer_where-answers r (λ p. p.device == device) 503 d.data_pending h.distinct);
  well = record {
    distinct = del_where-HasDistinctKeys (λ r p. p.device == device) d.data_pending h.distinct;
    served = λ r.
        rw (get-del_where (λ q p. p.device == device) r d.data_pending h.distinct)
          (kept (get r d.data_pending) (h.served r));
  };
}
  where
    kept :
        (o : Option Pending)
        → is_served o d.runtime_ports ≡ true
        → is_served
            (keep_if (λ p. if p.device == device then false else true) o)
            (del device d.runtime_ports)
          ≡ true
    kept none s = refl
    kept (some p) s = ground (
      arith,
      s,
      string_eq.beq_iff device p.device,
      string_eq.beq_iff p.device device,
      get-del device p.device d.runtime_ports,
    )

pub despawn_requests-IsKept :
    (key : PlaneKey) (d : Data) → IsServed d → IsKept d (despawn_requests key d)
unfolding despawn_requests is_served
despawn_requests-IsKept key d h =
    let left : Data = record d {
      data_pending = del_where (λ r p. same_key p.key key) d.data_pending;
      nm_planes = drop_plane key d.nm_planes;
    } in
    record {
      tally = λ r. rw (maybe_disconnect_runtime_data_port-pending key.0.1 left) (
          omega (
            arith,
            answer_where-answers r (λ p. same_key p.key key) 503 d.data_pending h.distinct,
          ));
      well = maybe_disconnect_runtime_data_port-IsServed key.0.1 left (record {
        distinct = del_where-HasDistinctKeys (λ r p. same_key p.key key) d.data_pending h.distinct;
        served = λ r. ground (
          arith,
          h.served r,
          get-del_where (λ q p. same_key p.key key) r d.data_pending h.distinct,
        );
      });
    }
