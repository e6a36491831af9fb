-- ===== src/Page/Calls/Kept/Reports.antt =====
-- The operations on reports and the calls of the interface keep the tallies.
use ff_web_hid.Prelude.{
  ℕ, ◌+◌, List, [], ◌∷◌, Option, none, some, Bool, true, false, not, ◌&&◌, ◌||◌, nat_eq,
  if◌then◌else◌, refl, arith, Option-cases, inl, inr,
}
use ff_web_hid.Prelude.Maps.{get, put, has, get-put, get-del}
use ff_web_hid.Bridge.Planes.{is_generation}
use ff_web_hid.Page.State.{Device, Effect, invalid_state_error, type_error, network_error, replied}
use ff_web_hid.Page.Ports.{is_some}
use ff_web_hid.Page.Reports.{
  Collections, validate_report_id, Sending, unavailable, promise_of, in_page_request,
  data_port_request, send_on_port, send_device_request, handle_report_result,
}
use ff_web_hid.Page.Calls.{reply_sending, send_report}
use ff_web_hid.Page.Calls.Kept.{
  total, IsTable-later, IsTable-put, IsTable-del, IsWell, IsKept, IsKept-then, IsKept-if, are_quiet,
  IsKept-idle,
}

in_page_request-IsKept : (sends : Bool) (d : Device) → IsWell d → IsKept d (in_page_request sends d)
unfolding in_page_request total has
in_page_request-IsKept true d h = record {
  tally = λ r. ground (
    arith,
    get-put (d.next_req_id + 1) r d.device_id d.in_page_pending,
    h.in_page.fresh (d.next_req_id + 1),
    nat_eq.beq_iff (d.next_req_id + 1) r,
  );
  numbered = λ r. ground arith;
  ports = λ p. omega arith;
  well = record {
    on_port =
        IsTable-later d.next_req_id (d.next_req_id + 1) d.data_pending (omega arith) h.on_port;
    in_page = IsTable-put d.next_req_id d.device_id d.in_page_pending h.in_page;
    calm = h.calm;
  };
}
in_page_request-IsKept false d h = record {
  tally = λ r. ground (
    arith,
    get-put (d.next_req_id + 1) r d.device_id d.in_page_pending,
    get-del (d.next_req_id + 1) r (put (d.next_req_id + 1) d.device_id d.in_page_pending),
    h.in_page.fresh (d.next_req_id + 1),
    nat_eq.beq_iff (d.next_req_id + 1) r,
  );
  numbered = λ r. ground arith;
  ports = λ p. omega arith;
  well = record {
    on_port =
        IsTable-later d.next_req_id (d.next_req_id + 1) d.data_pending (omega arith) h.on_port;
    in_page =
        IsTable-del (d.next_req_id + 1) (d.next_req_id + 1)
          (put (d.next_req_id + 1) d.device_id d.in_page_pending)
          (IsTable-put d.next_req_id d.device_id d.in_page_pending h.in_page);
    calm = h.calm;
  };
}

data_port_request-IsKept :
    (posts : Bool) (port : ℕ) (d : Device) → IsWell d → IsKept d (data_port_request posts port d)
unfolding data_port_request total has
data_port_request-IsKept true port d h = record {
  tally = λ r. ground (
    arith,
    get-put (d.next_req_id + 1) r d.plane_generation d.data_pending,
    h.on_port.fresh (d.next_req_id + 1),
    nat_eq.beq_iff (d.next_req_id + 1) r,
  );
  numbered = λ r. ground arith;
  ports = λ p. omega arith;
  well = record {
    on_port = IsTable-put d.next_req_id d.plane_generation d.data_pending h.on_port;
    in_page =
        IsTable-later d.next_req_id (d.next_req_id + 1) d.in_page_pending (omega arith) h.in_page;
    calm = h.calm;
  };
}
data_port_request-IsKept false port d h = record {
  tally = λ r. ground (
    arith,
    get-put (d.next_req_id + 1) r d.plane_generation d.data_pending,
    get-del (d.next_req_id + 1) r (put (d.next_req_id + 1) d.plane_generation d.data_pending),
    h.on_port.fresh (d.next_req_id + 1),
    nat_eq.beq_iff (d.next_req_id + 1) r,
  );
  numbered = λ r. ground arith;
  ports = λ p. omega arith;
  well = record {
    on_port =
        IsTable-del (d.next_req_id + 1) (d.next_req_id + 1)
          (put (d.next_req_id + 1) d.plane_generation d.data_pending)
          (IsTable-put d.next_req_id d.plane_generation d.data_pending h.on_port);
    in_page =
        IsTable-later d.next_req_id (d.next_req_id + 1) d.in_page_pending (omega arith) h.in_page;
    calm = h.calm;
  };
}

-- What is sent is kept, and so is a throw with the reply that is made of it.
pub record IsSent (d : Device) (x : (Device × List Effect) × Sending) : Type 0 where
  pub kept : IsKept d x.0

IsSent-if :
    (d : Device) (b : Bool) (x y : (Device × List Effect) × Sending)
    → IsSent d x
    → IsSent d y
    → IsSent d (if b then x else y)
IsSent-if d true x y h k = h
IsSent-if d false x y h k = k

send_on_port-IsSent : (posts : Bool) (d : Device) → IsWell d → IsSent d (send_on_port posts d)
unfolding send_on_port are_quiet
send_on_port-IsSent posts d h = on_port d.data_port
  where
    on_port :
        (o : Option ℕ)
        → IsSent d (elim o [
          | none ↦ ((d, []), unavailable)
          | some port ↦
              if is_generation d.plane_generation d.data_port_generation
              then (data_port_request posts port d, promise_of (d.next_req_id + 1))
              else ((d, []), unavailable)
        ])
    on_port none = record { kept = IsKept-idle d [] refl h }
    on_port (some port) =
        IsSent-if d (is_generation d.plane_generation d.data_port_generation)
          (data_port_request posts port d, promise_of (d.next_req_id + 1)) ((d, []), unavailable)
          (record { kept = data_port_request-IsKept posts port d h })
          (record { kept = IsKept-idle d [] refl h })

send_device_request-IsSent :
    (is_open sends posts : Bool) (d : Device)
    → IsWell d
    → IsSent d (send_device_request is_open sends posts d)
unfolding send_device_request are_quiet
send_device_request-IsSent is_open sends posts d h =
    IsSent-if d (d.plane_unavailable || not d.plane_ready) ((d, []), unavailable)
      (if is_some d.in_page_plane && is_open
        then (in_page_request sends d, promise_of (d.next_req_id + 1))
        else send_on_port posts d)
      (record { kept = IsKept-idle d [] refl h })
      (IsSent-if d (is_some d.in_page_plane && is_open)
        (in_page_request sends d, promise_of (d.next_req_id + 1)) (send_on_port posts d)
        (record { kept = in_page_request-IsKept sends d h }) (send_on_port-IsSent posts d h))

pub send_report-IsKept :
    (report_id : ℕ) (collections : Collections) (is_open sends posts : Bool) (d : Device)
    → IsWell d
    → IsKept d (send_report report_id collections is_open sends posts d)
unfolding send_report are_quiet
send_report-IsKept report_id collections is_open sends posts d h =
    IsKept-if d (not d.opened) (d, replied invalid_state_error ∷ [])
      (elim (validate_report_id report_id collections) [
        | none ↦ (d, replied type_error ∷ [])
        | some normalized_report_id ↦ reply_sending (send_device_request is_open sends posts d)
      ])
      (IsKept-idle d (replied invalid_state_error ∷ []) refl h)
      (validated (validate_report_id report_id collections))
  where
    sent_one : (x : (Device × List Effect) × Sending) → IsSent d x → IsKept d (reply_sending x)
    sent_one (r, promise_of req_id) s = s.kept
    sent_one ((e, effects), unavailable) s =
        IsKept-then d (e, effects) (e, replied network_error ∷ []) s.kept
          (IsKept-idle e (replied network_error ∷ []) refl s.kept.well)

    validated :
        (o : Option ℕ)
        → IsKept d (elim o [
          | none ↦ (d, replied type_error ∷ [])
          | some normalized_report_id ↦ reply_sending (send_device_request is_open sends posts d)
        ])
    validated none = IsKept-idle d (replied type_error ∷ []) refl h
    validated (some normalized_report_id) =
        sent_one (send_device_request is_open sends posts d)
          (send_device_request-IsSent is_open sends posts d h)

pub handle_report_result-IsKept :
    (req_id : ℕ) (has_error : Bool) (d : Device)
    → IsWell d
    → IsKept d (handle_report_result req_id has_error d)
unfolding handle_report_result total has are_quiet
handle_report_result-IsKept req_id has_error d h = elim (Option-cases (get req_id d.data_pending)) [
  | inl nobody ↦ rw (nobody, handle_report_result) (IsKept-idle d [] refl h)
  | inr (generation, asked) ↦
      rw (asked, handle_report_result)
        (record {
          tally =
              λ r. ground (arith, asked, get-del req_id r d.data_pending, nat_eq.beq_iff req_id r);
          numbered = λ r. omega arith;
          ports = λ p. omega arith;
          well = record {
            on_port = IsTable-del d.next_req_id req_id d.data_pending h.on_port;
            in_page = h.in_page;
            calm = h.calm;
          };
        })
]
