-- ===== src/Page/Calls/Kept/Ports.antt =====
-- The operations on the data port and the planes keep the tallies.
use ff_web_hid.Prelude.{
  ℕ, ◌+◌, List, [], ◌∷◌, ◌++◌, Option, none, some, Bool, true, false, ◌&&◌, nat_eq, string_eq,
  if◌then◌else◌, ◌≡◌, refl, arith, Option-cases, inl, inr,
}
use ff_web_hid.Prelude.Maps.{Map, get, has, del_where, keys_where, HasDistinctKeys}
use ff_web_hid.Bridge.Planes.{is_generation}
use ff_web_hid.Page.State.{Device, ReportOutcome, failed, closed}
use ff_web_hid.Page.Ports.{
  is_some, settle_all, reject_pending_reports, detach_data_port, close_data_port, drop_data_port,
  wire_fresh_port, wire_device_port,
}
use ff_web_hid.Page.Calls.Kept.{
  one_if, makes, settles, opens, closes, total, IsTable-nil, IsWell, IsKept, IsKept-then, IsKept-if,
  IsKept-split, are_quiet, IsKept-quiet, IsKept-idle,
}

pub total-settle_all :
    (n : ℕ) (outcome : ReportOutcome) (rs : List ℕ)
    → (total (makes n) (settle_all outcome rs) ≡ 0)
      × (total (opens n) (settle_all outcome rs) ≡ 0)
      × (total (closes n) (settle_all outcome rs) ≡ 0)
unfolding total settle_all
total-settle_all n outcome [] = (refl, refl, refl)
total-settle_all n outcome (r ∷ rs) =
    let (a, b, c) = total-settle_all n outcome rs in (omega arith, omega arith, omega arith)

-- Each request whose entry is dropped is settled once.
pub settles-keys_where :
    {V : Type 0} (r : ℕ) (outcome : ReportOutcome) (p : ℕ → V → Bool) (m : Map ℕ V)
    → HasDistinctKeys m
    → total (settles r) (settle_all outcome (keys_where p m)) + one_if (has r (del_where p m))
      ≡ one_if (has r m)
unfolding total settle_all keys_where del_where has get
settles-keys_where r outcome p [] h = refl
settles-keys_where r outcome p ((i, w) ∷ m) (h, hs) =
    ground (arith, settles-keys_where r outcome p m hs, nat_eq.beq_iff i r)

pub del_where-all : {V : Type 0} (m : Map ℕ V) → del_where (λ r v. true) m ≡ []
unfolding del_where
del_where-all [] = refl
del_where-all ((r, v) ∷ m) = del_where-all m

pub reject_pending_reports-IsKept : (d : Device) → IsWell d → IsKept d (reject_pending_reports d)
unfolding reject_pending_reports has get
reject_pending_reports-IsKept d h = record {
  tally = λ r. ground (
    arith,
    total-settle_all r failed (keys_where (λ i g. true) d.data_pending),
    settles-keys_where r failed (λ i g. true) d.data_pending h.on_port.distinct,
    del_where-all d.data_pending,
  );
  numbered =
      λ r. omega (arith, total-settle_all r failed (keys_where (λ i g. true) d.data_pending));
  ports = λ p. omega (arith, total-settle_all p failed (keys_where (λ i g. true) d.data_pending));
  well = record { on_port = IsTable-nil d.next_req_id; in_page = h.in_page; calm = h.calm };
}

-- The port is closed, and none is left.
pub closing-IsKept :
    (d d' : Device) (p : ℕ)
    → d.data_port ≡ some p
    → d'.data_port ≡ none
    → d'.data_pending ≡ d.data_pending
    → d'.in_page_pending ≡ d.in_page_pending
    → d'.next_req_id ≡ d.next_req_id
    → IsWell d'
    → IsKept d (d', closed p ∷ [])
unfolding total
closing-IsKept d d' p had gone same same' next well = record {
  tally = λ r. rw (same, same') (omega arith);
  numbered = λ r. rw next (omega arith);
  ports = λ q. rw (had, gone) (omega arith);
  well = well;
}

pub detach_data_port-IsKept : (d : Device) → IsWell d → IsKept d (detach_data_port d)
unfolding detach_data_port are_quiet
detach_data_port-IsKept d h = elim (Option-cases d.data_port) [
  | inl free ↦
      rw (free, detach_data_port)
        (IsKept-quiet (record d { data_port = none }) (record d { data_port_generation = none }) []
          (record { on_port = refl; in_page = refl; next = refl; port = free }) h.calm refl
          (record { on_port = h.on_port; in_page = h.in_page; calm = h.calm }))
  | inr (p, had) ↦
      rw (had, detach_data_port)
        (closing-IsKept (record d { data_port = some p })
          (record d { data_port = none; data_port_generation = none }) p refl refl refl refl refl
          (record { on_port = h.on_port; in_page = h.in_page; calm = h.calm }))
]

pub close_data_port-IsKept : (d : Device) → IsWell d → IsKept d (close_data_port d)
unfolding close_data_port are_quiet
close_data_port-IsKept d h = elim (Option-cases d.data_port) [
  | inl free ↦
      rw (free, close_data_port)
        (IsKept-quiet (record d { data_port = none }) d []
          (record { on_port = refl; in_page = refl; next = refl; port = free }) h.calm refl
          (record { on_port = h.on_port; in_page = h.in_page; calm = h.calm }))
  | inr (p, had) ↦
      rw (had, close_data_port)
        (closing-IsKept (record d { data_port = some p })
          (record d { data_port = none; data_port_generation = none }) p refl refl refl refl refl
          (record { on_port = h.on_port; in_page = h.in_page; calm = h.calm }))
]

pub drop_data_port-IsKept : (d : Device) → IsWell d → IsKept d (drop_data_port d)
unfolding drop_data_port are_quiet
drop_data_port-IsKept d h = elim (Option-cases d.data_port) [
  | inl free ↦
      rw (free, drop_data_port)
        (IsKept-quiet (record d { data_port = none }) d []
          (record { on_port = refl; in_page = refl; next = refl; port = free }) h.calm refl
          (record { on_port = h.on_port; in_page = h.in_page; calm = h.calm }))
  | inr (p, had) ↦
      rw (had, drop_data_port)
        (closing-IsKept (record d { data_port = some p }) (record d { data_port = none }) p refl
          refl refl refl refl (record { on_port = h.on_port; in_page = h.in_page; calm = h.calm }))
]

pub wire_fresh_port-IsKept :
    (has_worker : Bool) (generation : ℕ) (d : Device)
    → IsWell d
    → d.data_port ≡ none
    → IsKept d (wire_fresh_port has_worker generation d)
unfolding wire_fresh_port total
wire_fresh_port-IsKept has_worker generation d h free = record {
  tally = λ r. omega arith;
  numbered = λ r. omega arith;
  ports = λ p. rw free (omega arith);
  well = record { on_port = h.on_port; in_page = h.in_page; calm = refl };
}

pub detach_data_port-none : (d : Device) → (detach_data_port d).0.data_port ≡ none
unfolding detach_data_port
detach_data_port-none d = ground arith

pub is_some-none : (o : Option ℕ) → is_some o ≡ false → o ≡ none
is_some-none none h = refl
is_some-none (some p) h = absurd (ground arith)

pub wire_device_port-IsKept :
    (has_worker : Bool) (generation : ℕ) (d : Device)
    → IsWell d
    → IsKept d (wire_device_port has_worker generation d)
unfolding wire_device_port are_quiet
wire_device_port-IsKept has_worker generation d h =
    let r = reject_pending_reports d in
    let t = detach_data_port r.0 in
    let w = wire_fresh_port has_worker generation t.0 in
    let rejects = reject_pending_reports-IsKept d h in
    let detaches = detach_data_port-IsKept r.0 rejects.well in
    let wires =
      wire_fresh_port-IsKept has_worker generation t.0 detaches.well (detach_data_port-none r.0) in
    IsKept-if d (is_some d.data_port && is_generation generation d.data_port_generation) (d, [])
      (if is_some d.data_port
        then (w.0, r.1 ++ (t.1 ++ w.1))
        else wire_fresh_port has_worker generation d)
      (IsKept-idle d [] refl h)
      (IsKept-split d (is_some d.data_port) (w.0, r.1 ++ (t.1 ++ w.1))
        (wire_fresh_port has_worker generation d)
        (λ had. IsKept-then d r (w.0, t.1 ++ w.1) rejects (IsKept-then r.0 t w detaches wires))
        (λ free. wire_fresh_port-IsKept has_worker generation d h (is_some-none d.data_port free)))
