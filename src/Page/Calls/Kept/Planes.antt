-- ===== src/Page/Calls/Kept/Planes.antt =====
-- The operations on a plane in the page keep the tallies.
use ff_web_hid.Prelude.{
  ℕ, String, List, [], ◌∷◌, ◌++◌, Option, none, some, Bool, true, false, not, ◌&&◌, ◌||◌, ltb, leb,
  length, ◌==◌, nat_eq, string_eq, if◌then◌else◌, ◌≡◌, refl, arith, Option-cases, Bool-cases, inl,
  inr,
}
use ff_web_hid.Prelude.Maps.{Map, get, has, keys_where, get-del}
use ff_web_hid.Prelude.Bytes.{byte_at, get_uint32}
use ff_web_hid.Bridge.Planes.{is_generation}
use ff_web_hid.Wire.Control.{handle_control_response, settle_entry}
use ff_web_hid.Page.State.{Device, failed, Effect, plane_answered, plane_closed, plane_auth_failed}
use ff_web_hid.Page.Ports.{is_some}
use ff_web_hid.Page.Planes.{
  handle_data_plane_connect, reject_in_page_pending, on_plane_closed, on_plane_auth_failed,
  handle_data_plane_disconnect, answer_in_page, push_in_page_batch, on_plane_binary,
}
use ff_web_hid.Page.Calls.Kept.{
  total, IsTable, IsTable-del, IsTable-del_where, IsWell, IsKept, IsKept-then, IsKept-if, are_quiet,
  IsKept-quiet, IsKept-idle,
}
use ff_web_hid.Page.Calls.Kept.Ports.{total-settle_all, settles-keys_where}

pub handle_data_plane_connect-IsKept :
    (generation : ℕ) (d : Device) → IsWell d → IsKept d (handle_data_plane_connect generation d)
unfolding handle_data_plane_connect are_quiet
handle_data_plane_connect-IsKept generation d h =
    let fresh : Device = record d {
      plane_generation = generation;
      plane_ready = false;
      plane_unavailable = true;
      plane_unavailable_generation = none;
      in_page_plane = some generation;
    } in
    IsKept-if d
      (ltb generation d.plane_generation || (generation == d.plane_generation && d.plane_ready))
      (d, plane_answered false ∷ []) (fresh, []) (IsKept-idle d (plane_answered false ∷ []) refl h)
      (IsKept-quiet d fresh [] (record { on_port = refl; in_page = refl; next = refl; port = refl })
        refl refl h)

reject_in_page_pending-IsKept : (d : Device) → IsWell d → IsKept d (reject_in_page_pending d)
unfolding reject_in_page_pending
reject_in_page_pending-IsKept d h =
    let gone = keys_where (λ i owner. owner == d.device_id) d.in_page_pending in
    record {
      tally = λ r. omega (
        arith,
        total-settle_all r failed gone,
        settles-keys_where r failed (λ i owner. owner == d.device_id) d.in_page_pending
            h.in_page.distinct,
      );
      numbered = λ r. omega (arith, total-settle_all r failed gone);
      ports = λ p. omega (arith, total-settle_all p failed gone);
      well = record {
        on_port = h.on_port;
        in_page =
            IsTable-del_where d.next_req_id (λ i owner. owner == d.device_id) d.in_page_pending
              h.in_page;
        calm = h.calm;
      };
    }

-- The plane is dropped, before or after its requests are rejected.
dropping-IsKept :
    (d : Device) (effects : List Effect)
    → are_quiet effects ≡ true
    → IsWell d
    → IsKept d (record d { in_page_plane = none }, effects)
dropping-IsKept d effects quiet h =
    IsKept-quiet d (record d { in_page_plane = none }) effects
      (record { on_port = refl; in_page = refl; next = refl; port = refl }) h.calm quiet h

pub on_plane_closed-IsKept :
    (generation : ℕ) (will_reconnect : Bool) (d : Device)
    → IsWell d
    → IsKept d (on_plane_closed generation will_reconnect d)
unfolding on_plane_closed are_quiet
on_plane_closed-IsKept generation will_reconnect d h =
    let r = reject_in_page_pending d in
    let rejects = reject_in_page_pending-IsKept d h in
    let gone : Device = record r.0 { in_page_plane = none } in
    IsKept-if d (not (is_generation generation d.in_page_plane)) (d, [])
      (if will_reconnect then r else (gone, r.1 ++ (plane_closed generation ∷ [])))
      (IsKept-idle d [] refl h)
      (IsKept-if d will_reconnect r (gone, r.1 ++ (plane_closed generation ∷ [])) rejects
        (IsKept-then d r (gone, plane_closed generation ∷ []) rejects
          (dropping-IsKept r.0 (plane_closed generation ∷ []) refl rejects.well)))

pub on_plane_auth_failed-IsKept :
    (generation : ℕ) (d : Device) → IsWell d → IsKept d (on_plane_auth_failed generation d)
unfolding on_plane_auth_failed are_quiet
on_plane_auth_failed-IsKept generation d h =
    let gone : Device = record d { in_page_plane = none } in
    let r = reject_in_page_pending gone in
    let drops = dropping-IsKept d [] refl h in
    let rejects = reject_in_page_pending-IsKept gone drops.well in
    IsKept-if d (not (is_generation generation d.in_page_plane)) (d, [])
      (r.0, r.1 ++ (plane_auth_failed generation ∷ [])) (IsKept-idle d [] refl h)
      (IsKept-then d (gone, []) (r.0, r.1 ++ (plane_auth_failed generation ∷ [])) drops
        (IsKept-then gone r (r.0, plane_auth_failed generation ∷ []) rejects
          (IsKept-idle r.0 (plane_auth_failed generation ∷ []) refl rejects.well)))

pub handle_data_plane_disconnect-IsKept :
    (generation : Option ℕ) (d : Device)
    → IsWell d
    → IsKept d (handle_data_plane_disconnect generation d)
unfolding handle_data_plane_disconnect are_quiet
handle_data_plane_disconnect-IsKept generation d h =
    let gone : Device = record d { in_page_plane = none } in
    let drops = dropping-IsKept d [] refl h in
    IsKept-if d
      (is_some d.in_page_plane
        && elim generation [ none ↦ true | some g ↦ is_generation g d.in_page_plane ])
      (reject_in_page_pending gone) (d, [])
      (IsKept-then d (gone, []) (reject_in_page_pending gone) drops
        (reject_in_page_pending-IsKept gone drops.well))
      (IsKept-idle d [] refl h)

handle_control_response-IsTable :
    (next : ℕ) (batch : List ℕ) (m : Map ℕ String)
    → IsTable next m
    → IsTable next (handle_control_response batch m).1
unfolding handle_control_response settle_entry
handle_control_response-IsTable next batch m t = elim (Bool-cases (ltb (length batch) 6)) [
  | inl short ↦ rw (short, handle_control_response) t
  | inr long ↦ elim (Option-cases (get (get_uint32 batch 1) m)) [
    | inl nobody ↦ rw (long, handle_control_response, nobody, settle_entry) t
    | inr (owner, asked) ↦
        rw (long, handle_control_response, asked, settle_entry)
          (IsTable-del next (get_uint32 batch 1) m t)
  ]
]

answer_in_page-IsKept : (batch : List ℕ) (d : Device) → IsWell d → IsKept d (answer_in_page batch d)
unfolding answer_in_page handle_control_response settle_entry total has
answer_in_page-IsKept batch d h = record {
  tally = λ r. ground (
    arith,
    get-del (get_uint32 batch 1) r d.in_page_pending,
    nat_eq.beq_iff (get_uint32 batch 1) r,
  );
  numbered = λ r. ground arith;
  ports = λ p. ground arith;
  well = record {
    on_port = h.on_port;
    in_page = handle_control_response-IsTable d.next_req_id batch d.in_page_pending h.in_page;
    calm = h.calm;
  };
}

pub on_plane_binary-IsKept :
    (generation : ℕ) (batch : List ℕ) (d : Device)
    → IsWell d
    → IsKept d (on_plane_binary generation batch d)
unfolding on_plane_binary push_in_page_batch are_quiet
on_plane_binary-IsKept generation batch d h =
    let offset = if ltb 0 (length batch) && (byte_at batch 0 == 0) then 1 else 0 in
    IsKept-if d (not (is_generation generation d.in_page_plane)) (d, [])
      (if ltb 0 (length batch) && leb 0x81 (byte_at batch 0)
        then answer_in_page batch d
        else (d, push_in_page_batch batch offset))
      (IsKept-idle d [] refl h)
      (IsKept-if d (ltb 0 (length batch) && leb 0x81 (byte_at batch 0)) (answer_in_page batch d)
        (d, push_in_page_batch batch offset) (answer_in_page-IsKept batch d h)
        (IsKept-idle d (push_in_page_batch batch offset) (ground arith) h))
