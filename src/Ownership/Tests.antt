-- ===== src/Ownership/Tests.antt =====
-- The ownership of two sessions of device 9 by tab 3, at a concrete state and in a concrete run.
use ff_web_hid.Prelude.{◌-◌, [], ◌∷◌, none, some, true, nat_eq, string_eq, length, ◌≡◌, refl, arith}
use Prim.Native.String.{◌++◌ as concat}
use text.Mathlib.Text.{starts_with}
use ff_web_hid.Prelude.Maps.{get, put, holds}
use ff_web_hid.Ownership.State.{State, empty, get_in, put_in}
use ff_web_hid.Ownership.State.Tables.{IsTable}
use ff_web_hid.Ownership.Lifetimes.{register_frame_lifetime, is_frame_lifetime_active}
use ff_web_hid.Ownership.Opens.{register_device_tab}
use ff_web_hid.Ownership.Opens.Counts.{opens}
use ff_web_hid.Ownership.Sessions.{
  OwnerInfo, frame_of, register_device_session, collect_sessions, collect_device_sessions_for_frame,
  owned_by_tab, owned_by_frame, owned_by_bridge, is_session_owned_by,
}
use ff_web_hid.Ownership.Sessions.Lookup.{session, new_owner}
use ff_web_hid.Ownership.Sessions.Owners.{is_session_owned_by-register}
use ff_web_hid.Ownership.Cleanup.{status, start_close, finish_close}
use ff_web_hid.Ownership.Purge.{purge_tab, purge_frame, purge_bridge}
use ff_web_hid.Ownership.Purge.Devices.{asks}
use ff_web_hid.Ownership.Purge.Tab.{purge_tab_effect}
use ff_web_hid.Ownership.Purge.Frame.{purge_frame_effect}
use ff_web_hid.Ownership.Purge.Bridge.{purge_bridge_effect, retired_if}
use ff_web_hid.Ownership.Traces.{World, Reach, start, opened, began, tab_opened, here, next}
use ff_web_hid.Ownership.Traces.Identity.Runs.{registered_session_survives}
use ff_web_hid.Ownership.Traces.Accounted.{owes, is_kept}
use ff_web_hid.Ownership.Traces.Accounted.Runs.{sessions_accounted}
use ff_web_hid.Ownership.Traces.Shape.{IsWellFormed, Reach-IsWellFormed}

abbrev page : OwnerInfo
page = record {
  tab_id = some 3;
  origin = "https://a.test";
  frame_key = "b1/f1";
  bridge_instance_id = "b1";
  client_key = "c1";
}

-- Tab 3 has opened device 9 and its session is registered.
abbrev held : State
held = (register_device_session 9 "s1" page (register_device_tab 9 (some 3) empty)).0

-- A close of the session has begun.
abbrev held_closing : World
held_closing = record {
  state = held;
  closing = start_close 9 "s1" held ∷ [];
  owed = (9, "s1") ∷ [];
}

run : Reach start held_closing
unfolding register_device_session register_device_tab is_frame_lifetime_active frame_of get_in
    put_in get put register_frame_lifetime
run = next (next (next here (tab_opened 9 (some 3))) (opened 9 "s1" page 3 refl)) (began 9 "s1")

held_tables : IsTable held.device_sessions × IsTable held.device_tabs
held_tables = let h = Reach-IsWellFormed run in (h.sessions, h.tabs.table)

Reach-IsWellFormed_example : IsWellFormed held
Reach-IsWellFormed_example = Reach-IsWellFormed run

registered_again : (register_device_session 9 "s1" page held).1 ≡ true
unfolding register_device_session register_device_tab is_frame_lifetime_active frame_of get_in
    put_in get put register_frame_lifetime
registered_again = refl

registered_session_survives_example :
    session 9 "s1"
      (finish_close
        (start_close 9 "s1" held)
        (status 204)
        (register_device_session 9 "s1" page held).0).0
    ≡ some (new_owner 3 page held)
registered_session_survives_example =
    registered_session_survives [] [] (start_close 9 "s1" held) (status 204) 9 "s1" page 3 run refl
      refl registered_again

sessions_accounted_example : is_kept 9 "s1" held ≡ true
sessions_accounted_example = sessions_accounted 9 "s1" run (unfold owes in refl)

purge_tab_effect_example :
    (let r = purge_tab (some 3) held in
      (opens 9 3 r.0 ≡ 0)
      × (asks 9 "s1" r.1 ≡ holds (owned_by_tab 3) (session 9 "s1" held))
      × (session 9 "s1" r.0 ≡ session 9 "s1" held)
      × (get 3 r.0.frame_lifetimes ≡ none))
purge_tab_effect_example = purge_tab_effect 3 9 3 "s1" held held_tables.0 held_tables.1

purge_frame_effect_example :
    (let r = purge_frame (some 3) "b1/f1" held in
      (opens 9 3 r.0
        ≡ opens 9 3 held - length (collect_device_sessions_for_frame 9 (some 3) "b1/f1" held))
      × (asks 9 "s1" r.1 ≡ holds (owned_by_frame 3 "b1/f1") (session 9 "s1" held))
      × (session 9 "s1" r.0 ≡ session 9 "s1" held)
      × (get_in 3 "b1/f1" r.0.frame_lifetimes ≡ some 0))
purge_frame_effect_example =
    purge_frame_effect 3 9 3 "s1" "b1/f1" held (omega arith) (λ e. cc) held_tables.0 held_tables.1

purge_bridge_effect_example :
    (let r = purge_bridge (some 3) "b1" held in
      (opens 9 3 r.0 ≡ opens 9 3 held - length (collect_sessions (owned_by_bridge 3 "b1") 9 held))
      × (asks 9 "s1" r.1 ≡ holds (owned_by_bridge 3 "b1") (session 9 "s1" held))
      × (session 9 "s1" r.0 ≡ session 9 "s1" held)
      × (get_in 3 "b1/f1" r.0.frame_lifetimes
          ≡ retired_if
              (starts_with "b1/f1" (concat "b1" "/"))
              (get_in 3 "b1/f1" held.frame_lifetimes)))
purge_bridge_effect_example =
    purge_bridge_effect 3 9 3 3 "s1" "b1" "b1/f1" held (omega arith) (λ e. cc) held_tables.0
      held_tables.1

is_session_owned_by-register_example :
    is_session_owned_by 9 "s1" "https://a.test"
      (some 3)
      (some "b1/f1")
      (some "c1")
      (register_device_session 9 "s1" page held).0
    ≡ true
unfolding frame_of
is_session_owned_by-register_example =
    is_session_owned_by-register 9 3 3 "s1" "https://a.test" "b1/f1" "c1" page held refl
      registered_again
