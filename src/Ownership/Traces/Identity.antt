-- ===== src/Ownership/Traces/Identity.antt =====
-- Owners are told apart by identity: each owner object in the state or captured by a close in flight is
-- older than the next one to be made.
pub mod Runs
use ff_web_hid.Prelude.{
  ℕ, ◌≤◌, String, List, [], ◌∷◌, ◌++◌, Option, none, some, true, ◌==◌, nat_eq, string_eq,
  if◌then◌else◌, ◌≡◌, refl, arith, ap, sym, subst, All, All-append, All-map, All-drop_middle,
}
use ff_web_hid.Prelude.Maps.{Map, get, del, get-del}
use ff_web_hid.Ownership.State.{State, Owner, get_in, inner}
use ff_web_hid.Ownership.Lifetimes.{register_frame_lifetime}
use ff_web_hid.Ownership.Opens.{register_device_tab, unregister_device_tab}
use ff_web_hid.Ownership.Sessions.{OwnerInfo, register_device_session, unregister_device_session}
use ff_web_hid.Ownership.Sessions.Lookup.{
  session, next_ref-register_device_session, next_ref-unregister_device_session, new_owner,
  no_session, session-register_device_session, session-unregister_device_session_any,
}
use ff_web_hid.Ownership.Cleanup.{Reply, Closing, start_close, finish_close, retry_orphan_cleanup}
use ff_web_hid.Ownership.Cleanup.Settling.{
  IsOlder, session-finish_close_younger, next_ref-finish_close, session-finish_close,
}
use ff_web_hid.Ownership.Purge.{
  purge_tab, purge_frame, purge_bridge, clear_authority_ownership, clear_device_ownership,
}
use ff_web_hid.Ownership.Purge.Same.{
  KeepsSessions, purge_tab-KeepsSessions, purge_frame-KeepsSessions, purge_bridge-KeepsSessions,
}
use ff_web_hid.Ownership.Purge.Captures.{
  Captures, purge_tab-Captures, purge_frame-Captures, purge_bridge-Captures,
  retry_orphan_cleanup-Captures,
}
use ff_web_hid.Ownership.Traces.{
  World, Step, Reach, start, opened, began, settled, page_closed, tab_opened, tab_released,
  frame_opened, tab_purged, frame_purged, bridge_purged, retried, reset, unplugged, here, next,
}

abbrev pub OwnersOlder : ℕ → State → Type 0
OwnersOlder n st = (d : ℕ) (k : String) → IsOlder n (session d k st)

abbrev pub ClosingsOlder : ℕ → List Closing → Type 0
ClosingsOlder n closings = All (λ c. IsOlder n c.owner_at_start) closings

pub record IsIdentified (w : World) : Type 0 where
  pub owners : OwnersOlder w.state.next_ref w.state
  pub closings : ClosingsOlder w.state.next_ref w.closing

IsOlder-mono : (n m : ℕ) → n ≤ m → (o : Option Owner) → IsOlder n o → IsOlder m o
IsOlder-mono n m h none _ = tt
IsOlder-mono n m h (some owner) l = omega arith

-- A state with the same sessions, and no fewer identities handed out.
pub IsIdentified-same :
    (w w' : World)
    → w'.state.device_sessions ≡ w.state.device_sessions
    → w.state.next_ref ≡ w'.state.next_ref
    → w'.closing ≡ w.closing
    → IsIdentified w
    → IsIdentified w'
IsIdentified-same w w' s n c h = record {
  owners = λ d k.
      subst (λ o. IsOlder w'.state.next_ref o) (ap (get_in d k) (sym s))
        (subst (λ m. IsOlder m (session d k w.state)) n (h.owners d k));
  closings = rw c (subst (λ m. ClosingsOlder m w.closing) n h.closings);
}

-- Closes that have captured owners of the state are started.
pub IsIdentified-start :
    (w : World) (st : State) (more : List Closing)
    → st.device_sessions ≡ w.state.device_sessions
    → st.next_ref ≡ w.state.next_ref
    → Captures w.state.device_sessions more
    → IsIdentified w
    → IsIdentified (record w { state = st; closing = w.closing ++ more })
IsIdentified-start w st more s n captured h = record {
  owners = λ d k.
      subst (λ t. IsOlder st.next_ref (get_in d k t)) (sym s)
        (subst (λ m. IsOlder m (session d k w.state)) (sym n) (h.owners d k));
  closings =
      subst (λ m. ClosingsOlder m (w.closing ++ more)) (sym n)
        (All-append (λ c. IsOlder w.state.next_ref c.owner_at_start) w.closing more h.closings
          (All-map _ (λ c. IsOlder w.state.next_ref c.owner_at_start)
            (λ c e. subst (λ o. IsOlder w.state.next_ref o) (sym e) (h.owners c.device_id c.token))
            more captured));
}

pub register_frame_lifetime-KeepsSessions :
    (tab : Option ℕ) (frame : String) (st : State)
    → KeepsSessions (register_frame_lifetime tab frame st).0 st
unfolding register_frame_lifetime
register_frame_lifetime-KeepsSessions none frame st = (refl, refl, refl)
register_frame_lifetime-KeepsSessions (some tab) frame st =
    (ground arith, ground arith, ground arith)

pub register_device_tab-KeepsSessions :
    (device : ℕ) (tab : Option ℕ) (st : State)
    → KeepsSessions (register_device_tab device tab st) st
unfolding register_device_tab
register_device_tab-KeepsSessions device none st = (refl, refl, refl)
register_device_tab-KeepsSessions device (some tab) st = (ground arith, ground arith, ground arith)

pub unregister_device_tab-KeepsSessions :
    (device : ℕ) (tab : Option ℕ) (st : State)
    → KeepsSessions (unregister_device_tab device tab st) st
unfolding unregister_device_tab
unregister_device_tab-KeepsSessions device none st = (refl, refl, refl)
unregister_device_tab-KeepsSessions device (some tab) st =
    (ground arith, ground arith, ground arith)

pub IsIdentified-opened :
    (w : World) (device : ℕ) (token : String) (info : OwnerInfo) (tab : ℕ)
    (owed : List (ℕ × String))
    → info.tab_id ≡ some tab
    → IsIdentified w
    → IsIdentified
        (record w { state = (register_device_session device token info w.state).0; owed = owed })
IsIdentified-opened w device token info tab owed e h =
    let r = register_device_session device token info w.state in
    let count = next_ref-register_device_session device tab token info w.state e in
    record {
      owners = λ d k. ground (
        arith,
        h.owners d k,
        count,
        session-register_device_session device d tab token k info w.state e,
      );
      closings =
          All-map _ (λ c. IsOlder r.0.next_ref c.owner_at_start)
            (λ c.
              IsOlder-mono w.state.next_ref r.0.next_ref (ground (arith, count)) c.owner_at_start)
            w.closing h.closings;
    }

pub IsIdentified-settled :
    (w : World) (before after : List Closing) (c : Closing) (reply : Reply)
    (owed : List (ℕ × String))
    → w.closing ≡ before ++ (c ∷ after)
    → IsIdentified w
    → IsIdentified (record {
      state = (finish_close c reply w.state).0;
      closing = before ++ after;
      owed = owed;
    })
IsIdentified-settled w before after c reply owed e h =
    let same = next_ref-finish_close c reply w.state in
    record {
      owners = λ d k. ground (arith, h.owners d k, same, session-finish_close c reply d k w.state);
      closings =
          subst (λ n. ClosingsOlder n (before ++ after)) (sym same)
            (All-drop_middle (λ c. IsOlder w.state.next_ref c.owner_at_start) before c after
              (subst (ClosingsOlder w.state.next_ref) e h.closings)).1;
    }

pub IsIdentified-page_closed :
    (w : World) (device : ℕ) (token : String) (owed : List (ℕ × String))
    → IsIdentified w
    → IsIdentified
        (record w { state = unregister_device_session device token w.state; owed = owed })
IsIdentified-page_closed w device token owed h =
    let same = next_ref-unregister_device_session device token w.state in
    record {
      owners = λ d k. ground (
        arith,
        h.owners d k,
        same,
        session-unregister_device_session_any device d token k w.state,
      );
      closings = subst (λ n. ClosingsOlder n w.closing) (sym same) h.closings;
    }

pub empty_session : (d : ℕ) (k : String) → get_in {V = Owner} d k [] ≡ none
unfolding get_in inner get
empty_session d k = refl

pub get_in-del :
    (device d : ℕ) (k : String) (t : Map ℕ (Map String Owner))
    → get_in d k (del device t) ≡ (if device == d then none else get_in d k t)
unfolding get_in inner
get_in-del device d k t = ground (arith, get-del device d t, no_session k)

pub start_close-Captures :
    (device : ℕ) (token : String) (st : State)
    → Captures st.device_sessions (start_close device token st ∷ [])
unfolding start_close
start_close-Captures device token st = (refl, tt)

pub IsIdentified-reset :
    (w : World)
    → IsIdentified w
    → IsIdentified (record w { state = clear_authority_ownership w.state; owed = [] })
unfolding clear_authority_ownership
IsIdentified-reset w h = record { owners = λ d k. rw (empty_session d k) tt; closings = h.closings }

pub IsIdentified-unplugged :
    (w : World) (device : ℕ) (owed : List (ℕ × String))
    → IsIdentified w
    → IsIdentified (record w { state = clear_device_ownership device w.state; owed = owed })
unfolding clear_device_ownership
IsIdentified-unplugged w device owed h = record {
  owners = λ d k. ground (arith, h.owners d k, get_in-del device d k w.state.device_sessions);
  closings = h.closings;
}

pub retry_orphan_cleanup-sessions :
    (st : State)
    → ((retry_orphan_cleanup st).0.device_sessions ≡ st.device_sessions)
      × ((retry_orphan_cleanup st).0.next_ref ≡ st.next_ref)
unfolding retry_orphan_cleanup
retry_orphan_cleanup-sessions st = (refl, refl)
