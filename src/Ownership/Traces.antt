-- ===== src/Ownership/Traces.antt =====
-- The background over time. Between the two halves of a close any other task may run, so a run is a
-- sequence of steps over the ownership state and the closes in flight.
pub mod Shape
pub mod Identity
pub mod Accounted
use ff_web_hid.Prelude.{
  ℕ, String, List, [], ◌∷◌, ◌++◌, Option, none, some, Bool, false, ◌||◌, ◌==◌, nat_eq, string_eq,
  if◌then◌else◌, ◌≡◌,
}
use ff_web_hid.Prelude.Maps.{get}
use ff_web_hid.Ownership.State.{State, Orphan, empty}
use ff_web_hid.Ownership.Lifetimes.{register_frame_lifetime}
use ff_web_hid.Ownership.Opens.{register_device_tab, unregister_device_tab}
use ff_web_hid.Ownership.Sessions.{OwnerInfo, register_device_session, unregister_device_session}
use ff_web_hid.Ownership.Cleanup.{
  Reply, is_cleanup_confirmed, Closing, start_close, finish_close, retry_orphan_cleanup,
}
use ff_web_hid.Ownership.Purge.{
  purge_tab, purge_frame, purge_bridge, clear_authority_ownership, clear_device_ownership,
}

-- `owed` is not in the program: it lists the sessions that were registered and whose end the daemon has
-- not reported.
pub record World : Type 0 where
  pub state : State
  pub closing : List Closing
  pub owed : List (ℕ × String)

abbrev pub start : World
start = record { state = empty; closing = []; owed = [] }

pub forgive_token : String → List (ℕ × String) → List (ℕ × String)
forgive_token token [] = []
forgive_token token ((d, k) ∷ owed) =
    if k == token then forgive_token token owed else (d, k) ∷ forgive_token token owed

-- An orphan that is queued under a device.
abbrev pub is_orphan_of : ℕ → Option Orphan → Bool
is_orphan_of device none = false
is_orphan_of device (some entry) = entry.device_id == device

pub forgive_device : ℕ → State → List (ℕ × String) → List (ℕ × String)
forgive_device device st [] = []
forgive_device device st ((d, k) ∷ owed) =
    if d == device || is_orphan_of device (get k st.orphan_cleanup)
    then forgive_device device st owed
    else (d, k) ∷ forgive_device device st owed

-- `opened` is the registration of handleOpen; `began` and `settled` are the halves of a close;
-- `page_closed` is handleClose once the daemon has answered that the session is closed; `reset` is a
-- Native Messaging port that is retired, and `unplugged` a device that the daemon reports gone, which end
-- their sessions in the daemon.
pub data Step (w : World) : World → Type 0 where
  opened :
      (device : ℕ) (token : String) (info : OwnerInfo) (tab : ℕ)
      → info.tab_id ≡ some tab
      → Step w (record w {
        state = (register_device_session device token info w.state).0;
        owed =
            if (register_device_session device token info w.state).1
            then (device, token) ∷ w.owed
            else w.owed;
      })
  began :
      (device : ℕ) (token : String)
      → Step w (record w { closing = w.closing ++ (start_close device token w.state ∷ []) })
  settled :
      (before after : List Closing) (c : Closing) (reply : Reply)
      → w.closing ≡ before ++ (c ∷ after)
      → Step w (record {
        state = (finish_close c reply w.state).0;
        closing = before ++ after;
        owed = if is_cleanup_confirmed reply then forgive_token c.token w.owed else w.owed;
      })
  page_closed :
      (device : ℕ) (token : String)
      → Step w (record w {
        state = unregister_device_session device token w.state;
        owed = forgive_token token w.owed;
      })
  tab_opened :
      (device : ℕ) (tab : Option ℕ)
      → Step w (record w { state = register_device_tab device tab w.state })
  tab_released :
      (device : ℕ) (tab : Option ℕ)
      → Step w (record w { state = unregister_device_tab device tab w.state })
  frame_opened :
      (tab : Option ℕ) (frame : String)
      → Step w (record w { state = (register_frame_lifetime tab frame w.state).0 })
  tab_purged :
      (tab : Option ℕ)
      → Step w (record w {
        state = (purge_tab tab w.state).0;
        closing = w.closing ++ (purge_tab tab w.state).1;
      })
  frame_purged :
      (tab : Option ℕ) (frame : String)
      → Step w (record w {
        state = (purge_frame tab frame w.state).0;
        closing = w.closing ++ (purge_frame tab frame w.state).1;
      })
  bridge_purged :
      (tab : Option ℕ) (bridge : String)
      → Step w (record w {
        state = (purge_bridge tab bridge w.state).0;
        closing = w.closing ++ (purge_bridge tab bridge w.state).1;
      })
  retried : Step w (record w {
    state = (retry_orphan_cleanup w.state).0;
    closing = w.closing ++ (retry_orphan_cleanup w.state).1;
  })
  reset : Step w (record w { state = clear_authority_ownership w.state; owed = [] })
  unplugged :
      (device : ℕ)
      → Step w (record w {
        state = clear_device_ownership device w.state;
        owed = forgive_device device w.state w.owed;
      })

pub data Reach (w : World) : World → Type 0 where
  here : Reach w w
  next : {u v : World} → Reach w u → Step u v → Reach w v
