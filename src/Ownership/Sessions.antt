-- ===== src/Ownership/Sessions.antt =====
-- Daemon sessions and their owners (the session functions of addon/js/background/state_ops.js).
pub mod Lookup
pub mod Owners
use ff_web_hid.Prelude.{
  ℕ, suc, zero, ◌+◌, String, List, [], ◌∷◌, Option, none, some, Bool, true, false, not, ◌&&◌, ◌||◌,
  ◌==◌, nat_eq, string_eq, if◌then◌else◌,
}
use Prim.Native.String.{◌++◌}
use ff_web_hid.Prelude.Maps.{Map, get, put, del, del_where, keys_where}
use ff_web_hid.Prelude.Texts.{is_blank, or_else, decimal}
use ff_web_hid.Ownership.State.{State, Owner, put_in, get_in, inner, drop_empty}
use ff_web_hid.Ownership.Lifetimes.{register_frame_lifetime, is_frame_lifetime_active}

-- What registerDeviceSession is told of the owner; the empty text stands for a field left out.
pub record OwnerInfo : Type 0 where
  pub tab_id : Option ℕ
  pub origin : String
  pub frame_key : String
  pub bridge_instance_id : String
  pub client_key : String

-- `owner.frameKey || 'tab:' + owner.tabId`
unfoldable pub frame_of : String → ℕ → String
frame_of frame tab = or_else frame ("tab:" ++ decimal tab)

-- The record of a session, a new object, once its document is known to be alive.
add_session : ℕ → String → ℕ → OwnerInfo → State → State
add_session device token tab info st = record st {
  device_sessions =
      put_in device token
        (record {
          ref = st.next_ref;
          tab_id = tab;
          origin = info.origin;
          frame_key = frame_of info.frame_key tab;
          bridge_instance_id = info.bridge_instance_id;
          client_key = info.client_key;
        })
        st.device_sessions;
  next_ref = st.next_ref + 1;
}

-- `!isFrameLifetimeActive(…) && !registerFrameLifetime(…)` refuses.
admit_session : ℕ → String → ℕ → OwnerInfo → State → State × Bool
unfolding add_session
admit_session device token tab info st =
    let frame = frame_of info.frame_key tab in
    if is_frame_lifetime_active (some tab) frame st
    then (add_session device token tab info st, true)
    else (let (st', registered) = register_frame_lifetime (some tab) frame st in
        if registered then (add_session device token tab info st', true) else (st', false))

register_known_tab : ℕ → String → OwnerInfo → Option ℕ → State → State × Bool
unfolding admit_session
register_known_tab device token info none st = (st, false)
register_known_tab device token info (some tab) st = admit_session device token tab info st

unfoldable pub register_device_session : ℕ → String → OwnerInfo → State → State × Bool
unfolding register_known_tab
register_device_session device token info st =
    if device == 0 || is_blank token || is_blank info.origin
    then (st, false)
    else register_known_tab device token info info.tab_id st

unfoldable pub unregister_device_session : ℕ → String → State → State
unregister_device_session device token st =
    if device == 0 || is_blank token then st else elim (get device st.device_sessions) [
      | none ↦ st
      | some by_token ↦ record st {
        device_sessions = drop_empty device (del token by_token) st.device_sessions;
      }
    ]

-- collectDeviceSessions…: the tokens of a device whose owner passes the test.
unfoldable pub collect_sessions : (Owner → Bool) → ℕ → State → List String
collect_sessions test device st =
    keys_where (λ _ owner. test owner) (inner device st.device_sessions)

abbrev pub owned_by_origin : String → Owner → Bool
owned_by_origin origin owner = owner.origin == origin

abbrev pub owned_by_tab : ℕ → Owner → Bool
owned_by_tab tab owner = owner.tab_id == tab

abbrev pub owned_by_frame : ℕ → String → Owner → Bool
owned_by_frame tab frame owner = owner.tab_id == tab && owner.frame_key == frame

abbrev pub owned_by_bridge : ℕ → String → Owner → Bool
owned_by_bridge tab bridge owner = owner.tab_id == tab && owner.bridge_instance_id == bridge

unfoldable pub collect_device_sessions_for_origin : ℕ → String → State → List String
unfolding collect_sessions
collect_device_sessions_for_origin device origin st =
    if is_blank origin then [] else collect_sessions (owned_by_origin origin) device st

unfoldable pub collect_device_sessions_for_tab : ℕ → Option ℕ → State → List String
unfolding collect_sessions
collect_device_sessions_for_tab device none st = []
collect_device_sessions_for_tab device (some tab) st = collect_sessions (owned_by_tab tab) device st

unfoldable pub collect_device_sessions_for_frame : ℕ → Option ℕ → String → State → List String
unfolding collect_sessions
collect_device_sessions_for_frame device none frame st = []
collect_device_sessions_for_frame device (some tab) frame st =
    if is_blank frame then [] else collect_sessions (owned_by_frame tab frame) device st

unfoldable pub collect_device_sessions : ℕ → State → List String
unfolding collect_sessions
collect_device_sessions device st = collect_sessions (λ _. true) device st

unfoldable pub get_device_session_owner : ℕ → String → State → Option Owner
get_device_session_owner device token st = get_in device token st.device_sessions

-- clearDeviceSessionsFor…: drops the sessions of a device whose owner passes the test.
unfoldable pub clear_sessions : (Owner → Bool) → ℕ → State → State
clear_sessions test device st = elim (get device st.device_sessions) [
  | none ↦ st
  | some by_token ↦ record st {
    device_sessions =
        drop_empty device (del_where (λ _ owner. test owner) by_token) st.device_sessions;
  }
]

unfoldable pub clear_device_sessions_for_origin : ℕ → String → State → State
unfolding clear_sessions
clear_device_sessions_for_origin device origin st =
    if is_blank origin then st else clear_sessions (owned_by_origin origin) device st

unfoldable pub clear_device_sessions_for_tab : ℕ → Option ℕ → State → State
unfolding clear_sessions
clear_device_sessions_for_tab device none st = st
clear_device_sessions_for_tab device (some tab) st = clear_sessions (owned_by_tab tab) device st

unfoldable pub clear_device_sessions : ℕ → State → State
clear_device_sessions device st = record st { device_sessions = del device st.device_sessions }

-- The tests of isSessionOwnedBy on the owner that was found.
owner_matches : String → Option ℕ → Option String → Option String → Owner → Bool
owner_matches origin tab frame client owner =
    owner.origin == origin
    && (elim tab [ none ↦ true | some t ↦ owner.tab_id == t ])
    && (elim frame [ none ↦ true | some f ↦ owner.frame_key == f ])
    && (elim client [ none ↦ true | some c ↦ owner.client_key == c ])

unfoldable pub is_session_owned_by :
    ℕ → String → String → Option ℕ → Option String → Option String → State → Bool
unfolding owner_matches
is_session_owned_by device token origin tab frame client st =
    elim (get_in device token st.device_sessions) [
      | none ↦ false
      | some owner ↦ owner_matches origin tab frame client owner
    ]
