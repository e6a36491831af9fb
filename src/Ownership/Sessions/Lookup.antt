-- ===== src/Ownership/Sessions/Lookup.antt =====
-- What the session operations do to the owner that is found under a device and a token.
use ff_web_hid.Prelude.{
  ℕ, ◌+◌, String, [], Option, none, some, true, not, ◌&&◌, ◌||◌, ◌==◌, nat_eq, string_eq,
  if◌then◌else◌, ◌≡◌, ◌≢◌, refl, arith, Option-cases, Bool-cases, ap, inl, inr,
}
use ff_web_hid.Prelude.Maps.{get, del, get-del}
use ff_web_hid.Ownership.State.{State, Owner, get_in}
use ff_web_hid.Ownership.State.Tables.{get_in-put_in, inner-drop_empty, inner_of_get, inner_of_none}
use ff_web_hid.Ownership.Lifetimes.{register_frame_lifetime}
use ff_web_hid.Ownership.Sessions.{
  OwnerInfo, frame_of, add_session, admit_session, register_device_session,
  unregister_device_session,
}

-- The owner of a session.
abbrev pub session : ℕ → String → State → Option Owner
session device token st = get_in device token st.device_sessions

pub no_session : (token : String) → get {V = Owner} token [] ≡ none
unfolding get
no_session token = refl

-- Unregistering drops exactly the session of that device and token.
pub session-unregister_device_session :
    (device d : ℕ) (token k : String) (st : State)
    → device ≢ 0
    → token ≢ ""
    → session d k (unregister_device_session device token st)
      ≡ (if device == d && token == k then none else session d k st)
unfolding unregister_device_session get_in
session-unregister_device_session device d token k st h t =
    elim (Option-cases (get device st.device_sessions)) [
      | inl absent ↦ ground (
        arith,
        absent,
        string_eq.beq_iff token "",
        inner_of_none device st.device_sessions absent,
        no_session k,
      )
      | inr (by_token, present) ↦ ground (
        arith,
        present,
        string_eq.beq_iff token "",
        inner_of_get device by_token st.device_sessions present,
        inner-drop_empty device d (del token by_token) st.device_sessions,
        get-del token k by_token,
      )
    ]

-- In general it drops at most that session: device 0 and the blank token stand for none.
pub session-unregister_device_session_any :
    (device d : ℕ) (token k : String) (st : State)
    → session d k (unregister_device_session device token st) ≡ (
        if not (device == 0 || token == "") && (device == d && token == k)
        then none
        else session d k st)
session-unregister_device_session_any device d token k st =
    elim (Bool-cases (device == 0 || token == "")) [
      | inl refused ↦ rw refused (ap (session d k) (unregister_refused device token st refused))
      | inr accepted ↦ rw accepted (
          session-unregister_device_session device d token k st (λ e. ground arith)
            (λ e. ground (arith, string_eq.beq_iff token "")))
    ]
  where
    unregister_refused :
        (device : ℕ) (token : String) (st : State)
        → (device == 0 || token == "") ≡ true
        → unregister_device_session device token st ≡ st
    unregister_refused device token st refused = unfold unregister_device_session in (rw refused)

-- The owner record that a registration makes.
abbrev pub new_owner : ℕ → OwnerInfo → State → Owner
new_owner tab info st = record {
  ref = st.next_ref;
  tab_id = tab;
  origin = info.origin;
  frame_key = frame_of info.frame_key tab;
  bridge_instance_id = info.bridge_instance_id;
  client_key = info.client_key;
}

pub register_frame_lifetime-sessions :
    (tab : Option ℕ) (frame : String) (st : State)
    → ((register_frame_lifetime tab frame st).0.device_sessions ≡ st.device_sessions)
      × ((register_frame_lifetime tab frame st).0.next_ref ≡ st.next_ref)
unfolding register_frame_lifetime
register_frame_lifetime-sessions none frame st = (refl, refl)
register_frame_lifetime-sessions (some tab) frame st = (ground arith, ground arith)

session-add_session :
    (device d tab : ℕ) (token k : String) (info : OwnerInfo) (st : State)
    → session d k (add_session device token tab info st)
      ≡ (if device == d && token == k then some (new_owner tab info st) else session d k st)
unfolding add_session
session-add_session device d tab token k info st =
    ground (arith, get_in-put_in device d token k (new_owner tab info st) st.device_sessions)

session-admit_session :
    (device d tab : ℕ) (token k : String) (info : OwnerInfo) (st : State)
    → (let r = admit_session device token tab info st in
        session d k r.0 ≡ (
          if r.1 && (device == d && token == k)
          then some (new_owner tab info st)
          else session d k st))
unfolding admit_session
session-admit_session device d tab token k info st =
    let frame = frame_of info.frame_key tab in
    let st' = (register_frame_lifetime (some tab) frame st).0 in
    ground (
      arith,
      session-add_session device d tab token k info st,
      session-add_session device d tab token k info st',
      register_frame_lifetime-sessions (some tab) frame st,
    )

-- A registration that is accepted records the owner, a new object, under the device and the token, and
-- changes no other session. One that is refused changes no session.
pub session-register_device_session :
    (device d tab : ℕ) (token k : String) (info : OwnerInfo) (st : State)
    → info.tab_id ≡ some tab
    → (let r = register_device_session device token info st in
        session d k r.0 ≡ (
          if r.1 && (device == d && token == k)
          then some (new_owner tab info st)
          else session d k st))
unfolding register_device_session
session-register_device_session device d tab token k info st e =
    ground (arith, e, session-admit_session device d tab token k info st)

-- A registration that is accepted uses up one identity.
pub next_ref-register_device_session :
    (device tab : ℕ) (token : String) (info : OwnerInfo) (st : State)
    → info.tab_id ≡ some tab
    → (let r = register_device_session device token info st in
        r.0.next_ref ≡ (if r.1 then st.next_ref + 1 else st.next_ref))
unfolding register_device_session
next_ref-register_device_session device tab token info st e =
    ground (arith, e, register_frame_lifetime-sessions (some tab) (frame_of info.frame_key tab) st)

pub next_ref-unregister_device_session :
    (device : ℕ) (token : String) (st : State)
    → (unregister_device_session device token st).next_ref ≡ st.next_ref
unfolding unregister_device_session
next_ref-unregister_device_session device token st = ground arith

register_frame_lifetime-orphans :
    (tab : Option ℕ) (frame : String) (st : State)
    → (register_frame_lifetime tab frame st).0.orphan_cleanup ≡ st.orphan_cleanup
unfolding register_frame_lifetime
register_frame_lifetime-orphans none frame st = refl
register_frame_lifetime-orphans (some tab) frame st = ground arith

-- Registering changes no orphan.
pub orphans-register_device_session :
    (device : ℕ) (token : String) (info : OwnerInfo) (st : State)
    → (register_device_session device token info st).0.orphan_cleanup ≡ st.orphan_cleanup
unfolding register_device_session
orphans-register_device_session device token info st = elim (Option-cases info.tab_id) [
  | inl unknown ↦ ground (arith, unknown)
  | inr (tab, known) ↦
      ground
        (arith, known, register_frame_lifetime-orphans (some tab) (frame_of info.frame_key tab) st)
]

pub orphans-unregister_device_session :
    (device : ℕ) (token : String) (st : State)
    → (unregister_device_session device token st).orphan_cleanup ≡ st.orphan_cleanup
unfolding unregister_device_session
orphans-unregister_device_session device token st = ground arith

pub tabs-register_frame_lifetime :
    (tab : Option ℕ) (frame : String) (st : State)
    → (register_frame_lifetime tab frame st).0.device_tabs ≡ st.device_tabs
unfolding register_frame_lifetime
tabs-register_frame_lifetime none frame st = refl
tabs-register_frame_lifetime (some tab) frame st = ground arith

pub tabs-register_device_session :
    (device : ℕ) (token : String) (info : OwnerInfo) (st : State)
    → (register_device_session device token info st).0.device_tabs ≡ st.device_tabs
unfolding register_device_session
tabs-register_device_session device token info st = elim (Option-cases info.tab_id) [
  | inl unknown ↦ ground (arith, unknown)
  | inr (tab, known) ↦
      ground
        (arith, known, tabs-register_frame_lifetime (some tab) (frame_of info.frame_key tab) st)
]

pub tabs-unregister_device_session :
    (device : ℕ) (token : String) (st : State)
    → (unregister_device_session device token st).device_tabs ≡ st.device_tabs
unfolding unregister_device_session
tabs-unregister_device_session device token st = ground arith
