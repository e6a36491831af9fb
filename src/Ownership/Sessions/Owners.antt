-- ===== src/Ownership/Sessions/Owners.antt =====
-- The sessions that are collected and dropped by owner, and who may operate on a session.
use ff_web_hid.Prelude.{
  ℕ, String, Option, none, some, Bool, true, false, ◌&&◌, ◌||◌, ◌==◌, nat_eq, string_eq,
  if◌then◌else◌, ◌≡◌, ◌⊎◌, arith, Option-cases, inl, inr, Bool-cases,
}
use ff_web_hid.Prelude.Maps.{
  get, del, del_where, get-del_where, del-HasDistinctKeys, HasDistinctKeys, keep_if, holds,
  contains, contains-keys_where,
}
use ff_web_hid.Ownership.State.{State, Owner, get_in, inner, put_in}
use ff_web_hid.Ownership.State.Tables.{
  IsTable, inner-drop_empty, inner_of_get, inner_of_none, put_in-IsTable, drop_empty-IsTable,
}
use ff_web_hid.Ownership.Sessions.{
  OwnerInfo, frame_of, admit_session, register_known_tab, register_device_session,
  unregister_device_session, collect_sessions, clear_sessions, is_session_owned_by,
}
use ff_web_hid.Ownership.Sessions.Lookup.{
  session, no_session, new_owner, session-register_device_session, register_frame_lifetime-sessions,
}

-- Collecting by a test finds exactly the sessions of the device whose owner passes it.
pub contains-collect_sessions :
    (test : Owner → Bool) (device : ℕ) (token : String) (st : State)
    → IsTable st.device_sessions
    → contains token (collect_sessions test device st) ≡ holds test (session device token st)
unfolding collect_sessions get_in
contains-collect_sessions test device token st h =
    contains-keys_where (λ _ owner. test owner) token (inner device st.device_sessions)
      (h.inners device)

-- Clearing by a test drops exactly the sessions of the device whose owner passes it.
pub session-clear_sessions :
    (test : Owner → Bool) (device d : ℕ) (k : String) (st : State)
    → IsTable st.device_sessions
    → session d k (clear_sessions test device st) ≡ (
        if device == d
        then keep_if (λ owner. if test owner then false else true) (session d k st)
        else session d k st)
unfolding clear_sessions get_in
session-clear_sessions test device d k st h = elim (Option-cases (get device st.device_sessions)) [
  | inl absent ↦
      ground (arith, absent, inner_of_none device st.device_sessions absent, no_session k)
  | inr (by_token, present) ↦
      let same = inner_of_get device by_token st.device_sessions present in
      ground (
        arith,
        present,
        same,
        h.inners device,
        inner-drop_empty device d (del_where (λ _ owner. test owner) by_token) st.device_sessions,
        get-del_where (λ _ owner. test owner) k (inner device st.device_sessions) (h.inners device),
      )
]

-- Once a session is registered, the check of a principal succeeds for the origin, the tab, the frame
-- and the client that it was registered for, and for no other.
pub is_session_owned_by-register :
    (device tab t : ℕ) (token origin frame client : String) (info : OwnerInfo) (st : State)
    → info.tab_id ≡ some tab
    → (register_device_session device token info st).1 ≡ true
    → is_session_owned_by device token origin
        (some t)
        (some frame)
        (some client)
        (register_device_session device token info st).0
      ≡ (info.origin == origin
          && (tab == t)
          && (frame_of info.frame_key tab == frame)
          && (info.client_key == client))
unfolding is_session_owned_by
is_session_owned_by-register device tab t token origin frame client info st e ok = ground (
  arith,
  session-register_device_session device device tab token token info st e,
  ok,
  string_eq.beq_iff token token,
)

-- The table of sessions after a registration: as it was, or with the new owner in its place.
admit_session-table :
    (device tab : ℕ) (token : String) (info : OwnerInfo) (st : State)
    → (let table = (admit_session device token tab info st).0.device_sessions in
        (table ≡ st.device_sessions)
        ⊎ (table ≡ put_in device token (new_owner tab info st) st.device_sessions))
unfolding admit_session
admit_session-table device tab token info st =
    ground (arith, register_frame_lifetime-sessions (some tab) (frame_of info.frame_key tab) st)

-- Registering keeps the shape of the table of sessions.
pub register_device_session-IsTable :
    (device : ℕ) (token : String) (info : OwnerInfo) (st : State)
    → IsTable st.device_sessions
    → IsTable (register_device_session device token info st).0.device_sessions
unfolding register_device_session
register_device_session-IsTable device token info st h =
    elim (Bool-cases (device == 0 || token == "" || info.origin == "")) [
      | inl refused ↦ rw refused h
      | inr accepted ↦ rw accepted (known info.tab_id)
    ]
  where
    known :
        (tab : Option ℕ) → IsTable (register_known_tab device token info tab st).0.device_sessions
    known none = h
    known (some tab) = elim (admit_session-table device tab token info st) [
      | inl same ↦ rw same h
      | inr added ↦
          rw added (put_in-IsTable device token (new_owner tab info st) st.device_sessions h)
    ]

-- Unregistering keeps the shape of the table of sessions.
pub unregister_device_session-IsTable :
    (device : ℕ) (token : String) (st : State)
    → IsTable st.device_sessions
    → IsTable (unregister_device_session device token st).device_sessions
unfolding unregister_device_session
unregister_device_session-IsTable device token st h =
    elim (Bool-cases (device == 0 || token == "")) [
      | inl refused ↦ rw refused h
      | inr accepted ↦ rw accepted (elim (Option-cases (get device st.device_sessions)) [
        | inl absent ↦ rw absent h
        | inr (by_token, present) ↦
            let keys : HasDistinctKeys (inner device st.device_sessions) = h.inners device in
            rw present (
              drop_empty-IsTable device (del token by_token) st.device_sessions
                (del-HasDistinctKeys token by_token
                  (rw (inner_of_get device by_token st.device_sessions present) at keys))
                h)
      ])
    ]
