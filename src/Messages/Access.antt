-- ===== src/Messages/Access.antt =====
-- handleClose, handleCleanupSession, handleSetDataPlane, and the three handlers of reports, of
-- addon/js/background/messages.js: who may use a device, and what a close does.
use ff_web_hid.Prelude.{
  ℕ, ◌-◌, String, List, Option, none, some, Bool, false, ◌&&◌, ◌||◌, ◌==◌, nat_eq, string_eq,
  if◌then◌else◌, ◌≡◌, ◌≢◌, refl, arith, Bool-cases, inl, inr,
}
use ff_web_hid.Prelude.Texts.{is_blank, or_else}
use ff_web_hid.Ownership.State.{State, Owner}
use ff_web_hid.Ownership.Opens.{unregister_device_tab, is_tab_authorized_for_device}
use ff_web_hid.Ownership.Opens.Counts.{opens, opens-unregister_device_tab, is_tab_authorized_iff}
use ff_web_hid.Ownership.Purge.Frame.{same_opens}
use ff_web_hid.Ownership.Sessions.{frame_of, unregister_device_session, is_session_owned_by}
use ff_web_hid.Ownership.Sessions.Lookup.{
  session, session-unregister_device_session, tabs-unregister_device_session,
}
use ff_web_hid.Wire.Control.{build_packed_send, pkg_send_report, pkg_send_feature_report}
use ff_web_hid.Messages.Opening.{is_ok}

-- A request of a page for a device; `token` is the session that it names, empty when it names none.
-- A client key that is left out is `none`, and isSessionOwnedBy then does not test it.
pub record DeviceRequest : Type 0 where
  pub device_id : ℕ
  pub token : String
  pub origin : String
  pub frame_key : String
  pub client_key : Option String

-- What the handler does at once: it refuses with a status, or it asks the daemon to close a session of a
-- device, to set the data plane of a device (a mode and a session), for a feature report (a report id), or
-- to take a packed frame, which is made once the request has its id.
pub data Decision : Type 0 where
  refused : ℕ → Decision
  close_device : ℕ → String → Decision
  set_data_plane : ℕ → String → String → Decision
  receive_feature : ℕ → ℕ → Decision
  send_packed : (ℕ → List ℕ) → Decision

-- `request.frameKey || 'tab:' + tabId`, which only a sender with a tab gets to.
frame_in : String → Option ℕ → String
frame_in frame none = or_else frame "tab:undefined"
frame_in frame (some tab) = frame_of frame tab

-- The guards that handleClose and handleSetDataPlane share.
unfoldable pub may_use : DeviceRequest → Option ℕ → State → Bool
unfolding frame_in
may_use req tab st =
    is_tab_authorized_for_device tab req.device_id st
    && (is_blank req.token
        || is_session_owned_by req.device_id req.token req.origin tab
            (some (frame_in req.frame_key tab)) req.client_key st)

unfoldable pub handle_close : DeviceRequest → Option ℕ → State → Decision
handle_close req tab st =
    if may_use req tab st then close_device req.device_id req.token else refused 403

-- handleClose once the daemon has answered with a status.
unfoldable pub close_answered : DeviceRequest → Option ℕ → ℕ → State → State
close_answered req tab status st =
    if is_ok status
    then (let st' = unregister_device_tab req.device_id tab st in
        if is_blank req.token then st' else unregister_device_session req.device_id req.token st')
    else st

unfoldable pub handle_set_data_plane : DeviceRequest → String → Option ℕ → State → Decision
handle_set_data_plane req mode tab st =
    if may_use req tab st then set_data_plane req.device_id mode req.token else refused 403

-- tabAllowsDevice
unfoldable pub tab_allows_device : Option ℕ → ℕ → State → Bool
tab_allows_device tab device st = is_tab_authorized_for_device tab device st

-- A packed request, given its request id; `request.reportId || 0` is the report id.
unfoldable pub handle_send_report : DeviceRequest → Option ℕ → ℕ → List ℕ → State → Decision
unfolding tab_allows_device
handle_send_report req tab report_id body st =
    if tab_allows_device tab req.device_id st
    then send_packed
        (λ req_id. build_packed_send pkg_send_report req_id req.device_id report_id body)
    else refused 403

unfoldable pub handle_send_feature_report : DeviceRequest → Option ℕ → ℕ → List ℕ → State → Decision
unfolding tab_allows_device
handle_send_feature_report req tab report_id body st =
    if tab_allows_device tab req.device_id st
    then send_packed
        (λ req_id. build_packed_send pkg_send_feature_report req_id req.device_id report_id body)
    else refused 403

unfoldable pub handle_receive_feature_report : DeviceRequest → Option ℕ → ℕ → State → Decision
unfolding tab_allows_device
handle_receive_feature_report req tab report_id st =
    if tab_allows_device tab req.device_id st
    then receive_feature req.device_id report_id
    else refused 403

-- The reply of handleCleanupSession, given what closeForCleanup resolved to.
abbrev pub cleanup_reply : Bool → ℕ
cleanup_reply confirmed = if confirmed then 204 else 503

-- Of a tab that does not hold an open of the device of the request, five handlers send nothing to the
-- daemon: a close, a change of the data plane, a report, and a feature report to send or to receive are
-- each refused with status 403, whatever else the request says.
pub handlers_authorised :
    (req : DeviceRequest) (tab report_id : ℕ) (mode : String) (body : List ℕ) (st : State)
    → opens req.device_id tab st ≡ 0
    → (handle_close req (some tab) st ≡ refused 403)
      × (handle_set_data_plane req mode (some tab) st ≡ refused 403)
      × (handle_send_report req (some tab) report_id body st ≡ refused 403)
      × (handle_send_feature_report req (some tab) report_id body st ≡ refused 403)
      × (handle_receive_feature_report req (some tab) report_id st ≡ refused 403)
unfolding handle_close handle_set_data_plane handle_send_report handle_send_feature_report
    handle_receive_feature_report may_use
handlers_authorised req tab report_id mode body st none_open =
    let iff = is_tab_authorized_iff req.device_id tab st in
    let no : is_tab_authorized_for_device (some tab) req.device_id st ≡ false =
      ground (arith, iff) in
    (rw no refl, rw no refl, rw no refl, rw no refl, rw no refl)

-- A request that names a session and a client key is refused, be it to close the session or to set its
-- data plane, when the session is recorded for another origin, tab, document or client.
pub session_guarded :
    (req : DeviceRequest) (tab : ℕ) (owner : Owner) (client mode : String) (st : State)
    → req.token ≢ ""
    → req.client_key ≡ some client
    → session req.device_id req.token st ≡ some owner
    → (owner.origin == req.origin
        && (owner.tab_id == tab)
        && (owner.frame_key == frame_of req.frame_key tab)
        && (owner.client_key == client))
      ≡ false
    → (handle_close req (some tab) st ≡ refused 403)
      × (handle_set_data_plane req mode (some tab) st ≡ refused 403)
unfolding handle_close handle_set_data_plane may_use is_session_owned_by
session_guarded req tab owner client mode st named keyed found foreign = (
  ground (arith, named, keyed, found, foreign, string_eq.beq_iff req.token ""),
  ground (arith, named, keyed, found, foreign, string_eq.beq_iff req.token ""),
)

-- When the daemon confirms the close of a session, the tab has one open less of the device and the session
-- is no longer recorded; when it does not, nothing changes.
pub close_answered_effect :
    (req : DeviceRequest) (tab status : ℕ) (st : State)
    → req.device_id ≢ 0
    → req.token ≢ ""
    → (let after = close_answered req (some tab) status st in
        if is_ok status
        then (opens req.device_id tab after ≡ opens req.device_id tab st - 1)
          × (session req.device_id req.token after ≡ none)
        else after ≡ st)
unfolding close_answered
close_answered_effect req tab status st h named =
    let st' = unregister_device_tab req.device_id (some tab) st in
    let token : (req.token == "") ≡ false = ground (arith, string_eq.beq_iff req.token "") in
    elim (Bool-cases (is_ok status)) [
      | inl ok ↦
          rw (ok, token)
            (
              ground (
                arith,
                same_opens req.device_id tab st'
                    (unregister_device_session req.device_id req.token st')
                    (tabs-unregister_device_session req.device_id req.token st'),
                opens-unregister_device_tab req.device_id tab req.device_id tab st h,
              ),
              ground (
                arith,
                session-unregister_device_session req.device_id req.device_id req.token req.token
                    st' h named,
                string_eq.beq_iff req.token req.token,
              ),
            )
      | inr failed ↦ rw failed refl
    ]
