-- ===== src/Messages/Opening/Safety.antt =====
-- What an open comes to.
use ff_web_hid.Prelude.{
  none, ℕ, ◌+◌, List, Option, some, true, false, not, ◌&&◌, ◌↔◌, ◌==◌, nat_eq, string_eq,
  if◌then◌else◌, ◌≡◌, ◌≢◌, ◌⊎◌, inl, inr, refl, arith, Bool-cases, ap, ◌∙◌,
}
use ff_web_hid.Prelude.Maps.{contains}
use ff_web_hid.Ownership.State.{State, get_in}
use ff_web_hid.Ownership.Lifetimes.{is_frame_lifetime_active}
use ff_web_hid.Ownership.Opens.{register_device_tab}
use ff_web_hid.Ownership.Opens.Counts.{opens, opens-register_device_tab}
use ff_web_hid.Ownership.Sessions.{frame_of, register_device_session}
use ff_web_hid.Ownership.Sessions.Lookup.{
  session, new_owner, session-register_device_session, tabs-register_device_session,
}
use ff_web_hid.Ownership.Cleanup.{start_close}
use ff_web_hid.Ownership.Traces.Identity.{register_device_tab-KeepsSessions}
use ff_web_hid.Ownership.Purge.Frame.{same_opens}
use ff_web_hid.Messages.Opening.{
  OpenRequest, OpenResponse, status_only, passed_on, OpenEnd, is_ok, finish_open, admit_open,
  refuse_open, register_token, owner_info,
}

-- A device is handed to a page only if the page's origin is granted the device of the request and its
-- document is alive when the grants are read for the second time, after the daemon has opened it.
pub finish_open-granted :
    (req : OpenRequest) (tab : ℕ) (resp : OpenResponse) (granted : List ℕ) (st : State)
    → is_ok resp.status ≡ true
    → resp.device_id ≢ 0
    → (finish_open req tab resp (some granted) st).reply ≡ passed_on resp
    → (contains req.device_id granted ≡ true)
      × (is_frame_lifetime_active (some tab) (frame_of req.frame_key tab) st ≡ true)
unfolding finish_open
finish_open-granted req tab resp granted st ok known h = ground arith

finish_open_unread :
    (req : OpenRequest) (tab : ℕ) (resp : OpenResponse) (st : State)
    → is_ok resp.status ≡ true
    → resp.device_id ≢ 0
    → session resp.device_id resp.token st ≡ none
    → (let r = finish_open req tab resp none st in
        (session resp.device_id resp.token r.state ≡ none) × (r.closing ≡ none))
unfolding finish_open
finish_open_unread req tab resp st ok known new =
    let device : (resp.device_id == 0) ≡ false = ground arith in rw (ok, device) (new, refl)

-- Handed to the page: the session is its own and the open is counted.
pub record IsHanded (req : OpenRequest) (tab : ℕ) (resp : OpenResponse) (st : State) (r : OpenEnd)
    : Type 0 where
  pub reply : r.reply ≡ passed_on resp
  pub owner :
      session resp.device_id resp.token r.state ≡ some (new_owner tab (owner_info req tab) st)
  pub count : opens resp.device_id tab r.state ≡ opens resp.device_id tab st + 1

-- Given up: a close of the session has begun, no open is counted, and the page is refused.
pub record IsGivenUp (resp : OpenResponse) (status : ℕ) (st : State) (r : OpenEnd) : Type 0 where
  pub closing : r.closing ≡ some (start_close resp.device_id resp.token r.state)
  pub tabs : r.state.device_tabs ≡ st.device_tabs
  pub refused : r.reply ≡ status_only status

-- The status of a refusal: 403 when the document is alive and the device is not granted to its origin.
abbrev pub refusal_status : OpenRequest → ℕ → List ℕ → State → ℕ
refusal_status req tab granted st =
    if is_frame_lifetime_active (some tab) (frame_of req.frame_key tab) st
      && not (contains req.device_id granted)
    then 403
    else 503

session-admitted :
    (req : OpenRequest) (tab : ℕ) (resp : OpenResponse) (st : State)
    → (register_device_session resp.device_id resp.token (owner_info req tab) st).1 ≡ true
    → session resp.device_id resp.token (
        register_device_tab resp.device_id
          (some tab)
          (register_device_session resp.device_id resp.token (owner_info req tab) st).0)
      ≡ some (new_owner tab (owner_info req tab) st)
session-admitted req tab resp st e =
    let st' = (register_device_session resp.device_id resp.token (owner_info req tab) st).0 in
    let kept = (register_device_tab-KeepsSessions resp.device_id (some tab) st').0 in
    ap (λ table. get_in resp.device_id resp.token table) kept
    ∙ ground (
      arith,
      session-register_device_session resp.device_id resp.device_id tab resp.token resp.token
          (owner_info req tab) st refl,
      e,
      string_eq.beq_iff resp.token resp.token,
    )

admit_open-effect :
    (req : OpenRequest) (tab : ℕ) (resp : OpenResponse) (st : State)
    → resp.device_id ≢ 0
    → resp.token ≢ ""
    → IsHanded req tab resp st (admit_open req tab resp st)
      ⊎ IsGivenUp resp 503 st (admit_open req tab resp st)
unfolding admit_open register_token refuse_open
admit_open-effect req tab resp st h named =
    let info = owner_info req tab in
    let st' = (register_device_session resp.device_id resp.token info st).0 in
    let token : (resp.token == "") ≡ false = ground (arith, string_eq.beq_iff resp.token "") in
    elim (Bool-cases (register_device_session resp.device_id resp.token info st).1) [
      | inl registered ↦ inl (
          rw (token, registered)
            (record {
              reply = refl;
              owner = session-admitted req tab resp st registered;
              count = ground (
                arith,
                opens-register_device_tab resp.device_id tab resp.device_id tab st' h,
                same_opens resp.device_id tab st st'
                    (tabs-register_device_session resp.device_id resp.token info st),
              );
            }))
      | inr refused ↦ inr (
          rw (token, refused)
            (record {
              closing = refl;
              tabs = tabs-register_device_session resp.device_id resp.token info st;
              refused = refl;
            }))
    ]

-- No session that the daemon has opened is lost if the grants can be read again: when its answer is a
-- success that names a device and a token, either the session is recorded as the page's own, one open
-- more is counted for the tab, and the page is answered with it; or a close of exactly that session
-- begins, no open is counted, and the page is refused, with status 403 when its document is alive and the
-- device is not granted, and with 503 otherwise.
pub finish_open-accounted :
    (req : OpenRequest) (tab : ℕ) (resp : OpenResponse) (granted : List ℕ) (st : State)
    → is_ok resp.status ≡ true
    → resp.device_id ≢ 0
    → resp.token ≢ ""
    → IsHanded req tab resp st (finish_open req tab resp (some granted) st)
      ⊎ IsGivenUp resp
          (refusal_status req tab granted st)
          st
          (finish_open req tab resp (some granted) st)
unfolding finish_open refuse_open
finish_open-accounted req tab resp granted st ok h named =
    let alive = is_frame_lifetime_active (some tab) (frame_of req.frame_key tab) st in
    let known : (resp.device_id == 0) ≡ false = ground arith in
    let token : (resp.token == "") ≡ false = ground (arith, string_eq.beq_iff resp.token "") in
    elim (Bool-cases (contains req.device_id granted)) [
      | inr missing ↦ inr (
          rw (ok, known, missing, token)
            (record { closing = refl; tabs = refl; refused = ground arith }))
      | inl there ↦ elim (Bool-cases alive) [
        | inr gone ↦ inr (
            rw (ok, known, there, gone, token)
              (record { closing = refl; tabs = refl; refused = refl }))
        | inl here ↦ rw (ok, known, there, here) (admit_open-effect req tab resp st h named)
      ]
    ]

-- When the daemon has opened a device under a session that is not recorded yet, and the open has come to
-- its end, the session is lost, neither recorded nor being closed, exactly when the grants could not be
-- read again.
pub finish_open-lost_iff :
    (req : OpenRequest) (tab : ℕ) (resp : OpenResponse) (granted : Option (List ℕ)) (st : State)
    → is_ok resp.status ≡ true
    → resp.device_id ≢ 0
    → resp.token ≢ ""
    → session resp.device_id resp.token st ≡ none
    → (let r = finish_open req tab resp granted st in
        ((session resp.device_id resp.token r.state ≡ none) × (r.closing ≡ none))
        ↔ (granted ≡ none))
finish_open-lost_iff req tab resp none st ok known named new =
    (λ lost. refl, λ unread. finish_open_unread req tab resp st ok known new)
finish_open-lost_iff req tab resp (some granted) st ok known named new = (
  λ (recorded, closing). elim (finish_open-accounted req tab resp granted st ok known named) [
    | inl handed ↦ cc (handed.owner, recorded)
    | inr given_up ↦ cc (given_up.closing, closing)
  ],
  λ unread. cc unread,
)
