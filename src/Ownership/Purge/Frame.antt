-- ===== src/Ownership/Purge/Frame.antt =====
-- purgeFrame: the sessions of one document are closed in the daemon, and the tab loses one open for
-- each of them.
use ff_web_hid.Prelude.{
  ℕ, ◌-◌, String, some, false, ◌==◌, nat_eq, string_eq, if◌then◌else◌, ◌≡◌, ◌≢◌, arith, ap, ◌∙◌,
  length,
}
use ff_web_hid.Prelude.Maps.{holds}
use ff_web_hid.Ownership.State.{State, get_in}
use ff_web_hid.Ownership.State.Tables.{IsTable, get_in-put_in}
use ff_web_hid.Ownership.Lifetimes.{retire_frame_lifetime}
use ff_web_hid.Ownership.Sessions.{
  collect_device_sessions_for_frame, collect_sessions, owned_by_frame,
}
use ff_web_hid.Ownership.Sessions.Lookup.{session}
use ff_web_hid.Ownership.Opens.Counts.{opens}
use ff_web_hid.Ownership.Purge.{device_ids, purge_frame}
use ff_web_hid.Ownership.Purge.Devices.{asks}
use ff_web_hid.Ownership.Opens.{or_zero}
use ff_web_hid.Ownership.Purge.Loop.{
  collect_sessions-same, purge_devices-IsSameElsewhere, opens-purge_all, asks-purge_all,
}

pub frame_tokens :
    (tab device : ℕ) (frame : String) (st : State)
    → frame ≢ ""
    → collect_device_sessions_for_frame device (some tab) frame st
      ≡ collect_sessions (owned_by_frame tab frame) device st
unfolding collect_device_sessions_for_frame
frame_tokens tab device frame st named = ground (arith, string_eq.beq_iff frame "")

retired_frame :
    (tab : ℕ) (frame : String) (st : State)
    → frame ≢ ""
    → (let st' = retire_frame_lifetime (some tab) frame st in
        (get_in tab frame st'.frame_lifetimes ≡ some 0)
        × (st'.device_sessions ≡ st.device_sessions)
        × (st'.device_tabs ≡ st.device_tabs))
unfolding retire_frame_lifetime
retired_frame tab frame st named =
    let blank = string_eq.beq_iff frame "" in
    (
      ground (
        arith,
        blank,
        get_in-put_in tab tab frame frame 0 st.frame_lifetimes,
        string_eq.beq_iff frame frame,
      ),
      ground arith,
      ground arith,
    )

pub same_opens :
    (d t : ℕ) (st st' : State) → st'.device_tabs ≡ st.device_tabs → opens d t st' ≡ opens d t st
unfolding opens
same_opens d t st st' e = ap (λ table. or_zero (get_in d t table)) e

-- After the purge of a document of a tab: for each device the tab has as many opens less as the
-- document had sessions of it, and the opens of other tabs are as before; the closes that it asks of the
-- daemon are for exactly the sessions of that document in that tab; the records of the sessions stay
-- until those closes are settled; and the document is retired, with generation 0.
pub purge_frame_effect :
    (tab d t : ℕ) (k frame : String) (st : State)
    → d ≢ 0
    → frame ≢ ""
    → IsTable st.device_sessions
    → IsTable st.device_tabs
    → (let r = purge_frame (some tab) frame st in
        (opens d t r.0 ≡ (
          if tab == t
          then opens d t st - length (collect_device_sessions_for_frame d (some tab) frame st)
          else opens d t st))
        × (asks d k r.1 ≡ holds (owned_by_frame tab frame) (session d k st))
        × (session d k r.0 ≡ session d k st)
        × (get_in tab frame r.0.frame_lifetimes ≡ some 0))
unfolding purge_frame
purge_frame_effect tab d t k frame st h named sessions tabs =
    let st' = retire_frame_lifetime (some tab) frame st in
    let not_blank : (frame == "") ≡ false = ground (arith, string_eq.beq_iff frame "") in
    let (retired, same_sessions, same_tabs) = retired_frame tab frame st named in
    let sessions' : IsTable st'.device_sessions = rw same_sessions sessions in
    let tabs' : IsTable st'.device_tabs = rw same_tabs tabs in
    let tokens =
      λ (device : ℕ) (s : State). collect_device_sessions_for_frame device (some tab) frame s in
    let by_test = λ (device : ℕ) (s : State). frame_tokens tab device frame s named in
    let (s, _, f, _) =
      purge_devices-IsSameElsewhere tab (owned_by_frame tab frame) tokens by_test (device_ids st')
        st' in
    rw not_blank (
      ground (
        arith,
        opens-purge_all tab (owned_by_frame tab frame) tokens by_test d st' sessions' tabs' t h,
        same_opens d t st st' same_tabs,
        by_test d st,
        by_test d st',
        collect_sessions-same (owned_by_frame tab frame) d st' st same_sessions,
      ),
      asks-purge_all tab (owned_by_frame tab frame) tokens by_test d st' sessions' tabs' k
          ∙ ap (λ table. holds (owned_by_frame tab frame) (get_in d k table)) same_sessions,
      ap (get_in d k) (s ∙ same_sessions),
      ap (get_in tab frame) f ∙ retired,
    )
