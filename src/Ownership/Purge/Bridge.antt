-- ===== src/Ownership/Purge/Bridge.antt =====
-- purgeBridge: what one bridge instance of a tab owned.
use Prim.Native.String.{◌++◌ as concat}
use text.Mathlib.Text.{starts_with}
use ff_web_hid.Prelude.{
  ℕ, ◌-◌, String, [], ◌∷◌, Option, none, some, Bool, false, ◌==◌, nat_eq, string_eq, if◌then◌else◌,
  ◌≡◌, ◌≢◌, refl, arith, Option-cases, inl, inr, Bool-cases, ap, ◌∙◌, length,
}
use ff_web_hid.Prelude.Maps.{Map, get, holds}
use ff_web_hid.Ownership.State.{State, get_in}
use ff_web_hid.Ownership.State.Tables.{IsTable, inner_of_get, inner_of_none, inner-put}
use ff_web_hid.Ownership.Sessions.{collect_sessions, owned_by_bridge}
use ff_web_hid.Ownership.Sessions.Lookup.{session}
use ff_web_hid.Ownership.Opens.Counts.{opens}
use ff_web_hid.Ownership.Purge.{device_ids, retire_prefix, retire_bridge, purge_bridge}
use ff_web_hid.Ownership.Purge.Devices.{asks}
use ff_web_hid.Ownership.Purge.Loop.{
  collect_sessions-same, purge_devices-IsSameElsewhere, opens-purge_all, asks-purge_all,
}
use ff_web_hid.Ownership.Purge.Frame.{same_opens}

-- The generation of a document once those under the prefix are retired.
abbrev pub retired_if : Bool → Option ℕ → Option ℕ
retired_if b none = none
retired_if b (some generation) = some (if b then 0 else generation)

get-retire_prefix :
    (prefix frame : String) (m : Map String ℕ)
    → get frame (retire_prefix prefix m) ≡ retired_if (starts_with frame prefix) (get frame m)
unfolding get retire_prefix
get-retire_prefix prefix frame [] = refl
get-retire_prefix prefix frame ((j, n) ∷ m) = elim (Bool-cases (j == frame)) [
  | inl same ↦ rw (same, (string_eq.beq_iff j frame).0 same)
  | inr differ ↦ rw differ (get-retire_prefix prefix frame m)
]

no_frame : (frame : String) → get {V = ℕ} frame [] ≡ none
unfolding get
no_frame frame = refl

get_in-retire_bridge :
    (tab t : ℕ) (bridge frame : String) (st : State)
    → get_in t frame (retire_bridge tab bridge st).frame_lifetimes ≡ (
        if tab == t
        then retired_if (starts_with frame (concat bridge "/")) (get_in t frame st.frame_lifetimes)
        else get_in t frame st.frame_lifetimes)
unfolding retire_bridge get_in
get_in-retire_bridge tab t bridge frame st = elim (Option-cases (get tab st.frame_lifetimes)) [
  | inl absent ↦ ground (arith, absent, inner_of_none tab st.frame_lifetimes absent, no_frame frame)
  | inr (frames, present) ↦ ground (
    arith,
    present,
    inner_of_get tab frames st.frame_lifetimes present,
    inner-put tab t (retire_prefix (concat bridge "/") frames) st.frame_lifetimes,
    get-retire_prefix (concat bridge "/") frame frames,
  )
]

pub retire_bridge-tables :
    (tab : ℕ) (bridge : String) (st : State)
    → ((retire_bridge tab bridge st).device_sessions ≡ st.device_sessions)
      × ((retire_bridge tab bridge st).device_tabs ≡ st.device_tabs)
unfolding retire_bridge
retire_bridge-tables tab bridge st = (ground arith, ground arith)

-- After the purge of a bridge instance of a tab: for each device the tab has as many opens less as the
-- instance had sessions of it, and the opens of other tabs are as before; the closes that it asks of
-- the daemon are for exactly the sessions of that instance in that tab; the records of the sessions stay
-- until those closes are settled; and exactly the known documents of the tab whose key begins with the
-- instance's id and a slash are retired.
pub purge_bridge_effect :
    (tab d t u : ℕ) (k bridge frame : String) (st : State)
    → d ≢ 0
    → bridge ≢ ""
    → IsTable st.device_sessions
    → IsTable st.device_tabs
    → (let r = purge_bridge (some tab) bridge st in
        (opens d t r.0 ≡ (
          if tab == t
          then opens d t st - length (collect_sessions (owned_by_bridge tab bridge) d st)
          else opens d t st))
        × (asks d k r.1 ≡ holds (owned_by_bridge tab bridge) (session d k st))
        × (session d k r.0 ≡ session d k st)
        × (get_in u frame r.0.frame_lifetimes ≡ (
            if tab == u
            then retired_if
                (starts_with frame (concat bridge "/"))
                (get_in u frame st.frame_lifetimes)
            else get_in u frame st.frame_lifetimes)))
unfolding purge_bridge
purge_bridge_effect tab d t u k bridge frame st h named sessions tabs =
    let st' = retire_bridge tab bridge st in
    let test = owned_by_bridge tab bridge in
    let not_blank : (bridge == "") ≡ false = ground (arith, string_eq.beq_iff bridge "") in
    let (same_sessions, same_tabs) = retire_bridge-tables tab bridge st in
    let sessions' : IsTable st'.device_sessions = rw same_sessions sessions in
    let tabs' : IsTable st'.device_tabs = rw same_tabs tabs in
    let tokens = collect_sessions test in
    let by_test : (device : ℕ) (s : State) → tokens device s ≡ tokens device s = λ device s. refl in
    let (s, _, f, _) = purge_devices-IsSameElsewhere tab test tokens by_test (device_ids st') st' in
    rw not_blank (
      ground (
        arith,
        opens-purge_all tab test tokens by_test d st' sessions' tabs' t h,
        same_opens d t st st' same_tabs,
        collect_sessions-same test d st' st same_sessions,
      ),
      asks-purge_all tab test tokens by_test d st' sessions' tabs' k
          ∙ ap (λ table. holds test (get_in d k table)) same_sessions,
      ap (get_in d k) (s ∙ same_sessions),
      ap (get_in u frame) f ∙ get_in-retire_bridge tab u bridge frame st,
    )
