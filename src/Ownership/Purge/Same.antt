-- ===== src/Ownership/Purge/Same.antt =====
-- A purge changes no session, no orphan and no owner's identity: sessions end when their closes settle.
use ff_web_hid.Prelude.{
  ℕ, String, Option, none, some, ◌≡◌, ◌≢◌, refl, arith, Bool-cases, inl, inr, ◌==◌, string_eq, ◌∙◌,
}
use ff_web_hid.Ownership.State.{State}
use ff_web_hid.Ownership.Lifetimes.{retire_frame_lifetime}
use ff_web_hid.Ownership.Sessions.{
  collect_device_sessions_for_frame, collect_sessions, owned_by_frame, owned_by_bridge,
}
use ff_web_hid.Ownership.Purge.{device_ids, retire_bridge, purge_tab, purge_frame, purge_bridge}
use ff_web_hid.Ownership.Purge.Tab.{purge_tab_devices-IsSameElsewhere}
use ff_web_hid.Ownership.Purge.Loop.{purge_devices-IsSameElsewhere}
use ff_web_hid.Ownership.Purge.Frame.{frame_tokens}

abbrev pub KeepsSessions : State → State → Type 0
KeepsSessions st' st =
    (st'.device_sessions ≡ st.device_sessions)
    × (st'.orphan_cleanup ≡ st.orphan_cleanup)
    × (st'.next_ref ≡ st.next_ref)

pub purge_tab-KeepsSessions : (tab : Option ℕ) (st : State) → KeepsSessions (purge_tab tab st).0 st
unfolding purge_tab
purge_tab-KeepsSessions none st = (refl, refl, refl)
purge_tab-KeepsSessions (some tab) st =
    let (s, o, _, n) = purge_tab_devices-IsSameElsewhere tab (device_ids st) st in (s, o, n)

pub retire_frame_lifetime-KeepsSessions :
    (tab : Option ℕ) (frame : String) (st : State)
    → KeepsSessions (retire_frame_lifetime tab frame st) st
unfolding retire_frame_lifetime
retire_frame_lifetime-KeepsSessions none frame st = (refl, refl, refl)
retire_frame_lifetime-KeepsSessions (some tab) frame st = (ground arith, ground arith, ground arith)

pub purge_frame-KeepsSessions :
    (tab : Option ℕ) (frame : String) (st : State) → KeepsSessions (purge_frame tab frame st).0 st
unfolding purge_frame
purge_frame-KeepsSessions none frame st = (refl, refl, refl)
purge_frame-KeepsSessions (some tab) frame st = elim (Bool-cases (frame == "")) [
  | inl blank ↦ rw blank (refl, refl, refl)
  | inr differs ↦
      let st' = retire_frame_lifetime (some tab) frame st in
      let named : frame ≢ "" = λ e. ground (arith, string_eq.beq_iff frame "") in
      let (s, o, _, n) =
        purge_devices-IsSameElsewhere tab (owned_by_frame tab frame)
          (λ device s. collect_device_sessions_for_frame device (some tab) frame s)
          (λ device s. frame_tokens tab device frame s named) (device_ids st') st' in
      let (s', o', n') = retire_frame_lifetime-KeepsSessions (some tab) frame st in
      rw differs (s ∙ s', o ∙ o', n ∙ n')
]

pub retire_bridge-KeepsSessions :
    (tab : ℕ) (bridge : String) (st : State) → KeepsSessions (retire_bridge tab bridge st) st
unfolding retire_bridge
retire_bridge-KeepsSessions tab bridge st = (ground arith, ground arith, ground arith)

pub purge_bridge-KeepsSessions :
    (tab : Option ℕ) (bridge : String) (st : State)
    → KeepsSessions (purge_bridge tab bridge st).0 st
unfolding purge_bridge
purge_bridge-KeepsSessions none bridge st = (refl, refl, refl)
purge_bridge-KeepsSessions (some tab) bridge st = elim (Bool-cases (bridge == "")) [
  | inl blank ↦ rw blank (refl, refl, refl)
  | inr differs ↦
      let st' = retire_bridge tab bridge st in
      let (s, o, _, n) =
        purge_devices-IsSameElsewhere tab (owned_by_bridge tab bridge)
          (collect_sessions (owned_by_bridge tab bridge)) (λ device s. refl) (device_ids st') st' in
      let (s', o', n') = retire_bridge-KeepsSessions tab bridge st in
      rw differs (s ∙ s', o ∙ o', n ∙ n')
]
