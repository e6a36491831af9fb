-- ===== src/Ownership/Lifetimes.antt =====
-- Document lifetimes (registerFrameLifetime, isFrameLifetimeActive and retireFrameLifetime of
-- addon/js/background/state_ops.js). A generation of 0 is a document that was retired.
use ff_web_hid.Prelude.{
  ℕ, ◌+◌, String, Option, none, some, Bool, true, false, not, ◌&&◌, ltb, ◌==◌, nat_eq, string_eq,
  if◌then◌else◌,
}
use ff_web_hid.Prelude.Texts.{is_blank}
use ff_web_hid.Ownership.State.{State, put_in, get_in}

-- `tabId == null || !frameKey` refuses.
register_known : ℕ → String → State → State × Bool
register_known tab frame st = elim (get_in tab frame st.frame_lifetimes) [
  | none ↦ (record st { frame_lifetimes = put_in tab frame 1 st.frame_lifetimes }, true)
  | some generation ↦ if generation == 0 then (st, false) else (
    record st { frame_lifetimes = put_in tab frame (generation + 1) st.frame_lifetimes },
    true,
  )
]

unfoldable pub register_frame_lifetime : Option ℕ → String → State → State × Bool
unfolding register_known
register_frame_lifetime none frame st = (st, false)
register_frame_lifetime (some tab) frame st =
    if is_blank frame then (st, false) else register_known tab frame st

unfoldable pub is_frame_lifetime_active : Option ℕ → String → State → Bool
is_frame_lifetime_active none frame st = false
is_frame_lifetime_active (some tab) frame st =
    not (is_blank frame) && (elim (get_in tab frame st.frame_lifetimes) [
      | none ↦ false
      | some generation ↦ ltb 0 generation
    ])

unfoldable pub retire_frame_lifetime : Option ℕ → String → State → State
retire_frame_lifetime none frame st = st
retire_frame_lifetime (some tab) frame st =
    if is_blank frame
    then st
    else record st { frame_lifetimes = put_in tab frame 0 st.frame_lifetimes }
