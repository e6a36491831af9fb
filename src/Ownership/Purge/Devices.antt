-- ===== src/Ownership/Purge/Devices.antt =====
-- The devices that a purge goes through, and the closes that it starts.
use ff_web_hid.Prelude.{
  ℕ, String, List, [], ◌∷◌, ◌++◌, none, Bool, true, false, ◌&&◌, ◌||◌, ◌==◌, nat_eq, string_eq,
  if◌then◌else◌, ◌≡◌, refl, arith, inl, inr, ◌∙◌, Bool-cases, ap,
}
use ff_web_hid.Prelude.Maps.{get, keys_where, contains, contains-keys_where}
use ff_web_hid.Ownership.State.{State, get_in}
use ff_web_hid.Ownership.State.Tables.{IsTable, inner_of_none}
use ff_web_hid.Ownership.Sessions.Lookup.{session, no_session}
use ff_web_hid.Ownership.Opens.Counts.{opens, count-nil}
use ff_web_hid.Ownership.Cleanup.{Closing, start_close}
use ff_web_hid.Ownership.Purge.{add_keys, device_ids, start_all}

contains-append :
    (d : ℕ) (xs ys : List ℕ) → contains d (xs ++ ys) ≡ (contains d xs || contains d ys)
unfolding contains
contains-append d [] ys = refl
contains-append d (x ∷ xs) ys = ground (arith, contains-append d xs ys)

contains-add_keys :
    (d : ℕ) (seen ks : List ℕ) → contains d (add_keys seen ks) ≡ (contains d seen || contains d ks)
unfolding add_keys
contains-add_keys d seen [] = unfold contains in ground arith
contains-add_keys d seen (k ∷ ks) = elim (Bool-cases (contains k seen)) [
  | inl old ↦ rw old (contains-add_keys d seen ks ∙ repeated d k seen ks old)
  | inr new ↦ rw new (contains-add_keys d (seen ++ (k ∷ [])) ks ∙ added d k seen ks)
]
  where
    repeated :
        (d k : ℕ) (seen ks : List ℕ)
        → contains k seen ≡ true
        → (contains d seen || contains d ks) ≡ (contains d seen || contains d (k ∷ ks))
    repeated d k seen ks old = unfold contains in ground arith

    added :
        (d k : ℕ) (seen ks : List ℕ)
        → (contains d (seen ++ (k ∷ [])) || contains d ks)
          ≡ (contains d seen || contains d (k ∷ ks))
    added d k seen ks = rw (contains-append d seen (k ∷ [])) (unfold contains in ground arith)

-- No device twice.
abbrev pub IsDistinct : List ℕ → Type 0
IsDistinct [] = Unit
IsDistinct (d ∷ ds) = (contains d ds ≡ false) × IsDistinct ds

append-IsDistinct :
    (xs : List ℕ) (k : ℕ) → IsDistinct xs → contains k xs ≡ false → IsDistinct (xs ++ (k ∷ []))
unfolding contains
append-IsDistinct [] k h new = (refl, tt)
append-IsDistinct (x ∷ xs) k (h, hs) new =
    (ground (arith, contains-append x xs (k ∷ [])), append-IsDistinct xs k hs (ground arith))

add_keys-IsDistinct : (seen ks : List ℕ) → IsDistinct seen → IsDistinct (add_keys seen ks)
unfolding add_keys
add_keys-IsDistinct seen [] h = h
add_keys-IsDistinct seen (k ∷ ks) h = elim (Bool-cases (contains k seen)) [
  | inl old ↦ rw old (add_keys-IsDistinct seen ks h)
  | inr new ↦ rw new (add_keys-IsDistinct (seen ++ (k ∷ [])) ks (append-IsDistinct seen k h new))
]

pub device_ids-IsDistinct : (st : State) → IsDistinct (device_ids st)
unfolding device_ids
device_ids-IsDistinct st =
    add_keys-IsDistinct (add_keys [] (keys_where (λ _ _. true) st.device_sessions))
      (keys_where (λ _ _. true) st.device_tabs)
      (add_keys-IsDistinct [] (keys_where (λ _ _. true) st.device_sessions) tt)

contains-device_ids :
    (d : ℕ) (st : State)
    → contains d (device_ids st) ≡ (
        contains d (keys_where (λ _ _. true) st.device_sessions)
        || contains d (keys_where (λ _ _. true) st.device_tabs))
unfolding device_ids
contains-device_ids d st =
    contains-add_keys d (add_keys [] (keys_where (λ _ _. true) st.device_sessions))
      (keys_where (λ _ _. true) st.device_tabs)
    ∙ ap (λ b. b || contains d (keys_where (λ _ _. true) st.device_tabs))
        (contains-add_keys d [] (keys_where (λ _ _. true) st.device_sessions)
          ∙ unfold contains in refl)

-- A device that a purge does not go through has no session and no open.
module _ (d : ℕ) (st : State) (sessions : IsTable st.device_sessions)
    (tabs : IsTable st.device_tabs) (missed : contains d (device_ids st) ≡ false) where
  missed_tables : (get d st.device_sessions ≡ none) × (get d st.device_tabs ≡ none)
  missed_tables =
      let absent_session = contains-keys_where (λ _ _. true) d st.device_sessions sessions.outer in
      let absent_tab = contains-keys_where (λ _ _. true) d st.device_tabs tabs.outer in
      (
        ground (arith, contains-device_ids d st, missed, absent_session),
        ground (arith, contains-device_ids d st, missed, absent_tab),
      )

  pub missed_session : (k : String) → session d k st ≡ none
  unfolding get_in
  missed_session k = rw (inner_of_none d st.device_sessions missed_tables.0) (no_session k)

  pub missed_opens : (t : ℕ) → opens d t st ≡ 0
  unfolding opens get_in
  missed_opens t = rw (inner_of_none d st.device_tabs missed_tables.1) (count-nil t)

-- A state that differs from another in its opens alone.
abbrev pub IsSameElsewhere : State → State → Type 0
IsSameElsewhere st' st =
    (st'.device_sessions ≡ st.device_sessions)
    × (st'.orphan_cleanup ≡ st.orphan_cleanup)
    × (st'.frame_lifetimes ≡ st.frame_lifetimes)
    × (st'.next_ref ≡ st.next_ref)

pub IsSameElsewhere-trans :
    (a b c : State) → IsSameElsewhere a b → IsSameElsewhere b c → IsSameElsewhere a c
IsSameElsewhere-trans a b c (s, o, f, n) (s', o', f', n') = (s ∙ s', o ∙ o', f ∙ f', n ∙ n')

-- Whether a list of closes asks for the close of a session.
unfoldable pub asks : ℕ → String → List Closing → Bool
asks d k [] = false
asks d k (c ∷ cs) = if c.device_id == d && c.token == k then true else asks d k cs

pub asks-append :
    (d : ℕ) (k : String) (xs ys : List Closing) → asks d k (xs ++ ys) ≡ (asks d k xs || asks d k ys)
unfolding asks
asks-append d k [] ys = refl
asks-append d k (x ∷ xs) ys = ground (arith, asks-append d k xs ys)

pub asks-start_all :
    (d device : ℕ) (k : String) (tokens : List String) (st : State)
    → asks d k (start_all device tokens st) ≡ (device == d && contains k tokens)
unfolding asks start_all start_close contains
asks-start_all d device k [] st = ground arith
asks-start_all d device k (token ∷ tokens) st = ground (arith, asks-start_all d device k tokens st)
