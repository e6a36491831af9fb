-- ===== src/Bridge/Keys.antt =====
-- The keys of data planes in addon/js/content/isolated/bridge.js: planeKey and planeKeyForClient, and the
-- functions that read a key. A text is the list of its character codes.
use mathlib.Core.List.{append_assoc}
use ff_web_hid.Prelude.{
  ℕ, suc, List, [], ◌∷◌, ◌++◌, Option, none, some, Bool, true, false, ◌==◌, nat_eq, ◌&&◌, take,
  drop, if◌then◌else◌, ◌≡◌, ◌≢◌, refl, ap, sym, ◌∙◌, arith, Bool-cases, inl, inr, length, All,
  take_append_exact,
}

unfoldable pub same_text : List ℕ → List ℕ → Bool
same_text [] [] = true
same_text [] (b ∷ bs) = false
same_text (a ∷ cs) [] = false
same_text (a ∷ cs) (b ∷ bs) = a == b && same_text cs bs

-- 'window'
abbrev pub window : List ℕ
window = 119 ∷ 105 ∷ 110 ∷ 100 ∷ 111 ∷ 119 ∷ []

-- `text.indexOf('\u0000')`, with none for -1.
unfoldable pub index_of_nul : List ℕ → Option ℕ
index_of_nul [] = none
index_of_nul (c ∷ cs) =
    let rest = index_of_nul cs in
    if c == 0 then some 0 else elim rest [ none ↦ none | some i ↦ some (suc i) ]

unfoldable pub plane_key : List ℕ → List ℕ → List ℕ
plane_key context_key device_id = context_key ++ (0 ∷ device_id)

unfoldable pub plane_key_for_client : List ℕ → List ℕ → List ℕ → List ℕ
unfolding plane_key same_text
plane_key_for_client context_key device_id client_key =
    if same_text client_key window
    then plane_key context_key device_id
    else plane_key context_key device_id ++ (0 ∷ client_key)

-- contextForPlaneKey, as the key that it looks up.
unfoldable pub context_key_for_plane_key : List ℕ → Option (List ℕ)
context_key_for_plane_key key = elim (index_of_nul key) [
  | none ↦ none
  | some separator ↦ some (take separator key)
]

unfoldable pub before_nul : List ℕ → List ℕ
before_nul rest = elim (index_of_nul rest) [ none ↦ rest | some i ↦ take i rest ]

unfoldable pub device_id_for_plane_key : List ℕ → List ℕ
unfolding before_nul
device_id_for_plane_key key = elim (index_of_nul key) [
  | none ↦ key
  | some separator ↦ before_nul (drop (suc separator) key)
]

unfoldable pub after_nul : List ℕ → List ℕ
after_nul rest = elim (index_of_nul rest) [ none ↦ window | some i ↦ drop (suc i) rest ]

unfoldable pub client_key_for_plane_key : List ℕ → List ℕ
unfolding after_nul
client_key_for_plane_key key = elim (index_of_nul key) [
  | none ↦ window
  | some separator ↦ after_nul (drop (suc separator) key)
]

-- A text without the separator.
abbrev pub IsPlain : List ℕ → Type 0
IsPlain = All (λ c. c ≢ 0)

index_of_nul-plain : (cs : List ℕ) → IsPlain cs → index_of_nul cs ≡ none
unfolding index_of_nul
index_of_nul-plain [] h = refl
index_of_nul-plain (c ∷ cs) (h, hs) = ground (arith, index_of_nul-plain cs hs)

index_of_nul-append :
    (cs ds : List ℕ) → IsPlain cs → index_of_nul (cs ++ (0 ∷ ds)) ≡ some (length cs)
unfolding index_of_nul
index_of_nul-append [] ds h = refl
index_of_nul-append (c ∷ cs) ds (h, hs) = ground (arith, index_of_nul-append cs ds hs)

drop-append_more :
    (cs : List ℕ) (c : ℕ) (ds : List ℕ) → drop (suc (length cs)) (cs ++ (c ∷ ds)) ≡ ds
drop-append_more [] c ds = refl
drop-append_more (b ∷ cs) c ds = drop-append_more cs c ds

same_text_sound : (cs bs : List ℕ) → same_text cs bs ≡ true → cs ≡ bs
unfolding same_text
same_text_sound [] [] h = refl
same_text_sound [] (b ∷ bs) h = absurd (ground arith)
same_text_sound (a ∷ cs) [] h = absurd (ground arith)
same_text_sound (a ∷ cs) (b ∷ bs) h = ground (arith, same_text_sound cs bs, nat_eq.beq_iff a b)

before_nul-plain : (cs : List ℕ) → IsPlain cs → before_nul cs ≡ cs
unfolding before_nul
before_nul-plain cs h = rw (index_of_nul-plain cs h, before_nul) refl

before_nul-append : (cs ds : List ℕ) → IsPlain cs → before_nul (cs ++ (0 ∷ ds)) ≡ cs
unfolding before_nul
before_nul-append cs ds h =
    rw (index_of_nul-append cs ds h, before_nul) (take_append_exact cs (0 ∷ ds))

after_nul-plain : (cs : List ℕ) → IsPlain cs → after_nul cs ≡ window
unfolding after_nul
after_nul-plain cs h = rw (index_of_nul-plain cs h, after_nul) refl

after_nul-append : (cs ds : List ℕ) → IsPlain cs → after_nul (cs ++ (0 ∷ ds)) ≡ ds
unfolding after_nul
after_nul-append cs ds h = rw (index_of_nul-append cs ds h, after_nul) (drop-append_more cs 0 ds)

-- What the three readers make of a key whose first part has no separator.
readers-append :
    (cs ds : List ℕ)
    → IsPlain cs
    → (context_key_for_plane_key (cs ++ (0 ∷ ds)) ≡ some cs)
      × (device_id_for_plane_key (cs ++ (0 ∷ ds)) ≡ before_nul ds)
      × (client_key_for_plane_key (cs ++ (0 ∷ ds)) ≡ after_nul ds)
unfolding context_key_for_plane_key device_id_for_plane_key client_key_for_plane_key
readers-append cs ds h =
    rw
      (
        index_of_nul-append cs ds h,
        context_key_for_plane_key,
        device_id_for_plane_key,
        client_key_for_plane_key,
      )
      (
        ap some (take_append_exact cs (0 ∷ ds)),
        ap before_nul (drop-append_more cs 0 ds),
        ap after_nul (drop-append_more cs 0 ds),
      )

-- The key of a client's plane gives back the context's key, the device's id and the client's key, when the
-- context's key and the device's id contain no separator; the key of the client is any text.
pub plane_key_for_client-read :
    (context_key device_id client_key : List ℕ)
    → IsPlain context_key
    → IsPlain device_id
    → (let key = plane_key_for_client context_key device_id client_key in
        (context_key_for_plane_key key ≡ some context_key)
        × (device_id_for_plane_key key ≡ device_id)
        × (client_key_for_plane_key key ≡ client_key))
unfolding plane_key_for_client plane_key
plane_key_for_client-read context_key device_id client_key h k =
    elim (Bool-cases (same_text client_key window)) [
      | inl same ↦
          let (a, b, c) = readers-append context_key device_id h in
          rw (same, plane_key_for_client)
            (
              a,
              b ∙ before_nul-plain device_id k,
              c ∙ after_nul-plain device_id k ∙ sym (same_text_sound client_key window same),
            )
      | inr other ↦
          let (a, b, c) = readers-append context_key (device_id ++ (0 ∷ client_key)) h in
          rw
            (other, plane_key_for_client, append_assoc context_key (0 ∷ device_id) (0 ∷ client_key))
            (
              a,
              b ∙ before_nul-append device_id client_key k,
              c ∙ after_nul-append device_id client_key k,
            )
    ]
