-- ===== src/Ownership/Opens/Shape.antt =====
-- The shape of the table of opens: no empty map of tabs, and no tab with a count of 0.
use ff_web_hid.Prelude.{
  ℕ, ◌+◌, ◌-◌, ◌<◌, [], ◌∷◌, Option, none, some, Bool, true, false, ltb, ◌==◌, nat_eq,
  if◌then◌else◌, ◌≡◌, ◌≢◌, ◌↔◌, refl, arith, Option-cases, Bool-cases, inl, inr, subst,
}
use ff_web_hid.Prelude.Maps.{
  Map, put-ne-nil, get, put, del, get-put, get-del, contains, contains-keys_where, keys_where,
  HasDistinctKeys, put-HasDistinctKeys, del-HasDistinctKeys, holds,
}
use ff_web_hid.Ownership.State.{State, get_in, inner, drop_empty}
use ff_web_hid.Ownership.State.Tables.{
  IsTable, get_in-put_in, inner-put, inner-drop_empty, inner_of_get, put_in-IsTable,
  drop_empty-IsTable, put-IsTable,
}
use ff_web_hid.Ownership.Opens.{
  or_zero, register_device_tab, unregister_device_tab, unregister_known, tabs_of, tabs_for_event,
}
use ff_web_hid.Ownership.Opens.Counts.{opens}

pub record IsCounter (t : Map ℕ (Map ℕ ℕ)) : Type 0 where
  pub table : IsTable t
  pub positive : (d k : ℕ) → get_in d k t ≢ some 0

-- Registering keeps the shape.
pub register_device_tab-IsCounter :
    (device : ℕ) (tab : Option ℕ) (st : State)
    → IsCounter st.device_tabs
    → IsCounter (register_device_tab device tab st).device_tabs
unfolding register_device_tab
register_device_tab-IsCounter device none st h = h
register_device_tab-IsCounter device (some tab) st h =
    let n = or_zero (get_in device tab st.device_tabs) + 1 in
    elim (Bool-cases (device == 0)) [
      | inl zeroth ↦ rw zeroth h
      | inr other ↦ rw other (record {
        table = put_in-IsTable device tab n st.device_tabs h.table;
        positive =
            λ d k e. ground (arith, get_in-put_in device d tab k n st.device_tabs, h.positive d k);
      })
    ]

-- Dropping tabs from the map of a device keeps the shape.
pub drop_empty-IsCounter :
    (device : ℕ) (tabs : Map ℕ ℕ) (t : Map ℕ (Map ℕ ℕ))
    → HasDistinctKeys tabs
    → ((k : ℕ) → get k tabs ≢ some 0)
    → IsCounter t
    → IsCounter (drop_empty device tabs t)
drop_empty-IsCounter device tabs t distinct pos h = record {
  table = drop_empty-IsTable device tabs t distinct h.table;
  positive = λ d k.
      unfold get_in in
      λ e. ground (arith, inner-drop_empty device d tabs t, pos k, positive_inner d k);
}
  where
    positive_inner : (d k : ℕ) → get k (inner d t) ≢ some 0
    positive_inner d k = unfold get_in in h.positive d k

get_in-put :
    (device d k : ℕ) (tabs : Map ℕ ℕ) (t : Map ℕ (Map ℕ ℕ))
    → get_in d k (put device tabs t) ≡ (if device == d then get k tabs else get_in d k t)
unfolding get_in
get_in-put device d k tabs t = ground (arith, inner-put device d tabs t)

abbrev is_nil : Map ℕ ℕ → Bool
is_nil [] = true
is_nil (x ∷ tabs) = false

pub inner_positive :
    (device : ℕ) (tabs : Map ℕ ℕ) (t : Map ℕ (Map ℕ ℕ))
    → get device t ≡ some tabs
    → IsCounter t
    → HasDistinctKeys tabs × ((k : ℕ) → get k tabs ≢ some 0)
unfolding get_in
inner_positive device tabs t e h =
    let same = inner_of_get device tabs t e in
    (
      subst HasDistinctKeys same (h.table.inners device),
      λ k. subst (λ m. get k m ≢ some 0) same (h.positive device k),
    )

unregister_known-IsCounter :
    (device tab : ℕ) (tabs : Map ℕ ℕ) (t : Map ℕ (Map ℕ ℕ))
    → get device t ≡ some tabs
    → IsCounter t
    → IsCounter (unregister_known device tab tabs t)
unfolding unregister_known
unregister_known-IsCounter device tab tabs t e h =
    let (distinct, pos) = inner_positive device tabs t e h in
    let n = or_zero (get tab tabs) - 1 in
    elim (Bool-cases (ltb 0 n)) [
      | inl left ↦ rw left (record {
        table =
            put-IsTable device (put tab n tabs) t (put-HasDistinctKeys tab n tabs distinct)
              (put-ne-nil tab n tabs) h.table;
        positive = λ d k. put_positive d k left;
      })
      | inr gone ↦ rw gone (
          drop_empty-IsCounter device (del tab tabs) t (del-HasDistinctKeys tab tabs distinct)
            (λ k e. ground (arith, get-del tab k tabs, pos k)) h)
    ]
  where
    put_positive :
        (d k : ℕ)
        → ltb 0 (or_zero (get tab tabs) - 1) ≡ true
        → get_in d k (put device (put tab (or_zero (get tab tabs) - 1) tabs) t) ≢ some 0
    put_positive d k left =
        let n = or_zero (get tab tabs) - 1 in
        let (distinct, pos) = inner_positive device tabs t e h in
        λ z. ground (
          arith,
          get_in-put device d k (put tab n tabs) t,
          get-put tab k n tabs,
          pos k,
          h.positive d k,
        )

-- Unregistering keeps the shape.
pub unregister_device_tab-IsCounter :
    (device : ℕ) (tab : Option ℕ) (st : State)
    → IsCounter st.device_tabs
    → IsCounter (unregister_device_tab device tab st).device_tabs
unfolding unregister_device_tab
unregister_device_tab-IsCounter device none st h = h
unregister_device_tab-IsCounter device (some tab) st h = elim (Bool-cases (device == 0)) [
  | inl zeroth ↦ rw zeroth h
  | inr other ↦ rw other (elim (Option-cases (get device st.device_tabs)) [
    | inl absent ↦ rw absent h
    | inr (tabs, present) ↦
        rw present (unregister_known-IsCounter device tab tabs st.device_tabs present h)
  ])
]

tabs_of-some :
    (tabs : Map ℕ ℕ)
    → tabs_of tabs ≡ (if is_nil tabs then none else some (keys_where (λ _ _. true) tabs))
unfolding tabs_of
tabs_of-some [] = refl
tabs_of-some (x ∷ tabs) = refl

-- The tabs that an event of a device goes to are exactly those that hold an open of it: none is left
-- out and none is added, and there is no list when no tab does.
pub tabs_for_event_iff :
    (device tab : ℕ) (st : State)
    → device ≢ 0
    → IsCounter st.device_tabs
    → (holds (contains tab) (tabs_for_event device st) ≡ true) ↔ (0 < opens device tab st)
unfolding tabs_for_event opens get_in
tabs_for_event_iff device tab st h counter =
    let tabs = inner device st.device_tabs in
    let found = contains-keys_where (λ _ _. true) tab tabs (counter.table.inners device) in
    ground (arith, tabs_of-some tabs, found, positive_inner, nil_case tabs)
  where
    positive_inner : get tab (inner device st.device_tabs) ≢ some 0
    positive_inner = unfold get_in in counter.positive device tab

    nil_case : (tabs : Map ℕ ℕ) → is_nil tabs ≡ true → get tab tabs ≡ none
    nil_case [] e = unfold get in refl
    nil_case (x ∷ tabs) e = cc
