-- ===== src/Ownership/State/Tables.antt =====
-- Laws of the two-level maps, and the shape that every operation keeps.
use ff_web_hid.Prelude.{
  [], ◌∷◌, none, some, none, Eq, ◌==◌, if◌then◌else◌, ◌≡◌, ◌≢◌, arith, Bool-cases, inl, inr,
}
use ff_web_hid.Prelude.Maps.{
  Map, get, put, del, put-ne-nil, get-put, get-del, HasDistinctKeys, put-HasDistinctKeys,
  del-HasDistinctKeys,
}
use ff_web_hid.Ownership.State.{inner, put_in, drop_empty, get_in}

module _ {D : Type 0} {K : Type 0} {V : Type 0} ⦃e : Eq D⦄ ⦃f : Eq K⦄ where
  -- Distinct keys on both levels, and no empty inner map.
  pub record IsTable (t : Map D (Map K V)) : Type 0 where
    pub outer : HasDistinctKeys t
    pub inners : (d : D) → HasDistinctKeys (inner d t)
    pub no_empty : (d : D) → get d t ≢ some []

  pub inner_of_get : (d : D) (m : Map K V) (t : Map D (Map K V)) → get d t ≡ some m → inner d t ≡ m
  unfolding inner
  inner_of_get d m t h = rw (h, inner)

  pub inner_of_none : (d : D) (t : Map D (Map K V)) → get d t ≡ none → inner d t ≡ []
  unfolding inner
  inner_of_none d t h = rw (h, inner)

  pub inner-put :
      (d j : D) (m : Map K V) (t : Map D (Map K V))
      → inner j (put d m t) ≡ (if d == j then m else inner j t)
  unfolding inner
  inner-put d j m t = ground (arith, get-put d j m t)

  pub inner-del :
      (d j : D) (t : Map D (Map K V)) → inner j (del d t) ≡ (if d == j then [] else inner j t)
  unfolding inner
  inner-del d j t = ground (arith, get-del d j t)

  pub inner-drop_empty :
      (d j : D) (m : Map K V) (t : Map D (Map K V))
      → inner j (drop_empty d m t) ≡ (if d == j then m else inner j t)
  unfolding inner drop_empty
  inner-drop_empty d j [] t = ground (arith, get-del d j t)
  inner-drop_empty d j (x ∷ m) t = ground (arith, get-put d j (x ∷ m) t)

  pub get_in-put_in :
      (d j : D) (k i : K) (v : V) (t : Map D (Map K V))
      → get_in j i (put_in d k v t)
        ≡ (if d == j then (if k == i then some v else get_in j i t) else get_in j i t)
  unfolding get_in put_in
  get_in-put_in d j k i v t =
      ground
        (arith, e.beq_iff d j, inner-put d j (put k v (inner d t)) t, get-put k i v (inner d t))

  pub put-IsTable :
      (d : D) (m : Map K V) (t : Map D (Map K V))
      → HasDistinctKeys m
      → m ≢ []
      → IsTable t
      → IsTable (put d m t)
  put-IsTable d m t hm full h = record {
    outer = put-HasDistinctKeys d m t h.outer;
    inners = λ j. rw (inner-put d j m t) (elim (Bool-cases (d == j)) [
      | inl same ↦ rw same hm
      | inr differ ↦ rw differ (h.inners j)
    ]);
    no_empty = λ j eq. ground (arith, get-put d j m t, full, h.no_empty j);
  }

  pub put_in-IsTable :
      (d : D) (k : K) (v : V) (t : Map D (Map K V)) → IsTable t → IsTable (put_in d k v t)
  unfolding put_in
  put_in-IsTable d k v t h = record {
    outer = put-HasDistinctKeys d (put k v (inner d t)) t h.outer;
    inners = λ j. rw (inner-put d j (put k v (inner d t)) t) (elim (Bool-cases (d == j)) [
      | inl same ↦ rw same (put-HasDistinctKeys k v (inner d t) (h.inners d))
      | inr differ ↦ rw differ (h.inners j)
    ]);
    no_empty = λ j eq.
        ground
          (arith, get-put d j (put k v (inner d t)) t, put-ne-nil k v (inner d t), h.no_empty j);
  }

  pub drop_empty-IsTable :
      (d : D) (m : Map K V) (t : Map D (Map K V))
      → HasDistinctKeys m
      → IsTable t
      → IsTable (drop_empty d m t)
  unfolding drop_empty
  drop_empty-IsTable d m t hm h = record {
    outer = outer m hm;
    inners = λ j. rw (inner-drop_empty d j m t) (elim (Bool-cases (d == j)) [
      | inl same ↦ rw same hm
      | inr differ ↦ rw differ (h.inners j)
    ]);
    no_empty = no_empty m;
  }
    where
      outer : (m : Map K V) → HasDistinctKeys m → HasDistinctKeys (drop_empty d m t)
      outer [] hm = del-HasDistinctKeys d t h.outer
      outer (x ∷ m) hm = put-HasDistinctKeys d (x ∷ m) t h.outer

      no_empty : (m : Map K V) (j : D) → get j (drop_empty d m t) ≢ some []
      no_empty [] j eq = ground (arith, get-del d j t, h.no_empty j)
      no_empty (x ∷ m) j eq = ground (arith, get-put d j (x ∷ m) t, h.no_empty j)

  pub nil-IsTable : IsTable []
  unfolding inner get
  nil-IsTable = record { outer = tt; inners = λ d. tt; no_empty = λ d h. cc }

  pub del-IsTable : (d : D) (t : Map D (Map K V)) → IsTable t → IsTable (del d t)
  unfolding drop_empty
  del-IsTable d t h = drop_empty-IsTable d [] t tt h
