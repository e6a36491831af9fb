-- ===== src/Grants/Stores.antt =====
-- An object store of IndexedDB, which is not part of the program: its operations, and what their
-- documentation says of them. The list implementation shows that the laws can hold.
use ff_web_hid.Prelude.{
  ℕ, String, List, [], Option, none, some, true, ◌&&◌, Eq, ◌==◌, nat_eq, string_eq, if◌then◌else◌,
  ◌≡◌, refl, arith, ◌↔◌,
}
use ff_web_hid.Prelude.Maps.{Map, get, put, del, get-put, get-del}

-- The composite key [origin, deviceId].
pub pair_iff : (j k : String × ℕ) → ((j.0 == k.0 && (j.1 == k.1)) ≡ true) ↔ (j ≡ k)
pair_iff (a, m) (b, n) = ground (arith, string_eq.beq_iff a b)

instance abbrev pub pair_eq : Eq (String × ℕ)
pair_eq = record { beq = λ j k. j.0 == k.0 && (j.1 == k.1); beq_iff = pair_iff }

-- `all` is getAll(): every row with its key.
pub record ObjectStore (K V : Type 0) ⦃e : Eq K⦄ : Type 1 where
  pub Rows : Type 0
  pub no_rows : Rows
  pub put_row : K → V → Rows → Rows
  pub delete_row : K → Rows → Rows
  pub get_row : K → Rows → Option V
  pub all : Rows → List (K × V)
  pub get_row-no_rows : (k : K) → get_row k no_rows ≡ none
  pub get_row-put_row :
      (k j : K) (v : V) (rows : Rows)
      → get_row j (put_row k v rows) ≡ (if k == j then some v else get_row j rows)
  pub get_row-delete_row :
      (k j : K) (rows : Rows)
      → get_row j (delete_row k rows) ≡ (if k == j then none else get_row j rows)
  pub get-all : (k : K) (rows : Rows) → get k (all rows) ≡ get_row k rows

module _ {K V : Type 0} ⦃e : Eq K⦄ where
  pub no_entry : (k : K) → get {V = V} k [] ≡ none
  unfolding get
  no_entry k = refl

  abbrev pub list_store : ObjectStore K V
  list_store = record {
    Rows = Map K V;
    no_rows = [];
    put_row = put;
    delete_row = del;
    get_row = get;
    all = λ rows. rows;
    get_row-no_rows = no_entry;
    get_row-put_row = get-put;
    get_row-delete_row = get-del;
    get-all = λ k rows. refl;
  }
