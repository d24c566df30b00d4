-- ===== src/External/Table/Memory.antt =====
-- A table as a list of rows, of which the first with an id counts: a value that shows that the
-- interface can be met.
use backend_core_platform.External.Table.{Table, KeepsId, option_map, one_if}
use backend_core_platform.Base.{
  ℕ, ◌+◌, String, ◌≡◌, refl, ap, ◌∙◌, inl, inr, Bool, true, false, not, ◌&&◌, Option, none, some,
  List, [], ◌∷◌, arith, eq_iff, eq_refl, ◌==◌, Eq_ℕ, Eq_String, if◌then◌else◌, Bool-cases,
  Option-cases, text_cases,
}

module _ {Row : Type 0} (id_of : Row → String) where
  unfoldable pub find : String → List Row → Option Row
  find i [] = none
  find i (r ∷ db) = if id_of r == i then some r else find i db

  -- The rows behind the first with its id are passed over.
  abbrev apart : String → (Row → Bool) → Row → Bool
  apart i p x = p x && not (id_of x == i)

  unfoldable pub find_first : (Row → Bool) → List Row → Option Row
  find_first p [] = none
  find_first p (r ∷ db) =
      let rest = find_first (apart (id_of r) p) db in if p r then some r else rest

  unfoldable pub count : (Row → Bool) → List Row → ℕ
  count p [] = 0
  count p (r ∷ db) = one_if (p r) + count (apart (id_of r) p) db

  unfoldable pub update_many : (Row → Bool) → (Row → Row) → List Row → List Row
  update_many p f [] = []
  update_many p f (r ∷ db) = (if p r then f r else r) ∷ update_many p f db

  unfoldable pub update : String → (Row → Row) → List Row → List Row
  unfolding update_many
  update i f db = update_many (λ r. id_of r == i) f db

  unfoldable pub delete : String → List Row → List Row
  delete i [] = []
  delete i (r ∷ db) = let rest = delete i db in if id_of r == i then rest else r ∷ rest

  pub find_id : (i : String) (r : Row) (db : List Row) → find i db ≡ some r → id_of r ≡ i
  unfolding find
  find_id i r [] h = cc
  find_id i r (x ∷ db) h = ground (arith, find_id i r db, eq_iff (id_of x) i)

  pub find_first_found :
      (p : Row → Bool) (r : Row) (db : List Row)
      → find_first p db ≡ some r
      → (find (id_of r) db ≡ some r) × (p r ≡ true)
  unfolding find find_first
  find_first_found p r [] h = cc
  find_first_found p r (x ∷ db) h = elim (Bool-cases (p x)) [
    | inl here ↦ ground (arith, eq_iff (id_of x) (id_of r))
    | inr later ↦ ground (
      arith,
      find_first_found (apart (id_of x) p) r db,
      eq_iff (id_of x) (id_of r),
      eq_iff (id_of r) (id_of x),
    )
  ]

  pub find_first_missing :
      (p : Row → Bool) (i : String) (r : Row) (db : List Row)
      → find_first p db ≡ none
      → find i db ≡ some r
      → p r ≡ false
  unfolding find find_first
  find_first_missing p i r [] h e = cc
  find_first_missing p i r (x ∷ db) h e = ground (
    arith,
    find_first_missing (apart (id_of x) p) i r db,
    find_id i r db,
    eq_iff (id_of x) i,
    eq_iff (id_of r) (id_of x),
  )

  pub find-create :
      (j : String) (r : Row) (db : List Row)
      → find j (r ∷ db) ≡ (if id_of r == j then some r else find j db)
  unfolding find
  find-create j r db = refl

  pub find-update_many :
      (j : String) (p : Row → Bool) (f : Row → Row) (db : List Row)
      → KeepsId id_of f
      → find j (update_many p f db) ≡ option_map (λ r. if p r then f r else r) (find j db)
  unfolding find update_many
  find-update_many j p f [] h = refl
  find-update_many j p f (r ∷ db) h = ground (arith, find-update_many j p f db h, h r)

  pub find-update :
      (j i : String) (f : Row → Row) (db : List Row)
      → KeepsId id_of f
      → find j (update i f db) ≡ (if i == j then option_map f (find j db) else find j db)
  unfolding update
  find-update j i f db h = elim (Option-cases (find j db)) [
    | inl missing ↦ ground (arith, find-update_many j (λ r. id_of r == i) f db h)
    | inr (r, found) ↦ ground (
      arith,
      find-update_many j (λ r. id_of r == i) f db h,
      find_id j r db,
      eq_iff (id_of r) i,
      eq_iff i j,
    )
  ]

  pub find-delete :
      (j i : String) (db : List Row) → find j (delete i db) ≡ (if i == j then none else find j db)
  unfolding find delete
  find-delete j i [] = ground arith
  find-delete j i (r ∷ db) =
      ground (arith, find-delete j i db, eq_iff (id_of r) i, eq_iff (id_of r) j, eq_iff i j)

  count_same :
      (p q : Row → Bool) (db : List Row)
      → ((i : String) (r : Row) → find i db ≡ some r → p r ≡ q r)
      → count p db ≡ count q db
  unfolding find count
  count_same p q [] h = refl
  count_same p q (x ∷ db) h =
      let tail : (i : String) (r : Row)
          → find i db ≡ some r
          → apart (id_of x) p r ≡ apart (id_of x) q r =
        λ i r e.
          ground (arith, h i r, find_id i r db, eq_iff (id_of x) i, eq_iff (id_of r) (id_of x)) in
      ground (
        arith,
        h (id_of x) x,
        eq_refl (id_of x),
        count_same (apart (id_of x) p) (apart (id_of x) q) db tail,
      )

  pub count_none :
      (p : Row → Bool) (db : List Row)
      → ((i : String) (r : Row) → find i db ≡ some r → p r ≡ false)
      → count p db ≡ 0
  unfolding find count
  count_none p [] h = refl
  count_none p (x ∷ db) h =
      let tail : (i : String) (r : Row) → find i db ≡ some r → apart (id_of x) p r ≡ false =
        λ i r e.
          ground (arith, h i r, find_id i r db, eq_iff (id_of x) i, eq_iff (id_of r) (id_of x)) in
      ground (arith, h (id_of x) x, eq_refl (id_of x), count_none (apart (id_of x) p) db tail)

  pub count-create :
      (p : Row → Bool) (r : Row) (db : List Row)
      → find (id_of r) db ≡ none
      → count p (r ∷ db) ≡ one_if (p r) + count p db
  unfolding count
  count-create p r db new =
      let same : (i : String) (x : Row) → find i db ≡ some x → apart (id_of r) p x ≡ p x =
        λ i x e. ground (arith, find_id i x db, eq_iff (id_of x) (id_of r)) in
      ap (λ n. one_if (p r) + n) (count_same (apart (id_of r) p) p db same)

  -- A change at an id that the condition leaves out.
  count-update_apart :
      (p : Row → Bool) (i : String) (f : Row → Row) (db : List Row)
      → KeepsId id_of f
      → ((r : Row) → id_of r ≡ i → p r ≡ false)
      → count p (update i f db) ≡ count p db
  unfolding count update
  count-update_apart p i f [] keeps out = refl
  count-update_apart p i f (x ∷ db) keeps out =
      let tail =
        count-update_apart (apart (id_of x) p) i f db keeps (λ r e. ground (arith, out r e)) in
      elim (text_cases (id_of x) i) [
        | inl (t, e) ↦ rw t (rw (keeps x) (ground (arith, out x e, out (f x) (keeps x ∙ e), tail)))
        | inr (t, _) ↦ rw t (ap (λ n. one_if (p x) + n) tail)
      ]

  pub count-update :
      (p : Row → Bool) (i : String) (f : Row → Row) (r : Row) (db : List Row)
      → KeepsId id_of f
      → find i db ≡ some r
      → count p (update i f db) + one_if (p r) ≡ count p db + one_if (p (f r))
  unfolding find count update
  count-update p i f r [] keeps e = cc
  count-update p i f r (x ∷ db) keeps e = elim (text_cases (id_of x) i) [
    | inl (t, same) ↦
        let hit : x ≡ r = ground (arith, t, e) in
        rw t (
          rw (keeps x) (
            ground (
              arith,
              hit,
              count-update_apart (apart (id_of x) p) i f db keeps
                  (λ y k. ground (arith, k, same, eq_iff (id_of y) (id_of x))),
            )))
    | inr (t, other) ↦
        let later : find i db ≡ some r = ground (arith, t, e) in
        let tail = count-update (apart (id_of x) p) i f r db keeps later in
        rw t (
          ground (
            arith,
            tail,
            find_id i r db later,
            keeps r,
            eq_iff (id_of r) (id_of x),
            eq_iff (id_of (f r)) (id_of x),
          ))
  ]

  abbrev pub memory : Table Row id_of
  memory = record {
    Db = List Row;
    find = find;
    find_first = find_first;
    count = count;
    create = λ r db. r ∷ db;
    update = update;
    update_many = update_many;
    delete = delete;
    find_id = find_id;
    find_first_found = find_first_found;
    find_first_missing = find_first_missing;
    find-create = find-create;
    find-update = find-update;
    find-update_many = find-update_many;
    find-delete = find-delete;
    count-create = count-create;
    count-update = count-update;
    count_none = count_none;
  }
