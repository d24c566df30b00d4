-- ===== src/External/Table.antt =====
-- A table of the database as Prisma gives access to it: rows with an id, and the queries that the
-- services make. The id of a new row, a uuid that the database draws, is part of the row.
pub mod Memory
pub mod Queries
use backend_core_platform.Base.{
  ℕ, ◌+◌, String, ◌≡◌, Bool, true, false, Option, none, some, ◌==◌, Eq_ℕ, Eq_String, if◌then◌else◌,
}

abbrev pub option_map : {A B : Type 0} → (A → B) → Option A → Option B
option_map f none = none
option_map f (some a) = some (f a)

-- One row where a test holds.
abbrev pub one_if : Bool → ℕ
one_if true = 1
one_if false = 0

-- A change that leaves the id of every row as it is.
abbrev pub KeepsId : {Row : Type 0} → (Row → String) → (Row → Row) → Type 0
KeepsId {Row} id_of f = (r : Row) → id_of (f r) ≡ id_of r

pub record Table (Row : Type 0) (id_of : Row → String) : Type 1 where
  pub Db : Type 0
  pub find : String → Db → Option Row
  pub find_first : (Row → Bool) → Db → Option Row
  pub count : (Row → Bool) → Db → ℕ
  pub create : Row → Db → Db
  pub update : String → (Row → Row) → Db → Db
  pub update_many : (Row → Bool) → (Row → Row) → Db → Db
  pub delete : String → Db → Db
  pub find_id : (i : String) (r : Row) (db : Db) → find i db ≡ some r → id_of r ≡ i
  -- Without an order, any row that meets the condition may be the first.
  pub find_first_found :
      (p : Row → Bool) (r : Row) (db : Db)
      → find_first p db ≡ some r
      → (find (id_of r) db ≡ some r) × (p r ≡ true)
  pub find_first_missing :
      (p : Row → Bool) (i : String) (r : Row) (db : Db)
      → find_first p db ≡ none
      → find i db ≡ some r
      → p r ≡ false
  pub find-create :
      (j : String) (r : Row) (db : Db)
      → find j (create r db) ≡ (if id_of r == j then some r else find j db)
  pub find-update :
      (j i : String) (f : Row → Row) (db : Db)
      → KeepsId id_of f
      → find j (update i f db) ≡ (if i == j then option_map f (find j db) else find j db)
  pub find-update_many :
      (j : String) (p : Row → Bool) (f : Row → Row) (db : Db)
      → KeepsId id_of f
      → find j (update_many p f db) ≡ option_map (λ r. if p r then f r else r) (find j db)
  pub find-delete :
      (j i : String) (db : Db) → find j (delete i db) ≡ (if i == j then none else find j db)
  pub count-create :
      (p : Row → Bool) (r : Row) (db : Db)
      → find (id_of r) db ≡ none
      → count p (create r db) ≡ one_if (p r) + count p db
  pub count-update :
      (p : Row → Bool) (i : String) (f : Row → Row) (r : Row) (db : Db)
      → KeepsId id_of f
      → find i db ≡ some r
      → count p (update i f db) + one_if (p r) ≡ count p db + one_if (p (f r))
  pub count_none :
      (p : Row → Bool) (db : Db)
      → ((i : String) (r : Row) → find i db ≡ some r → p r ≡ false)
      → count p db ≡ 0
