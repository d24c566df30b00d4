-- ===== src/External/Links.antt =====
-- A table of pairs with a composite key, as Prisma gives access to it: the rows that link one record
-- to another, each at most once.
pub mod Memory
use backend_core_platform.Container.JsSet.{has}
use backend_core_platform.Base.{
  String, ◌≡◌, Bool, true, false, ◌&&◌, List, ◌==◌, Eq_ℕ, Eq_String, if◌then◌else◌,
}

pub record Links : Type 1 where
  pub Db : Type 0
  pub linked : String → String → Db → Bool
  -- What one record is linked to, in the order in which the rows come.
  pub targets : String → Db → List String
  pub add : String → String → Db → Db
  pub remove : String → String → Db → Db
  -- All rows of the one record, and all rows of the other one, which its deletion takes with it.
  pub remove_source : String → Db → Db
  pub remove_target : String → Db → Db
  pub has-targets : (a b : String) (db : Db) → has b (targets a db) ≡ linked a b db
  pub linked-add :
      (x y a b : String) (db : Db)
      → linked x y (add a b db) ≡ (if a == x && b == y then true else linked x y db)
  pub linked-remove :
      (x y a b : String) (db : Db)
      → linked x y (remove a b db) ≡ (if a == x && b == y then false else linked x y db)
  pub linked-remove_source :
      (x y a : String) (db : Db)
      → linked x y (remove_source a db) ≡ (if a == x then false else linked x y db)
  pub linked-remove_target :
      (x y b : String) (db : Db)
      → linked x y (remove_target b db) ≡ (if b == y then false else linked x y db)
