-- ===== src/External/Links/Memory.antt =====
-- Links as a set for each record: a value that shows that the interface can be met.
use backend_core_platform.Container.JsSet.{has, has-add, has-delete}
use backend_core_platform.Container.JsSet
use backend_core_platform.External.Links.{Links}
use backend_core_platform.Base.{
  String, ◌≡◌, refl, true, false, ◌&&◌, List, [], arith, ◌==◌, Eq_ℕ, Eq_String, if◌then◌else◌,
  Bool-cases,
}

abbrev pub Sets : Type 0
Sets = String → List String

-- The set of one record replaced by what a function makes of it.
abbrev pub at : String → (List String → List String) → Sets → Sets
at a f db x = if a == x then f (db x) else db x

pub linked_at :
    (x y a : String) (f : List String → List String) (db : Sets)
    → has y (at a f db x) ≡ (if a == x then has y (f (db x)) else has y (db x))
linked_at x y a f db = ground (arith, Bool-cases (a == x))

pub linked-add :
    (x y a b : String) (db : Sets)
    → has y (at a (JsSet.add b) db x) ≡ (if a == x && b == y then true else has y (db x))
linked-add x y a b db = ground (arith, linked_at x y a (JsSet.add b) db, has-add y b (db x))

pub linked-delete :
    (x y a b : String) (db : Sets)
    → has y (at a (JsSet.delete b) db x) ≡ (if a == x && b == y then false else has y (db x))
linked-delete x y a b db =
    ground (arith, linked_at x y a (JsSet.delete b) db, has-delete y b (db x))

pub linked-clear :
    (x y a : String) (db : Sets)
    → has y (at a (λ xs. []) db x) ≡ (if a == x then false else has y (db x))
unfolding JsSet.has
linked-clear x y a db = linked_at x y a (λ xs. []) db

abbrev pub links : Links
links = record {
  Db = Sets;
  linked = λ a b db. has b (db a);
  targets = λ a db. db a;
  add = λ a b db. at a (JsSet.add b) db;
  remove = λ a b db. at a (JsSet.delete b) db;
  remove_source = λ a db. at a (λ xs. []) db;
  remove_target = λ b db. λ x. JsSet.delete b (db x);
  has-targets = λ a b db. refl;
  linked-add = linked-add;
  linked-remove = linked-delete;
  linked-remove_source = linked-clear;
  linked-remove_target = λ x y b db. has-delete y b (db x);
}
