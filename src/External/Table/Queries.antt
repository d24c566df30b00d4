-- ===== src/External/Table/Queries.antt =====
-- What a query finds when at most one row meets its condition.
use backend_core_platform.External.Table.{Table}
use backend_core_platform.Base.{
  String, ◌≡◌, inl, inr, Bool, true, false, none, some, arith, if◌then◌else◌, Option-cases,
}

module _ {Row : Type 0} {id_of : Row → String} (rows : Table Row id_of) where
  open rows use {Db, find, find_first, find_first_found, find_first_missing}

  pub find_first_only :
      (p : Row → Bool) (r : Row) (db : Db)
      → find (id_of r) db ≡ some r
      → ((i : String) (s : Row) → find i db ≡ some s → p s ≡ true → i ≡ id_of r)
      → find_first p db ≡ (if p r then some r else none)
  find_first_only p r db stored only = elim (Option-cases (find_first p db)) [
    | inl missing ↦ ground (arith, find_first_missing p (id_of r) r db missing stored, missing)
    | inr (s, found) ↦
        let (held, meets) = find_first_found p s db found in
        ground (arith, held, meets, only (id_of s) s held meets, stored, found)
  ]

  pub find_first_none :
      (p : Row → Bool) (db : Db)
      → ((i : String) (s : Row) → find i db ≡ some s → p s ≡ false)
      → find_first p db ≡ none
  find_first_none p db nothing = elim (Option-cases (find_first p db)) [
    | inl missing ↦ missing
    | inr (s, found) ↦
        let (held, meets) = find_first_found p s db found in
        ground (arith, meets, nothing (id_of s) s held)
  ]
