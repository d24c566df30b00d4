-- ===== src/Container/JsMap.antt =====
-- `Map<string, V>`: its entries in insertion order, one for each key.
use backend_core_platform.Base.{
  ℕ, ◌+◌, String, ◌≡◌, refl, Bool, false, Option, none, some, List, [], ◌∷◌, arith, eq_iff, ◌==◌,
  Eq_ℕ, Eq_String, if◌then◌else◌, is_some, length,
}

module _ {ℓ} {V : Type ℓ} where
  unfoldable pub get : String → List (String × V) → Option V
  get k [] = none
  get k ((j, v) ∷ m) = if j == k then some v else get k m

  -- `map.set(k, v)`: an old key keeps its place, a new one goes to the end.
  unfoldable pub set : String → V → List (String × V) → List (String × V)
  set k v [] = (k, v) ∷ []
  set k v ((j, w) ∷ m) = let rest = set k v m in if j == k then (j, v) ∷ m else (j, w) ∷ rest

  unfoldable pub delete : String → List (String × V) → List (String × V)
  delete k [] = []
  delete k ((j, v) ∷ m) = let rest = delete k m in if j == k then rest else (j, v) ∷ rest

  abbrev pub has : String → List (String × V) → Bool
  has k m = is_some (get k m)

  -- `map.size`
  abbrev pub size : List (String × V) → ℕ
  size m = length m

  -- No key twice.
  abbrev pub IsKeyed : List (String × V) → Type 0
  IsKeyed [] = Unit {0}
  IsKeyed ((k, v) ∷ m) = (has k m ≡ false) × IsKeyed m

  pub get-set :
      (j k : String) (v : V) (m : List (String × V))
      → get j (set k v m) ≡ (if k == j then some v else get j m)
  unfolding get set
  get-set j k v [] = refl
  get-set j k v ((i, w) ∷ m) = ground (arith, eq_iff k j, eq_iff i k, eq_iff i j, get-set j k v m)

  pub get-delete :
      (j k : String) (m : List (String × V))
      → get j (delete k m) ≡ (if k == j then none else get j m)
  unfolding get delete
  get-delete j k [] = ground arith
  get-delete j k ((i, w) ∷ m) = ground (arith, eq_iff k j, eq_iff i k, eq_iff i j, get-delete j k m)

  pub set-IsKeyed : (k : String) (v : V) (m : List (String × V)) → IsKeyed m → IsKeyed (set k v m)
  unfolding get set
  set-IsKeyed k v [] h = (refl, tt)
  set-IsKeyed k v ((j, w) ∷ m) h =
      ground (arith, set-IsKeyed k v m h.1, get-set j k v m, eq_iff k j, eq_iff j k)

  pub delete-IsKeyed : (k : String) (m : List (String × V)) → IsKeyed m → IsKeyed (delete k m)
  unfolding get delete
  delete-IsKeyed k [] h = tt
  delete-IsKeyed k ((j, w) ∷ m) h = ground (arith, delete-IsKeyed k m h.1, get-delete j k m)

  pub delete-absent : (k : String) (m : List (String × V)) → get k m ≡ none → delete k m ≡ m
  unfolding get delete
  delete-absent k [] h = refl
  delete-absent k ((j, w) ∷ m) h = ground (arith, delete-absent k m)

  pub size-set_new :
      (k : String) (v : V) (m : List (String × V)) → get k m ≡ none → size (set k v m) ≡ size m + 1
  unfolding get set
  size-set_new k v [] h = omega arith
  size-set_new k v ((j, w) ∷ m) h = ground (arith, size-set_new k v m)

  pub size-delete :
      (k : String) (v : V) (m : List (String × V))
      → IsKeyed m
      → get k m ≡ some v
      → size (delete k m) + 1 ≡ size m
  unfolding get delete
  size-delete k v [] h e = cc
  size-delete k v ((j, w) ∷ m) h e =
      ground (arith, size-delete k v m h.1, delete-absent k m, eq_iff j k)

  -- The sum of a measure over the values.
  unfoldable pub total : (V → ℕ) → List (String × V) → ℕ
  total f [] = 0
  total f ((k, v) ∷ m) = f v + total f m

  pub total-set_new :
      (f : V → ℕ) (k : String) (v : V) (m : List (String × V))
      → get k m ≡ none
      → total f (set k v m) ≡ total f m + f v
  unfolding get set total
  total-set_new f k v [] h = omega arith
  total-set_new f k v ((j, w) ∷ m) h = ground (arith, total-set_new f k v m)

  pub total-set_old :
      (f : V → ℕ) (k : String) (v w : V) (m : List (String × V))
      → get k m ≡ some w
      → total f (set k v m) + f w ≡ total f m + f v
  unfolding get set total
  total-set_old f k v w [] h = cc
  total-set_old f k v w ((j, u) ∷ m) h = ground (arith, total-set_old f k v w m)

  pub total-delete :
      (f : V → ℕ) (k : String) (w : V) (m : List (String × V))
      → IsKeyed m
      → get k m ≡ some w
      → total f (delete k m) + f w ≡ total f m
  unfolding get delete total
  total-delete f k w [] h e = cc
  total-delete f k w ((j, u) ∷ m) h e =
      ground (arith, total-delete f k w m h.1, delete-absent k m, eq_iff j k)
