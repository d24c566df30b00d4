-- ===== src/Container/JsSet.antt =====
-- `Set<string>`: its entries in insertion order, each once.
use backend_core_platform.Base.{
  ◌+◌, String, ◌≡◌, refl, ◌∙◌, ◌↔◌, inl, inr, Bool, true, false, List, [], ◌∷◌, ◌++◌, arith, eq_iff,
  eq_refl, ◌==◌, Eq_ℕ, Eq_String, if◌then◌else◌, Bool-cases, length, length-append,
}

unfoldable pub has : String → List String → Bool
has a [] = false
has a (x ∷ xs) = if x == a then true else has a xs

unfoldable pub add : String → List String → List String
unfolding has
add a xs = if has a xs then xs else xs ++ a ∷ []

unfoldable pub delete : String → List String → List String
delete a [] = []
delete a (x ∷ xs) = let rest = delete a xs in if x == a then rest else x ∷ rest

-- No entry twice.
abbrev pub IsDistinct : List String → Type 0
IsDistinct [] = Unit {0}
IsDistinct (x ∷ xs) = (has x xs ≡ false) × IsDistinct xs

has-append :
    (b a : String) (xs : List String) → has b (xs ++ a ∷ []) ≡ (if a == b then true else has b xs)
unfolding has
has-append b a [] = ground arith
has-append b a (x ∷ xs) = ground (arith, has-append b a xs)

pub has-add :
    (b a : String) (xs : List String) → has b (add a xs) ≡ (if a == b then true else has b xs)
unfolding add
has-add b a xs = ground (arith, has-append b a xs, eq_iff a b)

pub has-delete :
    (b a : String) (xs : List String) → has b (delete a xs) ≡ (if a == b then false else has b xs)
unfolding has delete
has-delete b a [] = ground arith
has-delete b a (x ∷ xs) = ground (arith, has-delete b a xs, eq_iff a b, eq_iff x a, eq_iff x b)

append-IsDistinct :
    (a : String) (xs : List String) → IsDistinct xs → has a xs ≡ false → IsDistinct (xs ++ a ∷ [])
unfolding has
append-IsDistinct a [] h new = (refl, tt)
append-IsDistinct a (x ∷ xs) h new =
    ground (arith, append-IsDistinct a xs h.1, has-append x a xs, eq_iff a x, eq_iff x a)

pub add-IsDistinct : (a : String) (xs : List String) → IsDistinct xs → IsDistinct (add a xs)
unfolding add
add-IsDistinct a xs h = elim (Bool-cases (has a xs)) [
  | inl old ↦ rw old h
  | inr new ↦ rw new (append-IsDistinct a xs h new)
]

pub delete-IsDistinct : (a : String) (xs : List String) → IsDistinct xs → IsDistinct (delete a xs)
unfolding delete
delete-IsDistinct a [] h = tt
delete-IsDistinct a (x ∷ xs) h = ground (arith, delete-IsDistinct a xs h.1, has-delete x a xs)

delete-absent : (a : String) (xs : List String) → has a xs ≡ false → delete a xs ≡ xs
unfolding has delete
delete-absent a [] h = refl
delete-absent a (x ∷ xs) h = ground (arith, delete-absent a xs)

pub length-delete :
    (a : String) (xs : List String)
    → IsDistinct xs
    → has a xs ≡ true
    → length (delete a xs) + 1 ≡ length xs
unfolding has delete
length-delete a [] h k = cc
length-delete a (x ∷ xs) h k =
    ground (arith, length-delete a xs h.1, delete-absent a xs, eq_iff x a)

pub length-add :
    (a : String) (xs : List String) → has a xs ≡ false → length (add a xs) ≡ length xs + 1
unfolding add
length-add a xs h = rw h (length-append xs (a ∷ []) ∙ omega arith)

-- A set is empty exactly when it has no entry.
pub eq-nil_iff : (xs : List String) → (xs ≡ []) ↔ ((a : String) → has a xs ≡ false)
unfolding has
eq-nil_iff [] = (λ _ a. refl, λ _. refl)
eq-nil_iff (x ∷ xs) = (λ e. cc, λ h. ground (arith, h x, eq_refl x))

delete-append : (a : String) (xs : List String) → has a xs ≡ false → delete a (xs ++ a ∷ []) ≡ xs
unfolding has delete
delete-append a [] h = ground (arith, eq_refl a)
delete-append a (x ∷ xs) h = ground (arith, delete-append a xs)

-- Taking out what was just put in.
pub delete-add : (a : String) (xs : List String) → has a xs ≡ false → delete a (add a xs) ≡ xs
unfolding add
delete-add a xs h = rw h (delete-append a xs h)
