-- ===== src/Container/SetTests.antt =====
-- Tests on the entries of a set.
use backend_core_platform.Container.JsSet
use backend_core_platform.Container.JsSet.{has}
use backend_core_platform.Base.{
  String, ◌≡◌, inl, inr, Bool, true, false, not, ◌&&◌, ◌||◌, List, [], ◌∷◌, arith, eq_iff, eq_refl,
  ◌==◌, Eq_ℕ, Eq_String, if◌then◌else◌, Bool-cases, text_cases, any,
}

pub any_entry :
    (p : String → Bool) (xs : List String)
    → any p xs ≡ true
    → (x : String) × (has x xs ≡ true) × (p x ≡ true)
unfolding JsSet.has
any_entry p [] h = cc
any_entry p (x ∷ xs) h = elim (Bool-cases (p x)) [
  | inl here ↦ (x, ground (arith, eq_refl x), here)
  | inr apart ↦
      let (y, there, meets) = any_entry p xs (ground (arith, h, apart)) in
      (y, ground (arith, there), meets)
]

pub entry_any :
    (p : String → Bool) (x : String) (xs : List String)
    → has x xs ≡ true
    → p x ≡ true
    → any p xs ≡ true
unfolding JsSet.has
entry_any p x [] h k = cc
entry_any p x (y ∷ ys) h k = ground (arith, entry_any p x ys, eq_iff y x)

-- Whether some entry meets a test depends only on which entries there are.
pub any_same :
    (p : String → Bool) (xs ys : List String)
    → ((x : String) → has x ys ≡ has x xs)
    → any p ys ≡ any p xs
any_same p xs ys same = elim (Bool-cases (any p ys)) [
  | inl hit ↦
      let (x, there, meets) = any_entry p ys hit in
      ground (arith, hit, entry_any p x xs (ground (arith, there, same x)) meets)
  | inr none_there ↦ elim (Bool-cases (any p xs)) [
    | inl hit ↦
        let (x, there, meets) = any_entry p xs hit in
        ground (arith, none_there, entry_any p x ys (ground (arith, there, same x)) meets)
    | inr nothing ↦ ground (arith, none_there, nothing)
  ]
]

-- An entry that is taken out counts no longer.
pub any_remove :
    (p : String → Bool) (a : String) (xs ys : List String)
    → ((x : String) → has x ys ≡ (if a == x then false else has x xs))
    → any p ys ≡ any (λ x. not (a == x) && p x) xs
any_remove p a xs ys removed = elim (Bool-cases (any p ys)) [
  | inl hit ↦
      let (x, there, meets) = any_entry p ys hit in
      let still = entry_any (λ y. not (a == y) && p y) x xs in
      ground (arith, hit, there, removed x, meets, still, Bool-cases (a == x))
  | inr nothing ↦ elim (Bool-cases (any (λ y. not (a == y) && p y) xs)) [
    | inl hit ↦
        let (x, there, meets) = any_entry (λ y. not (a == y) && p y) xs hit in
        ground (
          arith,
          nothing,
          there,
          meets,
          removed x,
          Bool-cases (a == x),
          Bool-cases (p x),
          entry_any p x ys,
        )
    | inr none_there ↦ ground (arith, nothing, none_there)
  ]
]

pub any_add :
    (p : String → Bool) (a : String) (xs ys : List String)
    → ((x : String) → has x ys ≡ (if a == x then true else has x xs))
    → any p ys ≡ (any p xs || p a)
any_add p a xs ys added = elim (Bool-cases (any p ys)) [
  | inl hit ↦
      let (x, there, meets) = any_entry p ys hit in
      elim (text_cases a x) [
        | inl (_, same) ↦ ground (arith, hit, same, meets)
        | inr (apart, _) ↦
            ground (arith, hit, entry_any p x xs (ground (arith, there, added x, apart)) meets)
      ]
  | inr nothing ↦ elim (Bool-cases (p a)) [
    | inl own ↦ ground (arith, nothing, entry_any p a ys (ground (arith, added a, eq_refl a)) own)
    | inr other ↦ elim (Bool-cases (any p xs)) [
      | inl hit ↦
          let (x, there, meets) = any_entry p xs hit in
          ground (
            arith,
            nothing,
            entry_any p x ys (ground (arith, there, added x, Bool-cases (a == x))) meets,
          )
      | inr none_there ↦ ground (arith, nothing, other, none_there)
    ]
  ]
]
