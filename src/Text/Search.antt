-- ===== src/Text/Search.antt =====
-- `qsort` and `bsearch` over an array of elements with a string for a key.
pub mod Sorting
pub mod Finding
use aept.Base.{
  ℕ, zero, suc, ◌+◌, ◌-◌, ◌/◌, ◌≤◌, ◌<◌, ◌≡◌, ◌≢◌, refl, ap, sym, ◌∙◌, ◌⊎◌, inl, inr, Bool, true,
  false, ◌||◌, Option, none, some, List, [], ◌∷◌, ◌++◌, arith, Ordering, if◌then◌else◌, Bool-cases,
  length, length-append, length-take-le, take, drop, any, any-append, All,
}
use mathlib.Core.List.{Perm}
use mathlib.Core.List.Perm
use aept.Text.Strings.{Bytes, str_eq, str_eq_iff}
use aept.Text.Order.{strcmp, str_le, strcmp_eq_iff, strcmp_swap, str_le_trans, str_le_total}

module _ {ℓ} {A : Type ℓ} (key : A → Bytes) where
  unfoldable pub insert_by : A → List A → List A
  insert_by x [] = x ∷ []
  insert_by x (y ∷ ys) =
      let rest = insert_by x ys in if str_le (key x) (key y) then x ∷ y ∷ ys else y ∷ rest

  -- A sorted rearrangement, as `qsort` leaves it.
  unfoldable pub qsort : List A → List A
  unfolding insert_by
  qsort [] = []
  qsort (x ∷ xs) = insert_by x (qsort xs)

  -- The loop of `bsearch`: look at the middle of the slice, and go on in one half.
  unfoldable pub bsearch_in : ℕ → Bytes → List A → Option A
  bsearch_in zero k xs = none
  bsearch_in (suc f) k xs =
      let middle = length xs / 2 in
      elim (drop middle xs) [
        | [] ↦ none
        | m ∷ right ↦ elim (strcmp k (key m)) [
          | Ordering.eq ↦ some m
          | Ordering.lt ↦ bsearch_in f k (take middle xs)
          | Ordering.gt ↦ bsearch_in f k right
        ]
      ]

  unfoldable pub bsearch : Bytes → List A → Option A
  unfolding bsearch_in
  bsearch k xs = bsearch_in (length xs) k xs

  abbrev pub IsSorted : List A → Type ℓ
  IsSorted [] = Unit
  IsSorted (x ∷ xs) = All (λ y. str_le (key x) (key y) ≡ true) xs × IsSorted xs

  -- Some element has the key.
  abbrev pub has_key : Bytes → List A → Bool
  has_key k = any (λ x. str_eq k (key x))
