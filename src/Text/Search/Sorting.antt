-- ===== src/Text/Search/Sorting.antt =====
-- `qsort` returns a sorted rearrangement.
use mathlib.Core.List.{Perm}
use mathlib.Core.List.Perm
use aept.Base.{
  ◌≡◌, refl, ◌∙◌, inl, inr, Bool, true, ◌||◌, List, [], ◌∷◌, arith, Bool-cases, any, All,
}
use aept.Text.Strings.{Bytes}
use aept.Text.Order.{str_le, str_le_trans, str_le_total}
use aept.Text.Search.{insert_by, qsort, IsSorted}

module _ {ℓ} {A : Type ℓ} (key : A → Bytes) where
  insert-perm : (x : A) (ys : List A) → Perm (insert_by key x ys) (x ∷ ys)
  unfolding insert_by
  insert-perm x [] = Perm.refl (x ∷ [])
  insert-perm x (y ∷ ys) = elim (Bool-cases (str_le (key x) (key y))) [
    | inl t ↦ rw t (Perm.refl (x ∷ y ∷ ys))
    | inr f ↦ rw f (Perm.trans (Perm.cons y (insert-perm x ys)) (Perm.swap x y ys))
  ]

  pub qsort-perm : (xs : List A) → Perm (qsort key xs) xs
  unfolding qsort
  qsort-perm [] = Perm.refl []
  qsort-perm (x ∷ xs) = Perm.trans (insert-perm x (qsort key xs)) (Perm.cons x (qsort-perm xs))

  any-insert : (p : A → Bool) (x : A) (ys : List A) → any p (insert_by key x ys) ≡ (p x || any p ys)
  unfolding insert_by
  any-insert p x [] = refl
  any-insert p x (y ∷ ys) = ground (arith, any-insert p x ys)

  -- Sorting changes nothing of what an element can be found by.
  pub any-qsort : (p : A → Bool) (xs : List A) → any p (qsort key xs) ≡ any p xs
  unfolding qsort
  any-qsort p [] = refl
  any-qsort p (x ∷ xs) = any-insert p x (qsort key xs) ∙ rw (any-qsort p xs)

  All-insert {κ} :
      (P : A → Type κ) (x : A) (ys : List A) → P x → All P ys → All P (insert_by key x ys)
  unfolding insert_by
  All-insert P x [] h k = (h, tt)
  All-insert P x (y ∷ ys) h k = elim (Bool-cases (str_le (key x) (key y))) [
    | inl t ↦ rw t (h, k)
    | inr f ↦ rw f (k.0, All-insert P x ys h k.1)
  ]

  All-qsort {κ} : (P : A → Type κ) (xs : List A) → All P xs → All P (qsort key xs)
  unfolding qsort
  All-qsort P [] h = tt
  All-qsort P (x ∷ xs) h = All-insert P x (qsort key xs) h.0 (All-qsort P xs h.1)

  All-trans :
      (x y : A) (ys : List A)
      → str_le (key x) (key y) ≡ true
      → All (λ z. str_le (key y) (key z) ≡ true) ys
      → All (λ z. str_le (key x) (key z) ≡ true) ys
  All-trans x y [] h k = tt
  All-trans x y (z ∷ zs) h k = (str_le_trans (key x) (key y) (key z) h k.0, All-trans x y zs h k.1)

  insert-IsSorted : (x : A) (ys : List A) → IsSorted key ys → IsSorted key (insert_by key x ys)
  unfolding insert_by
  insert-IsSorted x [] h = (tt, tt)
  insert-IsSorted x (y ∷ ys) h = elim (Bool-cases (str_le (key x) (key y))) [
    | inl t ↦ rw t ((t, All-trans x y ys t h.0), h)
    | inr f ↦ rw f (
      All-insert (λ z. str_le (key y) (key z) ≡ true) x ys (str_le_total (key x) (key y) f) h.0,
      insert-IsSorted x ys h.1,
    )
  ]

  pub qsort-IsSorted : (xs : List A) → IsSorted key (qsort key xs)
  unfolding qsort
  qsort-IsSorted [] = tt
  qsort-IsSorted (x ∷ xs) = insert-IsSorted x (qsort key xs) (qsort-IsSorted xs)
