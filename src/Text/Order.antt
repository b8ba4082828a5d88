-- ===== src/Text/Order.antt =====
-- The order of `strcmp`, by which the sources sort and search.
use aept.Base.{◌≡◌, refl, ◌↔◌, Bool, true, false, [], ◌∷◌, arith, compare, Ordering}
use aept.Text.Strings.{Bytes}

-- The sign of `strcmp(a, b)`, on unsigned bytes.
unfoldable pub strcmp : Bytes → Bytes → Ordering
strcmp [] [] = Ordering.eq
strcmp [] (y ∷ ys) = Ordering.lt
strcmp (x ∷ xs) [] = Ordering.gt
strcmp (x ∷ xs) (y ∷ ys) =
    let rest = strcmp xs ys in
    elim (compare x y) [
      | Ordering.lt ↦ Ordering.lt
      | Ordering.gt ↦ Ordering.gt
      | Ordering.eq ↦ rest
    ]

abbrev pub str_le : Bytes → Bytes → Bool
str_le a b = elim (strcmp a b) [ Ordering.gt ↦ false | _ ↦ true ]

pub strcmp_eq_iff : (a b : Bytes) → (strcmp a b ≡ Ordering.eq) ↔ (a ≡ b)
unfolding strcmp
strcmp_eq_iff [] [] = ground arith
strcmp_eq_iff [] (y ∷ ys) = ground arith
strcmp_eq_iff (x ∷ xs) [] = ground arith
strcmp_eq_iff (x ∷ xs) (y ∷ ys) = ground (arith, strcmp_eq_iff xs ys)

-- Swapping the arguments swaps the sign.
pub strcmp_swap : (a b : Bytes) → (strcmp a b ≡ Ordering.gt) ↔ (strcmp b a ≡ Ordering.lt)
unfolding strcmp
strcmp_swap [] [] = ground arith
strcmp_swap [] (y ∷ ys) = ground arith
strcmp_swap (x ∷ xs) [] = ground arith
strcmp_swap (x ∷ xs) (y ∷ ys) = ground (arith, strcmp_swap xs ys)

pub str_le_trans : (a b c : Bytes) → str_le a b ≡ true → str_le b c ≡ true → str_le a c ≡ true
unfolding strcmp
str_le_trans [] b [] h k = refl
str_le_trans [] b (z ∷ zs) h k = refl
str_le_trans (x ∷ xs) [] c h k = cc
str_le_trans (x ∷ xs) (y ∷ ys) [] h k = cc
str_le_trans (x ∷ xs) (y ∷ ys) (z ∷ zs) h k = ground (arith, str_le_trans xs ys zs)

pub str_le_total : (a b : Bytes) → str_le a b ≡ false → str_le b a ≡ true
str_le_total a b h = ground (arith, strcmp_swap a b)
