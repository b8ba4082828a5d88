-- ===== src/Trigger/Dirs.antt =====
-- The directories are a set: none is held twice, and sorting changes no member.
use aept.Base.{
  ◌≡◌, refl, ap, sym, ◌∙◌, inl, inr, Bool, false, ◌||◌, List, [], ◌∷◌, arith, leb, length, any,
  Bool-cases, List-cases,
}
use aept.Text.Strings.{Bytes, str_eq, str_eq_iff}
use aept.Text.Search.{qsort}
use aept.Text.Search.Sorting.{any-qsort}
use aept.Trigger.Ctx.{holds, dedup_after, str_key, sort_and_dedup}

-- No string stands twice in the array.
abbrev pub IsDistinct : List Bytes → Type 0
IsDistinct [] = Unit
IsDistinct (x ∷ xs) = (holds x xs ≡ false) × IsDistinct xs

-- Any test finds in the reduced array what it found before.
any-dedup_after :
    (p : Bytes → Bool) (prev : Bytes) (xs : List Bytes)
    → (p prev || any p (dedup_after prev xs)) ≡ (p prev || any p xs)
unfolding dedup_after
any-dedup_after p prev [] = refl
any-dedup_after p prev (x ∷ xs) = elim (Bool-cases (str_eq prev x)) [
  | inl t ↦
      let e : p prev ≡ p x = ap p ((str_eq_iff prev x).0 t) in
      rw t (ground (arith, e, any-dedup_after p prev xs))
  | inr f ↦ rw f (ground (arith, any-dedup_after p x xs))
]

pub any-sort_and_dedup :
    (p : Bytes → Bool) (arr : List Bytes) → any p (sort_and_dedup arr) ≡ any p arr
unfolding sort_and_dedup
any-sort_and_dedup p arr = elim (Bool-cases (leb (length arr) 1)) [
  | inl t ↦ rw t refl
  | inr f ↦ elim (List-cases (qsort str_key arr)) [
    | inl gone ↦ rw (f, gone) (sym (ap (any p) gone) ∙ any-qsort str_key p arr)
    | inr (x, xs, there) ↦
        rw (f, there) (any-dedup_after p x xs ∙ sym (ap (any p) there) ∙ any-qsort str_key p arr)
  ]
]
