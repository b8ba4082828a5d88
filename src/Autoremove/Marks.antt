-- ===== src/Autoremove/Marks.antt =====
-- The array of flags: reading it, setting one flag, and the number of those that are not set.
use aept.Base.{
  ℕ, zero, suc, ◌≡◌, refl, ap, sym, ◌∙◌, ◌⊎◌, inl, inr, Bool, true, false, ◌≤◌, ◌<◌, [], ◌∷◌, arith,
  length, if◌then◌else◌,
}
use aept.Autoremove.{Marks, flag, mark_at, unmarked_flags}

-- The number of flags that are not set.
abbrev pub unmarked : Marks → ℕ
unmarked [] = 0
unmarked (b ∷ bs) = let rest = unmarked bs in if b then rest else suc rest

-- Every flag that is set in one array is set in the other.
abbrev pub Within : Marks → Marks → Type 0
Within a b = (length a ≡ length b) × ((i : ℕ) → flag a i ≡ true → flag b i ≡ true)

pub Within-refl : (a : Marks) → Within a a
Within-refl a = (refl, λ i h. h)

pub Within-trans : (a b c : Marks) → Within a b → Within b c → Within a c
Within-trans a b c h k = (h.0 ∙ k.0, λ i f. k.1 i (h.1 i f))

pub length-mark_at : (i : ℕ) (a : Marks) → length (mark_at i a) ≡ length a
length-mark_at i [] = refl
length-mark_at zero (b ∷ bs) = refl
length-mark_at (suc i) (b ∷ bs) = ap suc (length-mark_at i bs)

pub flag-mark_at_self : (i : ℕ) (a : Marks) → i < length a → flag (mark_at i a) i ≡ true
flag-mark_at_self i [] h = absurd (omega arith)
flag-mark_at_self zero (b ∷ bs) h = refl
flag-mark_at_self (suc i) (b ∷ bs) h = flag-mark_at_self i bs (omega arith)

pub flag-mark_at : (i j : ℕ) (a : Marks) → flag (mark_at i a) j ≡ true → (j ≡ i) ⊎ (flag a j ≡ true)
flag-mark_at i j [] h = inr h
flag-mark_at zero zero (b ∷ bs) h = inl refl
flag-mark_at zero (suc j) (b ∷ bs) h = inr h
flag-mark_at (suc i) zero (b ∷ bs) h = inr h
flag-mark_at (suc i) (suc j) (b ∷ bs) h = elim (flag-mark_at i j bs h) [
  | inl e ↦ inl (ap suc e)
  | inr f ↦ inr f
]

flag-mark_at_kept : (i j : ℕ) (a : Marks) → flag a j ≡ true → flag (mark_at i a) j ≡ true
flag-mark_at_kept i j [] h = h
flag-mark_at_kept zero zero (b ∷ bs) h = refl
flag-mark_at_kept zero (suc j) (b ∷ bs) h = h
flag-mark_at_kept (suc i) zero (b ∷ bs) h = h
flag-mark_at_kept (suc i) (suc j) (b ∷ bs) h = flag-mark_at_kept i j bs h

pub mark_at-Within : (i : ℕ) (a : Marks) → Within a (mark_at i a)
mark_at-Within i a = (sym (length-mark_at i a), λ j h. flag-mark_at_kept i j a h)

pub unmarked-mark_at :
    (i : ℕ) (a : Marks) → i < length a → flag a i ≡ false → unmarked (mark_at i a) < unmarked a
unmarked-mark_at i [] h k = absurd (omega arith)
unmarked-mark_at zero (true ∷ bs) h k = cc
unmarked-mark_at zero (false ∷ bs) h k = omega arith
unmarked-mark_at (suc i) (true ∷ bs) h k = omega (arith, unmarked-mark_at i bs (omega arith) k)
unmarked-mark_at (suc i) (false ∷ bs) h k = omega (arith, unmarked-mark_at i bs (omega arith) k)

pub Within-unmarked : (a b : Marks) → Within a b → unmarked b ≤ unmarked a
Within-unmarked [] [] h = omega arith
Within-unmarked [] (y ∷ ys) h = absurd (let e = h.0 in omega arith)
Within-unmarked (x ∷ xs) [] h = absurd (let e = h.0 in omega arith)
Within-unmarked (x ∷ xs) (y ∷ ys) h =
    let first = h.1 zero in
    let rest : unmarked ys ≤ unmarked xs =
      Within-unmarked xs ys (let e = h.0 in omega arith, λ i f. h.1 (suc i) f) in
    heads x y first rest
  where
    heads :
        (x y : Bool)
        → (x ≡ true → y ≡ true)
        → unmarked ys ≤ unmarked xs
        → unmarked (y ∷ ys) ≤ unmarked (x ∷ xs)
    heads true true f r = r
    heads true false f r = absurd (let e = f refl in cc)
    heads false true f r = omega arith
    heads false false f r = omega arith

-- With none left unmarked, every flag is set.
pub all_marked : (a : Marks) (i : ℕ) → unmarked a ≡ 0 → i < length a → flag a i ≡ true
all_marked [] i h k = absurd (omega arith)
all_marked (true ∷ bs) zero h k = refl
all_marked (true ∷ bs) (suc i) h k = all_marked bs i h (omega arith)
all_marked (false ∷ bs) i h k = absurd (omega arith)

pub length-unmarked_flags : (n : ℕ) → length (unmarked_flags n) ≡ n
length-unmarked_flags zero = refl
length-unmarked_flags (suc n) = ap suc (length-unmarked_flags n)

pub unmarked-unmarked_flags : (n : ℕ) → unmarked (unmarked_flags n) ≡ n
unmarked-unmarked_flags zero = refl
unmarked-unmarked_flags (suc n) = ap suc (unmarked-unmarked_flags n)

pub flag-unmarked_flags : (n i : ℕ) → flag (unmarked_flags n) i ≡ false
flag-unmarked_flags zero i = refl
flag-unmarked_flags (suc n) zero = refl
flag-unmarked_flags (suc n) (suc i) = flag-unmarked_flags n i
