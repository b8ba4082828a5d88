-- ===== src/Text/Lines/Visits.antt =====
-- Which lines the loop visits, and that the length of the file is fuel enough.
use aept.Base.{
  ℕ, zero, suc, ◌+◌, ◌-◌, ◌≤◌, ◌<◌, ◌≡◌, refl, ap, ◌∙◌, inl, inr, Bool, false, [], ◌∷◌, arith, ltb,
  Bool-cases, length, take, keep,
}
use aept.Text.Strings.{Bytes, before, before_none, has}
use aept.Text.Lines.{fgets, fgets_drain_line, lines_from, read_lines}
use aept.Text.Lines.Split.{
  first_line, split_lines, split_lines-cons, content, fgets_fits, fgets_long, drain-drop,
  not_truncated, truncated,
}

-- The line, without its newline, leaves room for a newline and a NUL.
abbrev pub fits : ℕ → Bytes → Bool
fits size l = ltb (content l) (size - 1)

content-first_line : (s : Bytes) → content (first_line s) ≡ content s
unfolding first_line before
content-first_line [] = refl
content-first_line (x ∷ xs) = ground (arith, content-first_line xs)

has-first_line : (c : ℕ) (s : Bytes) → has c s ≡ false → has c (first_line s) ≡ false
unfolding first_line
has-first_line c [] h = refl
has-first_line c (x ∷ xs) h = ground (arith, has-first_line c xs)

has-take : (c n : ℕ) (s : Bytes) → has c s ≡ false → has c (take n s) ≡ false
has-take c zero s h = refl
has-take c (suc n) [] h = refl
has-take c (suc n) (x ∷ xs) h = ground (arith, has-take c n xs)

has-drain : (c : ℕ) (s : Bytes) → has c s ≡ false → has c (fgets_drain_line s) ≡ false
unfolding fgets_drain_line
has-drain c [] h = refl
has-drain c (x ∷ xs) h = ground (arith, has-drain c xs)

length-drain : (s : Bytes) → length (fgets_drain_line s) ≤ length s
unfolding fgets_drain_line
length-drain [] = omega arith
length-drain (x ∷ xs) = ground (arith, length-drain xs)

length-drain_cons : (x : ℕ) (xs : Bytes) → length (fgets_drain_line (x ∷ xs)) ≤ length xs
unfolding fgets_drain_line
length-drain_cons x xs = ground (arith, length-drain xs)

-- One round, on a line that fits and on one that does not.
lines_from_fits :
    (f size x : ℕ) (xs : Bytes)
    → has 0 (x ∷ xs) ≡ false
    → content (x ∷ xs) < size - 1
    → lines_from (suc f) size (x ∷ xs)
      ≡ first_line (x ∷ xs) ∷ lines_from f size (fgets_drain_line (x ∷ xs))
unfolding lines_from
lines_from_fits f size x xs z h =
    let s = x ∷ xs in
    ground (
      arith,
      fgets_fits (size - 1) s h,
      before_none 0 (first_line s) (has-first_line 0 s z),
      not_truncated size s h,
    )

lines_from_long :
    (f size x : ℕ) (xs : Bytes)
    → has 0 (x ∷ xs) ≡ false
    → 1 < size
    → size - 1 ≤ content (x ∷ xs)
    → lines_from (suc f) size (x ∷ xs) ≡ lines_from f size (fgets_drain_line (x ∷ xs))
unfolding lines_from
lines_from_long f size x xs z p h =
    let s = x ∷ xs in
    ground (
      arith,
      fgets_long (size - 1) s h,
      before_none 0 (take (size - 1) s) (has-take 0 (size - 1) s z),
      truncated size s p h,
      drain-drop (size - 1) s h,
    )

lines_from-keep_step :
    (f size x : ℕ) (xs : Bytes)
    → has 0 (x ∷ xs) ≡ false
    → 1 < size
    → lines_from f size (fgets_drain_line (x ∷ xs))
      ≡ keep (fits size) (split_lines (fgets_drain_line (x ∷ xs)))
    → lines_from (suc f) size (x ∷ xs) ≡ keep (fits size) (split_lines (x ∷ xs))
lines_from-keep_step f size x xs z p rest = elim (Bool-cases (ltb (content (x ∷ xs)) (size - 1))) [
  | inl short ↦
      lines_from_fits f size x xs z (ground arith)
      ∙ ap (◌∷◌ (first_line (x ∷ xs))) rest
      ∙ rw split_lines-cons (rw content-first_line (rw short))
  | inr long ↦
      lines_from_long f size x xs z p (ground arith)
      ∙ rest
      ∙ rw split_lines-cons (rw content-first_line (rw long))
]

pub lines_from-keep :
    (f size : ℕ) (s : Bytes)
    → has 0 s ≡ false
    → 1 < size
    → length s ≤ f
    → lines_from f size s ≡ keep (fits size) (split_lines s)
unfolding lines_from split_lines
lines_from-keep zero size [] z p h = refl
lines_from-keep zero size (x ∷ xs) z p h = absurd (omega arith)
lines_from-keep (suc f) size [] z p h = refl
lines_from-keep (suc f) size (x ∷ xs) z p h =
    let s = x ∷ xs in
    lines_from-keep_step f size x xs z p (
      lines_from-keep f size (fgets_drain_line s) (has-drain 0 s z) p
        (omega (arith, length-drain_cons x xs)))

-- A loop over a file with no NUL byte visits, in order, exactly the lines that leave room in the
-- buffer for a newline and a NUL, each with its newline, and skips every other line whole.
pub read_lines-keep :
    (size : ℕ) (s : Bytes)
    → has 0 s ≡ false
    → 1 < size
    → read_lines size s ≡ keep (fits size) (split_lines s)
unfolding read_lines
read_lines-keep size s z p = lines_from-keep (length s) size s z p (omega arith)

length-fgets : (n : ℕ) (s : Bytes) → length (fgets n s).1 ≤ length s
unfolding fgets
length-fgets zero s = omega arith
length-fgets (suc n) [] = omega arith
length-fgets (suc n) (x ∷ xs) = ground (arith, length-fgets n xs)

length-fgets_cons : (n x : ℕ) (xs : Bytes) → length (fgets (suc n) (x ∷ xs)).1 ≤ length xs
unfolding fgets
length-fgets_cons n x xs = ground (arith, length-fgets n xs)

-- Any two amounts of fuel that reach the length of the file give the same lines, whatever bytes
-- the file holds: the loop ends by itself before either runs out.
pub lines_from_fuel :
    (f g n : ℕ) (s : Bytes)
    → length s ≤ f
    → length s ≤ g
    → lines_from f (n + 2) s ≡ lines_from g (n + 2) s
unfolding lines_from
lines_from_fuel zero zero n s h k = refl
lines_from_fuel zero (suc g) n [] h k = refl
lines_from_fuel (suc f) zero n [] h k = refl
lines_from_fuel zero (suc g) n (x ∷ xs) h k = absurd (omega arith)
lines_from_fuel (suc f) zero n (x ∷ xs) h k = absurd (omega arith)
lines_from_fuel (suc f) (suc g) n [] h k = refl
lines_from_fuel (suc f) (suc g) n (x ∷ xs) h k =
    let e : n + 2 - 1 ≡ suc n = omega arith in
    let rest = (fgets (suc n) (x ∷ xs)).1 in
    let less = length-fgets_cons n x xs in
    ground (
      arith,
      lines_from_fuel f g n rest (omega (arith, less)) (omega (arith, less)),
      lines_from_fuel f g n (fgets_drain_line rest) (omega (arith, less, length-drain rest))
          (omega (arith, less, length-drain rest)),
    )
