-- ===== src/Text/Lines/Split.antt =====
-- What one round of the loop reads, for a line that fits the buffer and for one that does not.
use aept.Base.{
  ℕ, zero, suc, ◌-◌, ◌≤◌, ◌<◌, ◌≡◌, refl, ◌⊎◌, inr, true, false, List, [], ◌∷◌, arith, ◌==◌, length,
  take, drop,
}
use aept.Text.Strings.{Bytes, before}
use aept.Text.Lines.{fgets, fgets_is_truncated, fgets_drain_line, last_or}

-- The first line, with its newline if it has one.
unfoldable pub first_line : Bytes → Bytes
first_line [] = []
first_line (x ∷ xs) = elim (x == b'\n') [ true ↦ x ∷ [] | false ↦ x ∷ first_line xs ]

abbrev pub onto_first : ℕ → List Bytes → List Bytes
onto_first x [] = (x ∷ []) ∷ []
onto_first x (l ∷ ls) = (x ∷ l) ∷ ls

-- A text cut behind each newline.
unfoldable pub split_lines : Bytes → List Bytes
split_lines [] = []
split_lines (x ∷ xs) =
    let rest = split_lines xs in
    elim (x == b'\n') [ true ↦ (x ∷ []) ∷ rest | false ↦ onto_first x rest ]

pub split_lines-cons :
    (x : ℕ) (xs : Bytes)
    → split_lines (x ∷ xs) ≡ first_line (x ∷ xs) ∷ split_lines (fgets_drain_line (x ∷ xs))
unfolding split_lines first_line fgets_drain_line
split_lines-cons x [] = ground arith
split_lines-cons x (y ∷ ys) = ground (arith, split_lines-cons y ys)

-- The number of bytes before the newline.
abbrev pub content : Bytes → ℕ
content s = length (before b'\n' s)

pub fgets_fits :
    (n : ℕ) (s : Bytes) → content s < n → fgets n s ≡ (first_line s, fgets_drain_line s)
unfolding fgets first_line fgets_drain_line before
fgets_fits zero s h = elim h [ ]
fgets_fits (suc n) [] h = refl
fgets_fits (suc n) (x ∷ xs) h = ground (arith, fgets_fits n xs)

pub fgets_long : (n : ℕ) (s : Bytes) → n ≤ content s → fgets n s ≡ (take n s, drop n s)
unfolding fgets before
fgets_long zero s h = refl
fgets_long (suc n) [] h = refl
fgets_long (suc n) (x ∷ xs) h = ground (arith, fgets_long n xs)

pub drain-drop :
    (n : ℕ) (s : Bytes) → n ≤ content s → fgets_drain_line (drop n s) ≡ fgets_drain_line s
unfolding fgets_drain_line before
drain-drop zero s h = refl
drain-drop (suc n) [] h = refl
drain-drop (suc n) (x ∷ xs) h = ground (arith, drain-drop n xs)

pub length-take-content : (n : ℕ) (s : Bytes) → n ≤ content s → length (take n s) ≡ n
unfolding before
length-take-content zero s h = refl
length-take-content (suc n) [] h = absurd (omega arith)
length-take-content (suc n) (x ∷ xs) h = ground (arith, length-take-content n xs)

pub last-take-content :
    (n : ℕ) (s : Bytes) (d : ℕ)
    → n ≤ content s
    → (d == b'\n') ≡ false
    → (last_or d (take n s) == b'\n') ≡ false
unfolding before
last-take-content zero s d h e = e
last-take-content (suc n) [] d h e = e
last-take-content (suc n) (x ∷ xs) d h e = ground (arith, last-take-content n xs x)

pub last-first_line :
    (s : Bytes) (d : ℕ)
    → ((last_or d (first_line s) == b'\n') ≡ true) ⊎ (length (first_line s) ≡ content s)
unfolding first_line before
last-first_line [] d = inr refl
last-first_line (x ∷ xs) d = ground (arith, last-first_line xs x)

pub not_truncated :
    (size : ℕ) (s : Bytes) → content s < size - 1 → fgets_is_truncated (first_line s) size ≡ false
unfolding fgets_is_truncated
not_truncated size s h = ground (arith, last-first_line s 0)

pub truncated :
    (size : ℕ) (s : Bytes)
    → 1 < size
    → size - 1 ≤ content s
    → fgets_is_truncated (take (size - 1) s) size ≡ true
unfolding fgets_is_truncated
truncated size s p h =
    ground (arith, length-take-content (size - 1) s h, last-take-content (size - 1) s 0 h refl)
