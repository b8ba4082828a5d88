-- ===== src/Text/Scan.antt =====
-- `isspace`, and the conversions `%255s` of `sscanf`.
use aept.Base.{
  ℕ, zero, suc, ◌≤◌, ◌≡◌, ◌≢◌, refl, ap, ◌∙◌, Bool, true, false, ◌&&◌, ◌||◌, Option, none, some, [],
  ◌∷◌, ◌++◌, arith, leb, ◌==◌, length, any,
}
use aept.Text.Strings.{Bytes}

unfoldable pub is_space : ℕ → Bool
is_space c = c == b' ' || (leb 9 c && leb c 13)

unfoldable pub skip_space : Bytes → Bytes
skip_space [] = []
skip_space (x ∷ xs) = elim (is_space x) [ true ↦ skip_space xs | false ↦ x ∷ xs ]

-- At most `n` bytes up to white space, and what follows them.
unfoldable pub take_word : ℕ → Bytes → Bytes × Bytes
take_word zero s = ([], s)
take_word (suc n) [] = ([], [])
take_word (suc n) (x ∷ xs) = elim (is_space x) [
  | true ↦ ([], x ∷ xs)
  | false ↦ let (w, rest) = take_word n xs in (x ∷ w, rest)
]

-- One conversion: it fails at the end of the string.
unfoldable pub next_word : ℕ → Bytes → Option (Bytes × Bytes)
next_word n s = elim (skip_space s) [ [] ↦ none | x ∷ xs ↦ some (take_word n (x ∷ xs)) ]

-- `sscanf(s, "%255s", w) == 1`.
unfoldable pub scan_word : Bytes → Option Bytes
scan_word s = elim (next_word 255 s) [ none ↦ none | some (w, rest) ↦ some w ]

-- `sscanf(s, "%255s %255s", v, w) == 2`.
unfoldable pub scan_two : Bytes → Option (Bytes × Bytes)
scan_two s = elim (next_word 255 s) [
  | none ↦ none
  | some (v, rest) ↦ elim (next_word 255 rest) [ none ↦ none | some (w, end) ↦ some (v, w) ]
]

-- A string that a conversion reads whole.
abbrev pub IsWord : Bytes → Type 0
IsWord w = (w ≢ []) × (any is_space w ≡ false) × (length w ≤ 255)

take_word-append :
    (n : ℕ) (w : Bytes) (c : ℕ) (rest : Bytes)
    → any is_space w ≡ false
    → length w ≤ n
    → is_space c ≡ true
    → take_word n (w ++ c ∷ rest) ≡ (w, c ∷ rest)
unfolding take_word
take_word-append zero [] c rest h k s = refl
take_word-append zero (x ∷ xs) c rest h k s = absurd (omega arith)
take_word-append (suc n) [] c rest h k s = ground arith
take_word-append (suc n) (x ∷ xs) c rest h k s = ground (arith, take_word-append n xs c rest)

skip_space-append : (w t : Bytes) → w ≢ [] → any is_space w ≡ false → skip_space (w ++ t) ≡ w ++ t
unfolding skip_space
skip_space-append [] t h k = absurd (h refl)
skip_space-append (x ∷ xs) t h k = ground arith

skip_space-space : (c : ℕ) (s : Bytes) → is_space c ≡ true → skip_space (c ∷ s) ≡ skip_space s
unfolding skip_space
skip_space-space c s h = ground arith

next_word-skip : (n : ℕ) (s t : Bytes) → skip_space s ≡ skip_space t → next_word n s ≡ next_word n t
unfolding next_word
next_word-skip n s t h = rw (h, next_word)

next_word-cons :
    (n x : ℕ) (xs : Bytes)
    → skip_space (x ∷ xs) ≡ x ∷ xs
    → next_word n (x ∷ xs) ≡ some (take_word n (x ∷ xs))
unfolding next_word
next_word-cons n x xs h = rw (h, next_word)

-- A word in front of white space is converted whole.
pub next_word-append :
    (w : Bytes) (c : ℕ) (rest : Bytes)
    → IsWord w
    → is_space c ≡ true
    → next_word 255 (w ++ c ∷ rest) ≡ some (w, c ∷ rest)
next_word-append [] c rest h s = absurd (h.0 refl)
next_word-append (x ∷ xs) c rest h s =
    next_word-cons 255 x (xs ++ c ∷ rest) (skip_space-append (x ∷ xs) (c ∷ rest) h.0 h.1)
    ∙ ap some (take_word-append 255 (x ∷ xs) c rest h.1 h.2 s)

pub scan_word-append :
    (w : Bytes) (c : ℕ) (rest : Bytes)
    → IsWord w
    → is_space c ≡ true
    → scan_word (w ++ c ∷ rest) ≡ some w
scan_word-append w c rest h s = unfold scan_word in ground (arith, next_word-append w c rest h s)

-- An entry `name version` is read as its two words.
pub scan_two-append :
    (v w : Bytes) → IsWord v → IsWord w → scan_two (v ++ b' ' ∷ (w ++ b'\n' ∷ [])) ≡ some (v, w)
scan_two-append v w hv hw =
    let rest = w ++ b'\n' ∷ [] in
    unfold scan_two in
    ground (
      arith,
      next_word-append v b' ' rest hv (unfold is_space in refl),
      next_word-skip 255 (b' ' ∷ rest) rest (skip_space-space b' ' rest (unfold is_space in refl)),
      next_word-append w b'\n' [] hw (unfold is_space in refl),
    )
