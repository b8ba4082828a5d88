-- ===== src/Text/Strings.antt =====
-- C strings as lists of bytes with no NUL, and the functions of <string.h> that the sources call.
use Prim.Native.Char.{code}
use Prim.Native.String.{String}
use aept.Base.{
  ℕ, ◌≡◌, refl, sym, ◌∙◌, ◌≢◌, ◌↔◌, inl, inr, Bool, true, false, ◌&&◌, Option, none, some, List, [],
  ◌∷◌, ◌++◌, arith, ◌==◌, Bool-cases, any,
}

abbrev pub Bytes : Type 0
Bytes = List ℕ

-- `s[0] == '\0'`.
abbrev pub is_empty : Bytes → Bool
is_empty [] = true
is_empty (c ∷ cs) = false

-- The bytes of a literal.
abbrev pub codes : String → Bytes
codes String.[] = []
codes (String.◌∷◌ c s) = code c ∷ codes s

-- `strcmp(a, b) == 0`.
unfoldable pub str_eq : Bytes → Bytes → Bool
str_eq [] [] = true
str_eq [] (y ∷ ys) = false
str_eq (x ∷ xs) [] = false
str_eq (x ∷ xs) (y ∷ ys) = x == y && str_eq xs ys

pub str_eq_iff : (a b : Bytes) → (str_eq a b ≡ true) ↔ (a ≡ b)
unfolding str_eq
str_eq_iff (x ∷ xs) (y ∷ ys) = ground (arith, str_eq_iff xs ys)
str_eq_iff _ _ = ground arith

pub str_eq_refl : (a : Bytes) → str_eq a a ≡ true
str_eq_refl a = (str_eq_iff a a).1 refl

pub str_eq_ne : (a b : Bytes) → a ≢ b → str_eq a b ≡ false
str_eq_ne a b h = elim (Bool-cases (str_eq a b)) [
  | inl t ↦ absurd (h ((str_eq_iff a b).0 t))
  | inr f ↦ f
]

pub str_ne : (a b : Bytes) → str_eq a b ≡ false → a ≢ b
str_ne a b h e = let f = sym h ∙ (str_eq_iff a b).1 e in cc

-- What stands before the first `c`: the string after `s[strcspn(s, "c")] = '\0'`.
unfoldable pub before : ℕ → Bytes → Bytes
before c [] = []
before c (x ∷ xs) = elim (x == c) [ true ↦ [] | false ↦ x ∷ before c xs ]

-- What stands behind the first `c`, if there is one: `strchr(s, c) + 1`.
unfoldable pub behind : ℕ → Bytes → Option Bytes
behind c [] = none
behind c (x ∷ xs) = elim (x == c) [ true ↦ some xs | false ↦ behind c xs ]

-- `strncmp(s, prefix, strlen(prefix)) == 0`, with what follows the prefix.
unfoldable pub strip_prefix : Bytes → Bytes → Option Bytes
strip_prefix [] s = some s
strip_prefix (p ∷ ps) [] = none
strip_prefix (p ∷ ps) (x ∷ xs) = elim (p == x) [ true ↦ strip_prefix ps xs | false ↦ none ]

abbrev pub has : ℕ → Bytes → Bool
has c = any (λ x. x == c)

-- A buffer that `fgets` filled reads as a string up to its first NUL.
abbrev pub c_str : Bytes → Bytes
c_str = before 0

pub before_none : (c : ℕ) (s : Bytes) → has c s ≡ false → before c s ≡ s
unfolding before
before_none c [] h = refl
before_none c (x ∷ xs) h = ground (arith, before_none c xs)

pub before-append : (c : ℕ) (s t : Bytes) → has c s ≡ false → before c (s ++ c ∷ t) ≡ s
unfolding before
before-append c [] t h = ground arith
before-append c (x ∷ xs) t h = ground (arith, before-append c xs t)

pub behind-append : (c : ℕ) (s t : Bytes) → has c s ≡ false → behind c (s ++ c ∷ t) ≡ some t
unfolding behind
behind-append c [] t h = ground arith
behind-append c (x ∷ xs) t h = ground (arith, behind-append c xs t)

pub has-before : (c : ℕ) (s : Bytes) → has c (before c s) ≡ false
unfolding before
has-before c [] = refl
has-before c (x ∷ xs) = ground (arith, has-before c xs)
