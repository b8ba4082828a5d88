-- ===== src/Util/Safety.antt =====
-- What the checks of src/util.c accept, in terms of the strings alone.
use aept.Base.{
  ◌≡◌, ◌≢◌, ◌↔◌, inl, inr, refl, ap, Bool, true, false, ◌&&◌, ◌||◌, some, [], ◌∷◌, ◌++◌, arith,
  ◌==◌, Bool-cases, all,
}
use aept.Text.Strings.{Bytes, has}
use aept.Util.{
  is_lower_or_digit, is_mark, name_chars_safe, pkg_name_is_safe, path_chars_safe,
  archive_path_is_safe, symlink_target_is_recordable,
}

-- The package names: a lower-case letter or a digit, then such bytes and `.`, `+`, `-`.
abbrev pub IsPackageName : Bytes → Type 0
IsPackageName [] = ⊥
IsPackageName (c ∷ cs) =
    (is_lower_or_digit c ≡ true) × (all (λ d. is_lower_or_digit d || is_mark d) cs ≡ true)

name_chars_safe_later :
    (cs : Bytes) → name_chars_safe true cs ≡ all (λ d. is_lower_or_digit d || is_mark d) cs
unfolding name_chars_safe
name_chars_safe_later [] = refl
name_chars_safe_later (c ∷ cs) = ground (arith, name_chars_safe_later cs)

-- `aept_pkg_name_is_safe` accepts a string exactly when it is a package name; a name of one
-- character is accepted too.
pub pkg_name_is_safe_iff :
    (name : Bytes) → (pkg_name_is_safe (some name) ≡ true) ↔ IsPackageName name
unfolding pkg_name_is_safe
pkg_name_is_safe_iff [] = ground arith
pkg_name_is_safe_iff (c ∷ cs) = ground (arith, name_chars_safe_later cs)

abbrev starts_with_dot : Bytes → Bool
starts_with_dot [] = false
starts_with_dot (c ∷ cs) = c == b'.'

-- Two dots stand side by side.
abbrev pub has_dot_dot : Bytes → Bool
has_dot_dot [] = false
has_dot_dot (c ∷ cs) = (c == b'.' && starts_with_dot cs) || has_dot_dot cs

has_dot_dot-append : (a b : Bytes) → has_dot_dot (a ++ b'.' ∷ b'.' ∷ b) ≡ true
has_dot_dot-append [] b = refl
has_dot_dot-append (c ∷ cs) b = ground (arith, has_dot_dot-append cs b)

has_dot_dot_split :
    (p : Bytes) → has_dot_dot p ≡ true → (a : Bytes) × (b : Bytes) × (p ≡ a ++ b'.' ∷ b'.' ∷ b)
has_dot_dot_split [] h = cc
has_dot_dot_split (c ∷ []) h = ground arith
has_dot_dot_split (c ∷ d ∷ cs) h = elim (Bool-cases (c == b'.' && d == b'.')) [
  | inl here ↦ ([], cs, ground arith)
  | inr later ↦
      let (a, b, e) = has_dot_dot_split (d ∷ cs) (ground arith) in (c ∷ a, b, ap (◌∷◌ c) e)
]

-- Not empty, no newline, no tab, and no two dots side by side, wherever it is cut.
pub record IsSafePath (p : Bytes) : Type 0 where
  pub not_empty : p ≢ []
  pub no_newline : has b'\n' p ≡ false
  pub no_tab : has b'\t' p ≡ false
  pub no_dot_dot : (a b : Bytes) → p ≢ a ++ b'.' ∷ b'.' ∷ b

no_dot_dot_iff : (p : Bytes) → (has_dot_dot p ≡ false) ↔ ((a b : Bytes) → p ≢ a ++ b'.' ∷ b'.' ∷ b)
no_dot_dot_iff p = (
  λ h a b e. cc (h, has_dot_dot-append a b, ap has_dot_dot e),
  λ h. elim (Bool-cases (has_dot_dot p)) [
    | inl t ↦ let (a, b, e) = has_dot_dot_split p t in absurd (h a b e)
    | inr f ↦ f
  ],
)

path_chars_safe_iff :
    (prev_dot : Bool) (p : Bytes)
    → (path_chars_safe prev_dot p ≡ true) ↔ (
        (has b'\n' p ≡ false)
        × (has b'\t' p ≡ false)
        × ((has_dot_dot p || (prev_dot && starts_with_dot p)) ≡ false))
unfolding path_chars_safe
path_chars_safe_iff prev_dot [] = ground arith
path_chars_safe_iff prev_dot (c ∷ cs) = ground (arith, path_chars_safe_iff (c == b'.') cs)

archive_path_is_safe_tests :
    (p : Bytes)
    → (archive_path_is_safe (some p) ≡ true)
      ↔ ((p ≢ []) × (has b'\n' p ≡ false) × (has b'\t' p ≡ false) × (has_dot_dot p ≡ false))
unfolding archive_path_is_safe
archive_path_is_safe_tests [] = ground arith
archive_path_is_safe_tests (c ∷ cs) = ground (arith, path_chars_safe_iff false (c ∷ cs))

-- `aept_archive_path_is_safe` accepts a path exactly when it is not empty, holds no newline and no
-- tab, and has no two dots side by side.
pub archive_path_is_safe_iff : (p : Bytes) → (archive_path_is_safe (some p) ≡ true) ↔ IsSafePath p
archive_path_is_safe_iff p = (
  λ h.
      let (e, n, t, d) = (archive_path_is_safe_tests p).0 h in
      record { not_empty = e; no_newline = n; no_tab = t; no_dot_dot = (no_dot_dot_iff p).0 d },
  λ s.
      (archive_path_is_safe_tests p).1
        (s.not_empty, s.no_newline, s.no_tab, (no_dot_dot_iff p).1 s.no_dot_dot),
)

-- `aept_symlink_target_is_recordable` accepts exactly the targets with no newline and no tab.
pub symlink_target_is_recordable_iff :
    (t : Bytes)
    → (symlink_target_is_recordable (some t) ≡ true)
      ↔ ((has b'\n' t ≡ false) × (has b'\t' t ≡ false))
unfolding symlink_target_is_recordable
symlink_target_is_recordable_iff [] = ground arith
symlink_target_is_recordable_iff (c ∷ cs) = ground (arith, symlink_target_is_recordable_iff cs)
