-- ===== src/Update/Stale.antt =====
-- Which files the removal of stale lists and the cleaning of the cache take away.
use aept.Base.{
  ◌≡◌, refl, ◌∙◌, inl, inr, ℕ, Bool, not, ◌&&◌, none, List, [], ◌∷◌, ◌++◌, arith, if◌then◌else◌,
  Bool-cases, any,
}
use aept.Text.Strings.{Bytes, str_eq, str_eq_iff}
use aept.Files.{FilePath, Files, success, unlink}
use aept.Config.{Config}
use aept.Update.{
  list_of, base_of, is_active_source, is_dots, prune_entry, prune_names, clean_names, listing,
  op_clean,
}
use aept.Update.Signed.{code_of_success}

str_eq-append : (p a b : Bytes) → str_eq (p ++ a) (p ++ b) ≡ str_eq a b
unfolding str_eq
str_eq-append [] a b = refl
str_eq-append (c ∷ cs) a b = ground (arith, str_eq-append cs a b)

str_eq_under : (p : Bytes) (c : ℕ) (a b : Bytes) → str_eq (p ++ c ∷ a) (p ++ c ∷ b) ≡ str_eq a b
unfolding str_eq
str_eq_under p c a b = str_eq-append p (c ∷ a) (c ∷ b) ∙ ground arith

-- A file that is not one of the two directories and belongs to no configured source.
abbrev pub is_stale : Config → Bytes → Bool
is_stale cfg name = not (is_dots name) && not (is_active_source cfg (base_of name))

prune_entry_lem :
    (cfg : Config) (n name : Bytes) (fs : Files)
    → prune_entry cfg n fs (list_of cfg name)
      ≡ (if str_eq n name && is_stale cfg n then none else fs (list_of cfg name))
unfolding prune_entry unlink
prune_entry_lem cfg n name fs = ground (arith, str_eq_under cfg.lists_dir b'/' n name)

-- Of the files in the directory of the lists `prune_stale_lists` removes exactly those that are listed
-- and whose name, less a `.sig` at its end, is that of no configured source; the others stay.
pub prune_names_lem :
    (cfg : Config) (names : List Bytes) (name : Bytes) (fs : Files)
    → prune_names cfg names fs (list_of cfg name) ≡ (
        if any (λ n. str_eq n name) names && is_stale cfg name then none else fs (list_of cfg name))
prune_names_lem cfg [] name fs = refl
prune_names_lem cfg (n ∷ ns) name fs =
    rw (prune_names_lem cfg ns name (prune_entry cfg n fs), prune_entry_lem cfg n name fs)
      (elim (Bool-cases (str_eq n name)) [
        | inr other ↦ rw other refl
        | inl same ↦ rw (same, (str_eq_iff n name).0 same) (ground arith)
      ])

unlink_under :
    (dir n name : Bytes) (fs : Files)
    → unlink (dir ++ b'/' ∷ n) fs (dir ++ b'/' ∷ name)
      ≡ (if str_eq n name then none else fs (dir ++ b'/' ∷ name))
unfolding unlink
unlink_under dir n name fs = rw (str_eq_under dir b'/' n name) refl

clean_names_lem :
    (unlink_fails : FilePath → Bool) (cfg : Config) (names : List Bytes) (name : Bytes) (fs : Files)
    → (clean_names unlink_fails cfg names fs).0 ≡ 0
    → (clean_names unlink_fails cfg names fs).1 (cfg.cache_dir ++ b'/' ∷ name) ≡ (
        if any (λ n. str_eq n name) names && not (is_dots name)
        then none
        else fs (cfg.cache_dir ++ b'/' ∷ name))
unfolding clean_names
clean_names_lem unlink_fails cfg [] name fs = λ h. refl
clean_names_lem unlink_fails cfg (n ∷ ns) name fs =
    let path = cfg.cache_dir ++ b'/' ∷ n in
    elim (Bool-cases (is_dots n)) [
      | inl dots ↦
          rw (dots, clean_names)
            (λ h.
              clean_names_lem unlink_fails cfg ns name fs h ∙ elim (Bool-cases (str_eq n name)) [
                | inr other ↦ rw other refl
                | inl same ↦ rw (← (str_eq_iff n name).0 same, dots) (ground arith)
              ])
      | inr plain ↦ elim (Bool-cases (unlink_fails path)) [
        | inl fails ↦ rw (plain, fails, clean_names) (λ h. absurd (omega arith))
        | inr works ↦
            rw (plain, works, clean_names)
              (λ h.
                clean_names_lem unlink_fails cfg ns name (unlink path fs) h
                ∙ rw (unlink_under cfg.cache_dir n name fs) (elim (Bool-cases (str_eq n name)) [
                  | inr other ↦ rw other refl
                  | inl same ↦ rw (same, ← (str_eq_iff n name).0 same, plain) (ground arith)
                ]))
      ]
    ]

-- If `aept_op_clean` reports success, of the files in the directory of the cache none that is listed is
-- left, but for `.` and `..`, and every other one is as it was.
pub op_clean_lem :
    (unlink_fails : FilePath → Bool) (cfg : Config) (names : List Bytes) (name : Bytes) (fs : Files)
    → (op_clean unlink_fails cfg (listing names) fs).0 ≡ success
    → (op_clean unlink_fails cfg (listing names) fs).1 (cfg.cache_dir ++ b'/' ∷ name) ≡ (
        if any (λ n. str_eq n name) names && not (is_dots name)
        then none
        else fs (cfg.cache_dir ++ b'/' ∷ name))
unfolding op_clean
op_clean_lem unlink_fails cfg names name fs h =
    clean_names_lem unlink_fails cfg names name fs
      (code_of_success (clean_names unlink_fails cfg names fs).0 h)
