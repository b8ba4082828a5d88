-- ===== src/Api/Owning.antt =====
-- `aept_owns` and `aept_files` agree.
use aept.Base.{
  ◌≡◌, refl, ap, ◌∙◌, inl, inr, Bool, true, false, not, ◌&&◌, ◌||◌, Option, none, some, List, [],
  ◌∷◌, ◌++◌, arith, if◌then◌else◌, any, map, keep, Bool-cases, Option-cases, ◌==◌,
}
use aept.Text.Strings.{Bytes, codes, str_eq, str_eq_iff, str_eq_refl, is_empty}
use aept.Text.Lines.{read_lines}
use aept.Util.{pkg_name_is_safe}
use aept.Files.{Files}
use aept.Config.{Config}
use aept.Owner.{split_last_dot, list_buffer}
use aept.Remove.{list_path}
use aept.Api.{path_of_line, files, owns_path, line_matches, owner_in, owners_in, found, owns}

abbrev list_ext : Bytes
list_ext = codes ".list"

-- The extension is what follows the last dot.
split_last_dot_ext : (name : Bytes) → split_last_dot (name ++ list_ext) ≡ some (name, list_ext)
unfolding split_last_dot
split_last_dot_ext [] = refl
split_last_dot_ext (c ∷ cs) = rw (split_last_dot_ext cs, split_last_dot) refl

split_last_dot_parts : (s stem ext : Bytes) → split_last_dot s ≡ some (stem, ext) → s ≡ stem ++ ext
unfolding split_last_dot
split_last_dot_parts [] stem ext = λ h. cc
split_last_dot_parts (c ∷ cs) stem ext = elim (Option-cases (split_last_dot cs)) [
  | inl gone ↦
      rw (gone, split_last_dot)
        (elim (Bool-cases (c == b'.')) [
          | inl dot ↦
              rw dot
                (λ h. (let e : [] ≡ stem = cc in let f : c ∷ cs ≡ ext = cc in rw (← e, ← f) refl))
          | inr other ↦ rw other (λ h. cc)
        ])
  | inr ((s, x), there) ↦
      rw (there, split_last_dot)
        (λ h.
          (let e : c ∷ s ≡ stem = cc in
            let f : x ≡ ext = cc in rw (← e, ← f) (ap (◌∷◌ c) (split_last_dot_parts cs s x there))))
]

module _ (cfg : Config) (needle : Bytes) (fs : Files) where
  -- The list of the package has a path that is the one that is asked for.
  abbrev has_file : Bytes → Bool
  has_file name = any (λ p. str_eq (owns_path p) needle) (files cfg name fs).1

  any_matches :
      (ls : List Bytes)
      → any (λ p. str_eq (owns_path p) needle) (keep (λ p. not (is_empty p)) (map path_of_line ls))
        ≡ any (line_matches needle) ls
  any_matches [] = refl
  any_matches (l ∷ ls) = elim (Bool-cases (is_empty (path_of_line l))) [
    | inl t ↦ rw t (any_matches ls)
    | inr f ↦ rw f (ap (λ b. str_eq (owns_path (path_of_line l)) needle || b) (any_matches ls))
  ]

  owner_in_list :
      (name : Bytes)
      → pkg_name_is_safe (some name) ≡ true
      → owner_in cfg needle (name ++ list_ext) fs ≡ (if has_file name then some name else none)
  unfolding owner_in files
  owner_in_list name safe = elim (Option-cases (fs (list_path cfg name))) [
    | inl gone ↦
        rw (split_last_dot_ext name, str_eq_refl list_ext, gone, safe, owner_in, files) refl
    | inr (text, there) ↦
        rw
          (
            split_last_dot_ext name,
            str_eq_refl list_ext,
            there,
            safe,
            any_matches (read_lines list_buffer text),
            owner_in,
            files,
          )
          refl
  ]

  owner_in_name : (d n : Bytes) → owner_in cfg needle d fs ≡ some n → d ≡ n ++ list_ext
  unfolding owner_in
  owner_in_name d n = elim (Option-cases (split_last_dot d)) [
    | inl gone ↦ rw (gone, owner_in) (λ h. cc)
    | inr ((stem, ext), parts) ↦ elim (Bool-cases (str_eq ext list_ext)) [
      | inr other ↦ rw (parts, other, owner_in) (λ h. cc)
      | inl same ↦ elim (Option-cases (fs (cfg.info_dir ++ b'/' ∷ d))) [
        | inl gone ↦ rw (parts, same, gone, owner_in) (λ h. cc)
        | inr (text, there) ↦
            elim (Bool-cases (any (line_matches needle) (read_lines list_buffer text))) [
              | inr none_matches ↦ rw (parts, same, there, none_matches, owner_in) (λ h. cc)
              | inl some_matches ↦
                  rw (parts, same, there, some_matches, owner_in)
                    (λ h.
                      let e : stem ≡ n = cc in
                      let f : ext ≡ list_ext = (str_eq_iff ext list_ext).0 same in
                      split_last_dot_parts d stem ext parts ∙ rw (e, f) refl)
            ]
      ]
    ]
  ]

  abbrev is_name : Bytes → Option Bytes → Bool
  is_name n none = false
  is_name n (some m) = str_eq m n

  owner_in-is_name :
      (d n : Bytes)
      → pkg_name_is_safe (some n) ≡ true
      → is_name n (owner_in cfg needle d fs) ≡ (str_eq d (n ++ list_ext) && has_file n)
  owner_in-is_name d n safe = elim (Bool-cases (str_eq d (n ++ list_ext))) [
    | inl same ↦
        rw (same, (str_eq_iff d (n ++ list_ext)).0 same, owner_in_list n safe)
          (elim (Bool-cases (has_file n)) [ inl t ↦ rw t (str_eq_refl n) | inr f ↦ rw f refl ])
    | inr other ↦ rw other (elim (Option-cases (owner_in cfg needle d fs)) [
      | inl gone ↦ rw gone refl
      | inr (m, there) ↦ rw there (elim (Bool-cases (str_eq m n)) [
        | inr f ↦ f
        | inl t ↦
            let e = owner_in_name d m there in
            let g : m ≡ n = (str_eq_iff m n).0 t in
            let k : d ≡ n ++ list_ext = e ∙ ap (λ x. x ++ list_ext) g in
            let u = (str_eq_iff d (n ++ list_ext)).1 k in absurd (cc)
      ])
    ])
  ]

  owners_in_cons :
      (d : Bytes) (ds : List Bytes) (n : Bytes)
      → any (λ m. str_eq m n) (owners_in cfg needle (d ∷ ds) fs) ≡ (
          is_name n (owner_in cfg needle d fs)
          || any (λ m. str_eq m n) (owners_in cfg needle ds fs))
  unfolding owners_in
  owners_in_cons d ds n = elim (Option-cases (owner_in cfg needle d fs)) [
    | inl gone ↦ rw (gone, owners_in) refl
    | inr (m, there) ↦ rw (there, owners_in) refl
  ]

  owners_in-has_file :
      (names : List Bytes) (n : Bytes)
      → pkg_name_is_safe (some n) ≡ true
      → any (λ m. str_eq m n) (owners_in cfg needle names fs)
        ≡ (any (λ d. str_eq d (n ++ list_ext)) names && has_file n)
  unfolding owners_in
  owners_in-has_file [] n safe = refl
  owners_in-has_file (d ∷ ds) n safe =
      owners_in_cons d ds n
      ∙ rw (owner_in-is_name d n safe, owners_in-has_file ds n safe) (ground arith)

-- `aept_owns` names a package exactly if its list stands in the directory and `aept_files` gives for it a
-- path that is the one asked for, but for `./` and `/` in front and slashes at the end. This is about
-- packages with a safe name, a path that is not empty and a directory that can be opened.
pub owns-files :
    (cfg : Config) (names : List Bytes) (path name : Bytes) (fs : Files)
    → is_empty path ≡ false
    → pkg_name_is_safe (some name) ≡ true
    → any (λ m. str_eq m name) (owns cfg (some names) path fs).1 ≡ (
        any (λ d. str_eq d (name ++ codes ".list")) names
        && any (λ p. str_eq (owns_path p) (owns_path path)) (files cfg name fs).1)
unfolding owns
owns-files cfg names path name fs filled safe =
    rw (filled, owns)
      (listed (owners_in cfg (owns_path path) names fs)
        ∙ owners_in-has_file cfg (owns_path path) fs names name safe)
  where
    listed : (ms : List Bytes) → any (λ m. str_eq m name) (found ms).1 ≡ any (λ m. str_eq m name) ms
    listed [] = refl
    listed (m ∷ ms) = refl
