-- ===== src/Clash/Free.antt =====
-- What it means that `aept_clash_check` finds no clash.
use mathlib.Core.Path.{subst}
use aept.Base.{
  ◌≡◌, refl, ap, sym, ◌∙◌, ◌⊎◌, inl, inr, ◌↔◌, Bool, true, false, Option, none, some, List, [], ◌∷◌,
  arith, All, Bool-cases, Option-cases,
}
use aept.Text.Strings.{Bytes, str_eq_iff, is_empty}
use aept.Files.{FilePath, Files, success, Code-cases}
use aept.Util.{normalize_path}
use aept.Fileset.{Fileset}
use aept.Config.{Config}
use aept.Owner.{OwnerIndex, owner_index_find}
use aept.Archive.Reader.{Libarchive}
use aept.Archive.Extract.{FileEntry}
use aept.Archive.Listing.{list_data_paths}
use aept.Remove.{is_protected}
use aept.Remove.Kept.{IsValidSet, AnswersAs, searched-AnswersAs}
use aept.Clash.{
  Solvable, solvable_replaces, Disk, is_in_the_way, is_foreign, clashes_with, count_clashes,
  clash_check,
}

-- The package may put the entry on the disk: it names no file; or nothing is in its way; or the old
-- version of the package has the file; or, if a package owns it, that is the same package, or one that
-- the package replaces.
abbrev pub IsFree :
    Disk → Config → Solvable → Option Fileset → Option OwnerIndex → FileEntry → Type 0
IsFree disk cfg s old_files owners e =
    (normalize_path e.path ≡ [])
    ⊎ (is_in_the_way disk cfg e ≡ false)
    ⊎ ((is_protected old_files e.path).0 ≡ true)
    ⊎ ((idx : OwnerIndex) (owner : Bytes)
        → owners ≡ some idx
        → owner_index_find idx e.path ≡ some owner
        → (owner ≡ s.name) ⊎ (solvable_replaces s owner ≡ true))

unwrap {ℓ} : {A : Type ℓ} {a b : A} → some a ≡ some b → a ≡ b
unwrap e = cc

is_foreign_iff :
    (s : Solvable) (owners : Option OwnerIndex) (path : Bytes)
    → (is_foreign s owners path ≡ false) ↔ (
        (idx : OwnerIndex) (owner : Bytes)
        → owners ≡ some idx
        → owner_index_find idx path ≡ some owner
        → (owner ≡ s.name) ⊎ (solvable_replaces s owner ≡ true))
unfolding is_foreign
is_foreign_iff s none path = (λ h idx owner e. cc, λ h. refl)
is_foreign_iff s (some o) path = elim (Option-cases (owner_index_find o path)) [
  | inl gone ↦
      rw (gone, is_foreign)
        (
          λ h idx owner e f.
              absurd (let g = sym gone ∙ ap (λ i. owner_index_find i path) (unwrap e) ∙ f in cc),
          λ h. refl,
        )
  | inr (x, there) ↦
      rw (there, is_foreign)
        (
          λ h idx owner e f.
              let same : x ≡ owner =
                unwrap (sym there ∙ ap (λ i. owner_index_find i path) (unwrap e) ∙ f) in
              rw (← same) (ground (arith, str_eq_iff x s.name)),
          λ h. ground (arith, h o x refl there, str_eq_iff x s.name),
        )
]

module _ (disk : Disk) (cfg : Config) (s : Solvable) (owners : Option OwnerIndex) where
  clashes_with_iff :
      (e : FileEntry) (old_files : Option Fileset)
      → ((clashes_with disk cfg s owners e old_files).0 ≡ false)
        ↔ IsFree disk cfg s old_files owners e
  unfolding clashes_with
  clashes_with_iff e old_files = elim (Bool-cases (is_empty (normalize_path e.path))) [
    | inl t ↦ rw t (λ h. inl (nothing (normalize_path e.path) t), λ h. refl)
    | inr full ↦ elim (Bool-cases (is_in_the_way disk cfg e)) [
      | inr f ↦ rw (full, f) (λ h. inr (inl refl), λ h. refl)
      | inl there ↦ elim (Bool-cases (is_protected old_files e.path).0) [
        | inl t ↦ rw (full, there, t) (λ h. inr (inr (inl refl)), λ h. refl)
        | inr f ↦
            rw (full, there, f)
              (
                λ h. inr (inr (inr ((is_foreign_iff s owners e.path).0 h))),
                λ h. foreign (normalize_path e.path) full h,
              )
      ]
    ]
  ]
    where
      nothing : (p : Bytes) → is_empty p ≡ true → p ≡ []
      nothing [] t = refl
      nothing (c ∷ cs) t = cc

      foreign :
          (p : Bytes)
          → is_empty p ≡ false
          → ((p ≡ [])
              ⊎ (true ≡ false)
              ⊎ (false ≡ true)
              ⊎ ((idx : OwnerIndex) (owner : Bytes)
                  → owners ≡ some idx
                  → owner_index_find idx e.path ≡ some owner
                  → (owner ≡ s.name) ⊎ (solvable_replaces s owner ≡ true)))
          → is_foreign s owners e.path ≡ false
      foreign p k (inl h) = absurd (let g = sym k ∙ ap is_empty h in cc)
      foreign p k (inr (inl h)) = cc
      foreign p k (inr (inr (inl h))) = cc
      foreign p k (inr (inr (inr h))) = (is_foreign_iff s owners e.path).1 h

  clashes_with-AnswersAs :
      (e : FileEntry) (a b : Option Fileset)
      → AnswersAs a b
      → AnswersAs a (clashes_with disk cfg s owners e b).1
  unfolding clashes_with
  clashes_with-AnswersAs e a b h = elim (Bool-cases (is_empty (normalize_path e.path))) [
    | inl t ↦ rw t h
    | inr full ↦ elim (Bool-cases (is_in_the_way disk cfg e)) [
      | inr f ↦ rw (full, f) h
      | inl there ↦ elim (Bool-cases (is_protected b e.path).0) [
        | inl t ↦ rw (full, there, t) (searched-AnswersAs a b e.path h)
        | inr f ↦ rw (full, there, f) (searched-AnswersAs a b e.path h)
      ]
    ]
  ]

  IsFree-same :
      (e : FileEntry) (a b : Option Fileset)
      → AnswersAs a b
      → IsFree disk cfg s b owners e ↔ IsFree disk cfg s a owners e
  IsFree-same e a b h = (
    through (is_protected b e.path).0 (is_protected a e.path).0 (h.same e.path),
    through (is_protected a e.path).0 (is_protected b e.path).0 (sym (h.same e.path)),
  )
    where
      through :
          (x y : Bool)
          → x ≡ y
          → (normalize_path e.path ≡ [])
            ⊎ (is_in_the_way disk cfg e ≡ false)
            ⊎ (x ≡ true)
            ⊎ ((idx : OwnerIndex) (owner : Bytes)
                → owners ≡ some idx
                → owner_index_find idx e.path ≡ some owner
                → (owner ≡ s.name) ⊎ (solvable_replaces s owner ≡ true))
          → (normalize_path e.path ≡ [])
            ⊎ (is_in_the_way disk cfg e ≡ false)
            ⊎ (y ≡ true)
            ⊎ ((idx : OwnerIndex) (owner : Bytes)
                → owners ≡ some idx
                → owner_index_find idx e.path ≡ some owner
                → (owner ≡ s.name) ⊎ (solvable_replaces s owner ≡ true))
      through x y k =
          subst
            (λ z.
              (normalize_path e.path ≡ [])
              ⊎ (is_in_the_way disk cfg e ≡ false)
              ⊎ (z ≡ true)
              ⊎ ((idx : OwnerIndex) (owner : Bytes)
                  → owners ≡ some idx
                  → owner_index_find idx e.path ≡ some owner
                  → (owner ≡ s.name) ⊎ (solvable_replaces s owner ≡ true)))
            k

  count_clashes_iff :
      (es : List FileEntry) (a b : Option Fileset)
      → AnswersAs a b
      → ((count_clashes disk cfg s owners es b).0 ≡ 0) ↔ All (IsFree disk cfg s a owners) es
  unfolding count_clashes
  count_clashes_iff [] a b h = (λ k. tt, λ k. refl)
  count_clashes_iff (e ∷ es) a b h =
      let rest =
        count_clashes_iff es a (clashes_with disk cfg s owners e b).1
          (clashes_with-AnswersAs e a b h) in
      let same = IsFree-same e a b h in
      let one = clashes_with_iff e b in
      elim (Bool-cases (clashes_with disk cfg s owners e b).0) [
        | inl t ↦
            rw t (λ k. absurd (omega arith), λ k. absurd (let f = sym t ∙ one.1 (same.1 k.0) in cc))
        | inr f ↦ rw f (λ k. (same.0 (one.0 f), rest.0 k), λ k. rest.1 k.1)
      ]

-- `aept_clash_check` answers 0 exactly if the data of the package can be listed and each entry in it is
-- free: it names no file, nothing is in its way on the disk (a symbolic link to the same directory is
-- not), the old version of the package has it, or no package owns it but this one or one that it
-- replaces. The set of old files, where there is one, tells the truth of being sorted.
pub clash_check_iff :
    (lib : Libarchive) (disk : Disk) (cfg : Config) (ipk_path : FilePath) (s : Solvable)
    (old_files : Option Fileset) (owners : Option OwnerIndex) (fs : Files)
    → IsValidSet old_files
    → ((clash_check lib disk cfg ipk_path s old_files owners fs).0 ≡ some 0) ↔ (
        ((list_data_paths lib ipk_path cfg.ignore_uid fs).0 ≡ success)
        × All
            (IsFree disk cfg s old_files owners)
            (list_data_paths lib ipk_path cfg.ignore_uid fs).1)
unfolding clash_check
clash_check_iff lib disk cfg ipk_path s old_files owners fs v =
    let es = (list_data_paths lib ipk_path cfg.ignore_uid fs).1 in
    let own =
      count_clashes_iff disk cfg s owners es old_files old_files
        (record { valid = v; same = λ path. refl }) in
    elim (Code-cases (list_data_paths lib ipk_path cfg.ignore_uid fs).0) [
      | inr bad ↦ rw (bad, clash_check) (λ h. cc, λ h. cc)
      | inl ok ↦ rw (ok, clash_check) (λ h. (refl, own.0 (unwrap h)), λ h. ap some (own.1 h.1))
    ]
