-- ===== src/Remove/Gone.antt =====
-- What is left of a package after `aept_do_remove`.
use aept.Base.{
  ◌≡◌, ◌≢◌, refl, sym, ◌∙◌, ◌⊎◌, inl, inr, false, Option, none, some, List, [], ◌∷◌, arith, All,
  Bool-cases, Option-cases,
}
use aept.Text.Strings.{Bytes, codes}
use aept.Text.Lines.{read_lines}
use aept.Files.{
  FilePath, Files, success, failure, Faults, write, unlink, tmp_of, commit_other, write_other,
  unlink_other, unlink_self,
}
use aept.Util.{pkg_name_is_safe}
use aept.Fileset.{Fileset}
use aept.Config.{Config}
use aept.Pin.{pin_remove, copy_dropping, pin_buffer}
use aept.Auto.{unmark_auto, copy_unmarked, auto_buffer}
use aept.Owner.{OwnerIndex, owner_index_find}
use aept.Owner.Valid.{IsValid}
use aept.Owner.Find.{find-drop_owner}
use aept.Process.{is_nonzero}
use aept.Remove.{System, remove_files}
use aept.Remove.Package.{
  info_exts, info_path, try_unlink, remove_exts, remove_info_files, Outside, World, drop_from,
  removal_script, take_away, do_remove,
}

-- A state file and its temporary file are other files than `q`.
abbrev pub IsNoFileOf : FilePath → FilePath → Type 0
IsNoFileOf state q = (q ≢ state) × (q ≢ tmp_of state)

unmark_auto_other :
    (auto_file name : Bytes) (faults : Faults) (fs : Files) (q : FilePath)
    → IsNoFileOf auto_file q
    → (unmark_auto auto_file name faults fs).1 q ≡ fs q
unfolding unmark_auto
unmark_auto_other auto_file name faults fs q h = elim (Option-cases (fs auto_file)) [
  | inl gone ↦ rw (gone, unmark_auto) refl
  | inr (old, there) ↦
      let (out, found) = copy_unmarked name false (read_lines auto_buffer old) in
      let opened = write (tmp_of auto_file) [] fs in
      let here : opened q ≡ fs q = write_other (tmp_of auto_file) q [] fs (λ e. h.1 (sym e)) in
      rw (there, unmark_auto)
        (ground (
          arith,
          commit_other auto_file out faults opened q h.0 h.1,
          unlink_other (tmp_of auto_file) q opened (λ e. h.1 (sym e)),
          here,
        ))
]

pin_remove_other :
    (pin_file name : Bytes) (faults : Faults) (fs : Files) (q : FilePath)
    → IsNoFileOf pin_file q
    → (pin_remove pin_file name faults fs).1 q ≡ fs q
unfolding pin_remove
pin_remove_other pin_file name faults fs q h = elim (Option-cases (fs pin_file)) [
  | inl gone ↦ rw (gone, pin_remove) refl
  | inr (old, there) ↦
      let (out, found) = copy_dropping name false (read_lines pin_buffer old) in
      let opened = write (tmp_of pin_file) [] fs in
      let here : opened q ≡ fs q = write_other (tmp_of pin_file) q [] fs (λ e. h.1 (sym e)) in
      rw (there, pin_remove)
        (ground (
          arith,
          commit_other pin_file out faults opened q h.0 h.1,
          unlink_other (tmp_of pin_file) q opened (λ e. h.1 (sym e)),
          here,
        ))
]

-- A file that is gone stays gone.
try_unlink_gone :
    (sys : System) (path q : FilePath) (fs : Files) → fs q ≡ none → try_unlink sys path fs q ≡ none
unfolding unlink
try_unlink_gone sys path q fs h = ground arith

remove_exts_gone :
    (sys : System) (cfg : Config) (name : Bytes) (exts : List Bytes) (fs : Files) (q : FilePath)
    → fs q ≡ none
    → remove_exts sys cfg name exts fs q ≡ none
unfolding remove_exts
remove_exts_gone sys cfg name [] fs q h = h
remove_exts_gone sys cfg name (ext ∷ exts) fs q h =
    remove_exts_gone sys cfg name exts (try_unlink sys (info_path cfg name ext) fs) q
      (try_unlink_gone sys (info_path cfg name ext) q fs h)

-- The file is not there.
abbrev pub IsGone : Config → Bytes → Files → Bytes → Type 0
IsGone cfg name fs ext = fs (info_path cfg name ext) ≡ none

remove_exts-IsGone :
    (sys : System) (cfg : Config) (name : Bytes) (exts : List Bytes) (fs : Files)
    → All (λ ext. sys.unlink_fails (info_path cfg name ext) ≡ false) exts
    → All (IsGone cfg name (remove_exts sys cfg name exts fs)) exts
unfolding remove_exts
remove_exts-IsGone sys cfg name [] fs h = tt
remove_exts-IsGone sys cfg name (ext ∷ exts) fs h =
    let path = info_path cfg name ext in
    (
      remove_exts_gone sys cfg name exts (try_unlink sys path fs) path
          (rw h.0 (unlink_self path fs)),
      remove_exts-IsGone sys cfg name exts (try_unlink sys path fs) h.1,
    )

All-kept :
    (cfg : Config) (name : Bytes) (exts : List Bytes) (a b : Files)
    → All (λ ext. b (info_path cfg name ext) ≡ a (info_path cfg name ext)) exts
    → All (IsGone cfg name a) exts
    → All (IsGone cfg name b) exts
All-kept cfg name [] a b h k = tt
All-kept cfg name (ext ∷ exts) a b h k = (h.0 ∙ k.0, All-kept cfg name exts a b h.1 k.1)

-- The record files are none of the files of marks and pins.
abbrev pub IsClear : Config → Bytes → Bytes → Type 0
IsClear cfg name ext =
    IsNoFileOf cfg.auto_file (info_path cfg name ext)
    × IsNoFileOf cfg.pin_file (info_path cfg name ext)

rewritten : (out : Outside) (cfg : Config) (name : Bytes) (fs : Files) → Files
rewritten out cfg name fs =
    (pin_remove cfg.pin_file name (out.pin_faults name)
      (unmark_auto cfg.auto_file name (out.unmark_faults name) fs).1).1

rewritten_other :
    (out : Outside) (cfg : Config) (name : Bytes) (fs : Files) (exts : List Bytes)
    → All (IsClear cfg name) exts
    → All
        (λ ext. rewritten out cfg name fs (info_path cfg name ext) ≡ fs (info_path cfg name ext))
        exts
unfolding rewritten
rewritten_other out cfg name fs [] h = tt
rewritten_other out cfg name fs (ext ∷ exts) h =
    let q = info_path cfg name ext in
    (
      pin_remove_other cfg.pin_file name (out.pin_faults name)
            (unmark_auto cfg.auto_file name (out.unmark_faults name) fs).1 q h.0.1
          ∙ unmark_auto_other cfg.auto_file name (out.unmark_faults name) fs q h.0.0,
      rewritten_other out cfg name fs exts h.1,
    )

-- No path is owned by the name.
abbrev pub OwnsNothing : Bytes → Option OwnerIndex → Type 0
OwnsNothing name none = Unit
OwnsNothing name (some idx) = (path : Bytes) → owner_index_find idx path ≢ some name

abbrev pub IsValidOwners : Option OwnerIndex → Type 0
IsValidOwners none = Unit
IsValidOwners (some idx) = IsValid idx

pub drop_from-OwnsNothing :
    (name : Bytes) (o : Option OwnerIndex) → IsValidOwners o → OwnsNothing name (drop_from name o)
drop_from-OwnsNothing name none v = tt
drop_from-OwnsNothing name (some idx) v = λ path. find-drop_owner idx name path v

take_away-IsGone :
    (out : Outside) (cfg : Config) (name : Bytes) (new_version : Option Bytes)
    (protected : Option Fileset) (w : World)
    → All (λ ext. out.system.unlink_fails (info_path cfg name ext) ≡ false) info_exts
    → All (IsClear cfg name) info_exts
    → IsValidOwners w.owners
    → All (IsGone cfg name (take_away out cfg name new_version protected w).files) info_exts
      × OwnsNothing name (take_away out cfg name new_version protected w).owners
unfolding take_away remove_info_files rewritten
take_away-IsGone out cfg name new_version protected w h clear v =
    let left = (remove_files out.system cfg name protected w.files).0 in
    let after = (removal_script out cfg name (codes "postrm") new_version left).1 in
    let cleared = remove_info_files out.system cfg name after in
    (
      All-kept cfg name info_exts cleared (rewritten out cfg name cleared)
          (rewritten_other out cfg name cleared info_exts clear)
          (remove_exts-IsGone out.system cfg name info_exts after h),
      drop_from-OwnsNothing name w.owners v,
    )

-- After `aept_do_remove` reports success none of the nine files of the package's record is there, and
-- the owner index, if there is one, answers no path by the package's name: where the calls of `unlink`
-- on the record files do not fail, and these are not the files of marks and pins.
pub do_remove-IsGone :
    (out : Outside) (cfg : Config) (name : Bytes) (new_version : Option Bytes)
    (protected : Option Fileset) (w : World)
    → All (λ ext. out.system.unlink_fails (info_path cfg name ext) ≡ false) info_exts
    → All (IsClear cfg name) info_exts
    → IsValidOwners w.owners
    → (do_remove out cfg name new_version protected w).0 ≡ success
    → All (IsGone cfg name (do_remove out cfg name new_version protected w).1.files) info_exts
      × OwnsNothing name (do_remove out cfg name new_version protected w).1.owners
unfolding do_remove
do_remove-IsGone out cfg name new_version protected w h clear v =
    elim (Bool-cases (pkg_name_is_safe (some name))) [
      | inr unsafe ↦ rw unsafe (λ ok. cc)
      | inl safe ↦
          let (r, fs) = removal_script out cfg name (codes "prerm") new_version w.files in
          elim (Bool-cases (is_nonzero r)) [
            | inl t ↦ rw (safe, t) (λ ok. cc)
            | inr f ↦
                rw (safe, f)
                  (λ ok.
                    take_away-IsGone out cfg name new_version protected (record w { files = fs }) h
                      clear v)
          ]
    ]

-- If `aept_do_remove` fails, no file has changed but by the `prerm` script, and the owner index is as
-- it was.
pub do_remove_failure :
    (out : Outside) (cfg : Config) (name : Bytes) (new_version : Option Bytes)
    (protected : Option Fileset) (w : World)
    → (do_remove out cfg name new_version protected w).0 ≡ failure
    → ((do_remove out cfg name new_version protected w).1 ≡ w)
      ⊎ ((do_remove out cfg name new_version protected w).1 ≡ record w {
        files = (removal_script out cfg name (codes "prerm") new_version w.files).1;
      })
unfolding do_remove
do_remove_failure out cfg name new_version protected w =
    elim (Bool-cases (pkg_name_is_safe (some name))) [
      | inr unsafe ↦ rw unsafe (λ h. inl refl)
      | inl safe ↦
          let (r, fs) = removal_script out cfg name (codes "prerm") new_version w.files in
          elim (Bool-cases (is_nonzero r)) [
            | inl t ↦ rw (safe, t) (λ h. inr refl)
            | inr f ↦ rw (safe, f) (λ h. cc)
          ]
    ]
