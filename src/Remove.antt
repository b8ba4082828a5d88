-- ===== src/Remove.antt =====
-- `aept_remove_files` of src/remove.c: the files of a package that is removed, and the order of its
-- directories. The digest of libsolv and the unlinks that fail are parameters.
pub mod Kept
pub mod Listed
pub mod Package
pub mod Operation
pub mod Gone
pub mod Attempts
mod Tests
use aept.Base.{
  ℕ, Bool, true, false, not, ◌&&◌, ◌||◌, Option, none, some, List, [], ◌∷◌, ◌++◌, ltb, ◌==◌,
  if◌then◌else◌, length,
}
use aept.Text.Strings.{Bytes, codes, str_eq, is_empty, before, behind}
use aept.Text.Lines.{read_lines}
use aept.Files.{FilePath, Files, unlink}
use aept.Util
use aept.Util.{archive_path_is_safe}
use aept.Fileset.{Fileset, fileset_contains}
use aept.Config.{Config}
use aept.Conffile.{Conffiles, set_lookup, conffile_load}
use aept.Trigger.Ctx.{is_dir_mode, mode_of, list_buffer}

-- `dir_depth_cmp(a, b) > 0`: `b` is longer, and comes first.
abbrev pub comes_later : Bytes → Bytes → Bool
comes_later a b = ltb (length a) (length b)

unfoldable pub insert_deep : Bytes → List Bytes → List Bytes
insert_deep d [] = d ∷ []
insert_deep d (e ∷ es) =
    let rest = insert_deep d es in if comes_later d e then e ∷ rest else d ∷ e ∷ es

-- `qsort(dirs, n_dirs, sizeof(char *), dir_depth_cmp)`.
unfoldable pub sort_deep : List Bytes → List Bytes
sort_deep [] = []
sort_deep (d ∷ ds) = insert_deep d (sort_deep ds)

pub record System : Type 0 where
  pub digest : Bytes → Bytes
  pub unlink_fails : FilePath → Bool

-- `aept_fileset_contains` on a set that may be null; the set may have been sorted.
unfoldable pub is_protected : Option Fileset → Bytes → Bool × Option Fileset
is_protected none path = (false, none)
is_protected (some fs) path =
    let (answer, searched) = fileset_contains fs path in (answer, some searched)

abbrev differs_from : System → Option Bytes → Option Bytes → Bool
differs_from sys none content = false
differs_from sys (some saved) none = false
differs_from sys (some saved) (some s) = not (str_eq saved (sys.digest s))

-- A configuration file whose digest is recorded, is not the file's, and is not to be purged.
unfoldable pub is_modified : System → Conffiles → Bytes → FilePath → Files → Bool
is_modified sys conffiles path full_path fs =
    differs_from sys (set_lookup conffiles (b'/' ∷ path)) (fs full_path)

abbrev pub full_path_of : Config → Bytes → FilePath
full_path_of cfg path = elim cfg.offline_root [
  | none ↦ b'/' ∷ path
  | some root ↦ root ++ b'/' ∷ path
]

-- What the loop keeps.
pub record Removal : Type 0 where
  pub protected : Option Fileset
  pub dirs : List FilePath
  pub files : Files

-- The path that a line names, and its mode.
abbrev pub line_path : Bytes → Bytes
line_path l = Util.normalize_path (before b'\t' (before b'\n' l))

abbrev pub line_mode : Bytes → ℕ
line_mode l = mode_of (behind b'\t' (before b'\n' l))

-- A file that is not a directory.
unfoldable pub remove_file : System → Conffiles → Bytes → FilePath → Files → Files
remove_file sys conffiles path full_path fs =
    if is_modified sys conffiles path full_path fs
    then fs
    else if sys.unlink_fails full_path
    then fs
    else unlink full_path fs

-- The body of the loop, on the string in its buffer.
unfoldable pub remove_line : System → Config → Conffiles → Bytes → Removal → Removal
remove_line sys cfg conffiles l s =
    let path = line_path l in
    let full_path = full_path_of cfg path in
    if is_empty path
    then s
    else if not (archive_path_is_safe (some path))
    then s
    else let (answer, searched) = is_protected s.protected path in
      if answer
      then record s { protected = searched }
      else if is_dir_mode (line_mode l)
      then record s { protected = searched; dirs = s.dirs ++ full_path ∷ [] }
      else record s {
        protected = searched;
        files = remove_file sys conffiles path full_path s.files;
      }

unfoldable pub remove_lines : System → Config → Conffiles → List Bytes → Removal → Removal
remove_lines sys cfg conffiles [] s = s
remove_lines sys cfg conffiles (l ∷ ls) s =
    remove_lines sys cfg conffiles ls (remove_line sys cfg conffiles l s)

-- The record is not read when everything is purged.
unfoldable pub kept_conffiles : Config → Bytes → Files → Conffiles
kept_conffiles cfg name fs = if cfg.purge then [] else conffile_load cfg name fs []

abbrev pub list_path : Config → Bytes → FilePath
list_path cfg name = cfg.info_dir ++ b'/' ∷ (name ++ codes ".list")

-- The files that are left, and the directories that `rmdir` is called for, in that order.
unfoldable pub remove_files :
    System → Config → Bytes → Option Fileset → Files → Files × List FilePath
remove_files sys cfg name protected fs = elim (fs (list_path cfg name)) [
  | none ↦ (fs, [])
  | some text ↦
      let s =
        remove_lines sys cfg (kept_conffiles cfg name fs) (read_lines list_buffer text)
          (record { protected = protected; dirs = []; files = fs }) in
      (s.files, sort_deep s.dirs)
]
