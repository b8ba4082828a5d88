-- ===== src/Clash.antt =====
-- src/clash.c: files of a package that another package owns. What the disk says of a path and what
-- libsolv says of a package are parameters.
pub mod Free
mod Tests
use aept.Base.{
  ℕ, suc, Bool, true, false, not, ◌&&◌, ◌||◌, Option, none, some, List, [], ◌∷◌, ◌++◌, ◌/◌, ◌%◌,
  ◌==◌, if◌then◌else◌, take, any,
}
use aept.Text.Strings.{Bytes, str_eq, is_empty}
use aept.Files.{FilePath, Files, Code, success, failure}
use aept.Util.{normalize_path}
use aept.Fileset.{Fileset}
use aept.Config.{Config}
use aept.Owner.{OwnerIndex, owner_index_find}
use aept.Archive.Reader.{Libarchive}
use aept.Archive.Extract.{FileEntry, is_link_mode}
use aept.Archive.Listing.{list_data_paths}
use aept.Remove.{is_protected, full_path_of}

-- An entry of the array SOLVABLE_OBSOLETES: a name, a relation on a name, or a relation on none.
pub data Dep : Type 0 where
  plain : Bytes → Dep
  relation : Bytes → Dep
  compound : Dep

-- The package that is installed: its name, and what it declares to replace.
pub record Solvable : Type 0 where
  pub name : Bytes
  pub obsoletes : List Dep

abbrev pub names_owner : Bytes → Dep → Bool
names_owner owner (plain n) = str_eq n owner
names_owner owner (relation n) = str_eq n owner
names_owner owner compound = false

-- Equal names have equal ids in the pool, and a name that is not in the pool is that of no dependency.
unfoldable pub solvable_replaces : Solvable → Bytes → Bool
solvable_replaces s owner_name = any (names_owner owner_name) s.obsoletes

-- `lstat`'s mode, `readlink`, and whether `realpath` leads to a directory.
pub record Disk : Type 0 where
  pub lstat : FilePath → Option ℕ
  pub readlink : FilePath → Option Bytes
  pub leads_to_dir : FilePath → Bool

-- `char link_buf[4096]`, with room for a NUL.
unfoldable pub same_dir_symlink : Disk → FilePath → Option Bytes → Bool
same_dir_symlink disk path none = false
same_dir_symlink disk path (some archive_target) = elim (disk.readlink path) [
  | none ↦ false
  | some text ↦ str_eq (take 4095 text) archive_target && disk.leads_to_dir path
]

-- A file that is there, and is no symbolic link to the directory that the entry links to.
unfoldable pub is_in_the_way : Disk → Config → FileEntry → Bool
is_in_the_way disk cfg e =
    let disk_path = full_path_of cfg (normalize_path e.path) in
    elim (disk.lstat disk_path) [
      | none ↦ false
      | some mode ↦ not (is_link_mode mode && same_dir_symlink disk disk_path e.link_target)
    ]

-- The path belongs to a package that is neither this one nor replaced by it.
unfoldable pub is_foreign : Solvable → Option OwnerIndex → Bytes → Bool
is_foreign s none path = false
is_foreign s (some owners) path = elim (owner_index_find owners path) [
  | none ↦ false
  | some owner ↦ not (str_eq owner s.name || solvable_replaces s owner)
]

-- One entry: whether it clashes, and the set of old files, which a search may sort.
unfoldable pub clashes_with :
    Disk
    → Config
    → Solvable
    → Option OwnerIndex
    → FileEntry
    → Option Fileset
    → Bool × Option Fileset
clashes_with disk cfg s owners e old_files =
    if is_empty (normalize_path e.path)
    then (false, old_files)
    else if not (is_in_the_way disk cfg e)
    then (false, old_files)
    else let (expected, searched) = is_protected old_files e.path in
      if expected then (false, searched) else (is_foreign s owners e.path, searched)

-- The loop of `aept_clash_check`: the number of clashes, and the set of old files.
unfoldable pub count_clashes :
    Disk
    → Config
    → Solvable
    → Option OwnerIndex
    → List FileEntry
    → Option Fileset
    → ℕ × Option Fileset
count_clashes disk cfg s owners [] old_files = (0, old_files)
count_clashes disk cfg s owners (e ∷ es) old_files =
    let (clash, searched) = clashes_with disk cfg s owners e old_files in
    let (n, last) = count_clashes disk cfg s owners es searched in
    if clash then (suc n, last) else (n, last)

-- The number of clashes, `none` for -1, and the set of old files.
unfoldable pub clash_check :
    Libarchive
    → Disk
    → Config
    → FilePath
    → Solvable
    → Option Fileset
    → Option OwnerIndex
    → Files
    → Option ℕ × Option Fileset
clash_check lib disk cfg ipk_path s old_files owners fs =
    let (code, new_files) = list_data_paths lib ipk_path cfg.ignore_uid fs in
    elim code [
      | failure ↦ (none, old_files)
      | success ↦
          let (n, last) = count_clashes disk cfg s owners new_files old_files in (some n, last)
    ]
