-- ===== src/Clash/Tests.antt =====
-- Tests of src/clash.c, and an instance of its theorem.
use aept.Base.{◌≡◌, ◌↔◌, refl, true, false, none, some, [], ◌∷◌, All, if◌then◌else◌}
use aept.Text.Strings.{Bytes, codes, str_eq, strip_prefix}
use aept.Text.Search.{bsearch}
use aept.Files.{Files, success}
use aept.Util
use aept.Util.{strip_slashes, strip_dot_slashes, archive_path_is_safe}
use aept.Fileset.{Fileset}
use aept.Config.{config_defaults}
use aept.Owner.{OwnerIndex, owner_index_find, live_hit, is_dead}
use aept.Archive.Reader.{
  Member, good, ended, next_header, Libarchive, skip_dot_slash, seek_member, open_ipk_tar,
  open_pkg_data_archive,
}
use aept.Archive.Listing.{list_loop, list_data_paths}
use aept.Clash.{
  Solvable, plain, Disk, solvable_replaces, same_dir_symlink, is_in_the_way, is_foreign,
  clashes_with, count_clashes, clash_check,
}
use aept.Clash.Free.{IsFree, clash_check_iff}

abbrev member : Bytes → Bytes → Member
member path body = record {
  entry = record { pathname = path; hardlink = none };
  symlink = none;
  mode = 33261;
  body = body;
}

-- A package with one program.
abbrev lib : Libarchive
lib = record {
  read_container = λ path fs. some (good (member (codes "./data.tar.gz") (codes "tar")) ∷ []);
  read_tar = λ s. some (good (member (codes "./bin/app") (codes "#!")) ∷ ended ∷ []);
  disk_writer = λ flags. true;
  extract2 = λ flags m fs. (true, fs);
}

abbrev disk : Disk
disk = record {
  lstat = λ path. if str_eq path (codes "/bin/app") then some 33261 else none;
  readlink = λ path. none;
  leads_to_dir = λ path. false;
}

-- The program belongs to the package `old`.
abbrev owners : OwnerIndex
owners = record {
  entries =
      record { path = codes "bin/app"; owner = record { pointer = 0; name = codes "old" } } ∷ [];
  recent = [];
  owners = record { pointer = 0; name = codes "old" } ∷ [];
  dead = [];
  next = 1;
}

abbrev fs : Files
fs q = none

abbrev newer : Solvable
newer = record { name = codes "new"; obsoletes = plain (codes "old") ∷ [] }

abbrev stranger : Solvable
stranger = record { name = codes "new"; obsoletes = [] }

clashes :
    ((clash_check lib disk config_defaults (codes "new.aep") stranger none (some owners) fs).0
      ≡ some 1)
    × ((clash_check lib disk config_defaults (codes "new.aep") newer none (some owners) fs).0
        ≡ some 0)
unfolding clash_check list_data_paths open_pkg_data_archive open_ipk_tar seek_member skip_dot_slash
    next_header strip_prefix list_loop archive_path_is_safe count_clashes clashes_with is_in_the_way
    is_foreign solvable_replaces owner_index_find live_hit is_dead bsearch str_eq
    Util.normalize_path strip_slashes strip_dot_slashes same_dir_symlink aept.Remove.is_protected
    aept.Text.Order.strcmp
clashes = (refl, refl)

abbrev old_list : Fileset
old_list = record { paths = codes "bin/app" ∷ []; sorted = false }

clash_check_iff_example :
    ((clash_check lib disk config_defaults
        (codes "new.aep")
        stranger
        (some old_list)
        (some owners)
        fs).0
      ≡ some 0)
    ↔ (((list_data_paths lib (codes "new.aep") false fs).0 ≡ success)
        × All
            (IsFree disk config_defaults stranger (some old_list) (some owners))
            (list_data_paths lib (codes "new.aep") false fs).1)
clash_check_iff_example =
    clash_check_iff lib disk config_defaults (codes "new.aep") stranger (some old_list)
      (some owners) fs (λ h. cc)
