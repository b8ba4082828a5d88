-- ===== src/Owner/Tests.antt =====
-- Tests of src/owner_index.c, and instances of its theorems.
use aept.Base.{◌≡◌, ◌≢◌, refl, none, some, List, [], ◌∷◌, if◌then◌else◌}
use aept.Text.Strings.{Bytes, codes, str_eq, before}
use aept.Text.Order.{strcmp}
use aept.Text.Lines.{read_lines}
use aept.Text.Search.{qsort, bsearch}
use aept.Files.{FilePath, Files}
use aept.Util.{normalize_path, strip_slashes, strip_dot_slashes}
use aept.Owner.{
  OwnerIndex, owner_index_init, find_owner, intern_owner, is_dead, list_path_of, append_entry,
  append_entries, read_list_into, split_last_dot, add_list, build_entry, build_loop,
  owner_index_build, live_hit, owner_index_find, split_last, drop_loop, drop_owner,
}
use aept.Owner.Valid.{IsValid, owner_index_init-IsValid}
use aept.Owner.Keeps.{owner_index_build-IsValid}
use aept.Owner.Find.{find-drop_owner}

abbrev info : FilePath
info = codes "/info"

abbrev files : Files
files q =
    if str_eq q (codes "/info/vim.list")
    then some (codes "/usr/bin/vim\t100755\n./usr/share\t40755\n")
    else if str_eq q (codes "/info/curl.list")
    then some (codes "/usr/bin/curl\t100755\n")
    else none

abbrev dir : List Bytes
dir = codes "vim.list" ∷ codes "vim.control" ∷ codes "curl.list" ∷ []

index : OwnerIndex
unfolding owner_index_build build_loop build_entry add_list split_last_dot intern_owner find_owner
    read_list_into append_entries append_entry list_path_of read_lines before normalize_path
    strip_slashes strip_dot_slashes qsort strcmp str_eq
index = owner_index_build info files (some dir) owner_index_init

index-IsValid : IsValid index
unfolding index
index-IsValid =
    owner_index_build-IsValid info files (some dir) owner_index_init owner_index_init-IsValid

answers :
    (owner_index_find index (codes "./usr/bin/vim") ≡ some (codes "vim"))
    × (owner_index_find index (codes "usr/bin/curl") ≡ some (codes "curl"))
    × (owner_index_find index (codes "/etc") ≡ none)
unfolding index owner_index_find live_hit bsearch is_dead
answers = (refl, refl, refl)

abbrev vim_gone : OwnerIndex
vim_gone = drop_owner index (codes "vim")

vim_dropped :
    (owner_index_find vim_gone (codes "./usr/bin/vim") ≡ none)
    × (owner_index_find vim_gone (codes "usr/bin/curl") ≡ some (codes "curl"))
unfolding index owner_index_find live_hit bsearch is_dead drop_owner drop_loop split_last
vim_dropped = (refl, refl)

find-drop_owner_example :
    owner_index_find (drop_owner index (codes "vim")) (codes "usr/bin/vim") ≢ some (codes "vim")
find-drop_owner_example = find-drop_owner index (codes "vim") (codes "usr/bin/vim") index-IsValid
