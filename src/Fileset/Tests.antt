-- ===== src/Fileset/Tests.antt =====
-- Tests of the file set, and instances of its theorems.
use aept.Base.{◌≡◌, refl, true, false, not, ◌&&◌, ◌||◌, [], ◌∷◌}
use aept.Text.Strings.{codes, str_eq, is_empty}
use aept.Text.Order.{strcmp}
use aept.Text.Search.{qsort, bsearch}
use aept.Util.{normalize_path, strip_slashes, strip_dot_slashes}
use aept.Fileset.{Fileset, fileset_add, fileset_sort, fileset_contains}
use aept.Fileset.Contains.{IsValid, contains-add}

abbrev three : Fileset
three = record { paths = codes "usr/bin/b" ∷ codes "etc" ∷ codes "usr" ∷ []; sorted = false }

three-IsValid : IsValid three
three-IsValid h = cc

searches :
    ((fileset_contains three (codes "/usr/bin/b")).0 ≡ true)
    × ((fileset_contains three (codes "./etc")).0 ≡ true)
    × ((fileset_contains three (codes "us")).0 ≡ false)
unfolding fileset_contains fileset_sort qsort bsearch strcmp normalize_path strip_slashes
    strip_dot_slashes
searches = (refl, refl, refl)

contains-add_example : (fileset_contains (fileset_add three (codes "./lib")) (codes "/lib")).0 ≡ (
    (fileset_contains three (codes "/lib")).0
    || (not (is_empty (normalize_path (codes "/lib")))
        && str_eq (normalize_path (codes "/lib")) (normalize_path (codes "./lib"))))
contains-add_example = contains-add three (codes "./lib") (codes "/lib") three-IsValid
