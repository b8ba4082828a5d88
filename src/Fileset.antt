-- ===== src/Fileset.antt =====
-- `aept_fileset_t` of src/util.c: an array of paths that is sorted when it is first searched. The
-- capacity of the array is left out; `count` is the length of the list.
pub mod Contains
mod Tests
use aept.Base.{
  ℕ, Bool, true, false, not, ◌||◌, Option, none, some, List, [], ◌∷◌, ◌++◌, leb, ◌==◌, length,
  if◌then◌else◌,
}
use aept.Text.Strings.{Bytes, is_empty}
use aept.Text.Search.{qsort, bsearch}
use aept.Util.{normalize_path}

pub record Fileset : Type 0 where
  pub paths : List Bytes
  pub sorted : Bool

abbrev pub fileset_init : Fileset
fileset_init = record { paths = []; sorted = false }

-- `path_cmp` compares the strings themselves.
abbrev pub path_key : Bytes → Bytes
path_key p = p

unfoldable pub fileset_add : Fileset → Bytes → Fileset
fileset_add fs path =
    let p = normalize_path path in
    if is_empty p then fs else record { paths = fs.paths ++ p ∷ []; sorted = false }

unfoldable pub fileset_sort : Fileset → Fileset
fileset_sort fs =
    if fs.sorted || leb (length fs.paths) 1
    then fs
    else record { paths = qsort path_key fs.paths; sorted = true }

-- The answer, and the set, which may have been sorted.
unfoldable pub fileset_contains : Fileset → Bytes → Bool × Fileset
fileset_contains fs path =
    let p = normalize_path path in
    if length fs.paths == 0 || is_empty p
    then (false, fs)
    else let s = fileset_sort fs in
      (elim (bsearch path_key p s.paths) [ none ↦ false | some hit ↦ true ], s)
