-- ===== src/Auto.antt =====
-- The list of automatically installed packages in src/status.c: one name to a line.
pub mod Names
pub mod Laws
pub mod Set
mod Tests
use aept.Base.{ℕ, Bool, true, false, Option, none, some, List, [], ◌∷◌, ◌++◌, take, if◌then◌else◌}
use aept.Text.Strings.{Bytes, str_eq}
use aept.Text.Lines.{read_lines}
use aept.Text.Scan.{scan_word}
use aept.Files.{FilePath, Files, Code, success, failure, Faults, write, unlink, tmp_of, commit}
use aept.Fileset.{Fileset, fileset_add, fileset_sort}

-- `char buf[256]`.
abbrev pub auto_buffer : ℕ
auto_buffer = 256

unfoldable pub auto_lines : Option Bytes → List Bytes
auto_lines none = []
auto_lines (some s) = read_lines auto_buffer s

-- The loop of `aept_status_is_auto`.
unfoldable pub find_name : Bytes → List Bytes → Bool
find_name name [] = false
find_name name (l ∷ ls) =
    let rest = find_name name ls in
    elim (scan_word l) [ none ↦ rest | some w ↦ if str_eq w name then true else rest ]

unfoldable pub is_auto : FilePath → Bytes → Files → Bool
is_auto auto_file name fs = find_name name (auto_lines (fs auto_file))

abbrev pub old_text : Option Bytes → Bytes
old_text none = []
old_text (some s) = s

-- Of a line that could not be written whole, the first `written` bytes may be in the file.
unfoldable pub mark_auto : FilePath → Bytes → Faults → ℕ → Files → Code × Files
mark_auto auto_file name faults written fs =
    let line = name ++ b'\n' ∷ [] in
    let old = old_text (fs auto_file) in
    if is_auto auto_file name fs
    then (success, fs)
    else if faults.open_fails
    then (failure, fs)
    else if faults.write_fails
    then (failure, write auto_file (old ++ take written line) fs)
    else (success, write auto_file (old ++ line) fs)

-- The loop of `aept_status_unmark_auto`: what it writes, and the flag `found`. A line with no word
-- is not copied.
unfoldable pub copy_unmarked : Bytes → Bool → List Bytes → Bytes × Bool
copy_unmarked name found [] = ([], found)
copy_unmarked name found (l ∷ ls) = elim (scan_word l) [
  | none ↦ copy_unmarked name found ls
  | some w ↦ elim (str_eq w name) [
    | true ↦ copy_unmarked name true ls
    | false ↦ let (out, r) = copy_unmarked name found ls in (l ++ out, r)
  ]
]

unfoldable pub unmark_auto : FilePath → Bytes → Faults → Files → Code × Files
unmark_auto auto_file name faults fs = elim (fs auto_file) [
  | none ↦ (success, fs)
  | some old ↦
      if faults.open_fails
      then (failure, fs)
      else let (out, found) = copy_unmarked name false (read_lines auto_buffer old) in
        let opened = write (tmp_of auto_file) [] fs in
        if found
        then commit auto_file out faults opened
        else (success, unlink (tmp_of auto_file) opened)
]

unfoldable pub clear_auto : FilePath → Faults → Files → Code × Files
clear_auto auto_file faults fs =
    if faults.open_fails then (failure, fs) else (success, write auto_file [] fs)

-- The loop of `aept_status_load_auto_set`.
unfoldable pub add_words : Fileset → List Bytes → Fileset
add_words set [] = set
add_words set (l ∷ ls) =
    add_words (elim (scan_word l) [ none ↦ set | some w ↦ fileset_add set w ]) ls

-- A file that cannot be opened leaves the set as it is.
unfoldable pub load_auto_set : FilePath → Files → Fileset → Fileset
load_auto_set auto_file fs set = elim (fs auto_file) [
  | none ↦ set
  | some s ↦ fileset_sort (add_words set (read_lines auto_buffer s))
]
