-- ===== src/Pin.antt =====
-- src/pin.c: the file of pinned versions, one line `name version` for each.
pub mod Abstract
pub mod Entries
pub mod Refines
mod Tests
use aept.Base.{
  ℕ, zero, suc, Bool, true, false, Option, none, some, List, [], ◌∷◌, ◌++◌, if◌then◌else◌,
}
use aept.Text.Strings.{Bytes, str_eq}
use aept.Text.Lines.{read_lines}
use aept.Text.Scan.{scan_word, scan_two}
use aept.Files.{FilePath, Files, Code, success, failure, Faults, write, unlink, tmp_of, commit}

-- `char buf[512]`.
abbrev pub pin_buffer : ℕ
pin_buffer = 512

-- `fprintf(tmp, "%s %s\n", name, version)`.
abbrev pub pin_line : Bytes → Bytes → Bytes
pin_line name version = name ++ b' ' ∷ (version ++ b'\n' ∷ [])

-- The line's first word is `name`.
unfoldable pub is_named : Bytes → Bytes → Bool
is_named name line = elim (scan_word line) [ none ↦ false | some w ↦ str_eq w name ]

-- The loop of `aept_pin_add` over the old file: what it writes, and the flag `replaced`.
unfoldable pub copy_replacing : Bytes → Bytes → Bool → List Bytes → Bytes × Bool
copy_replacing name version replaced [] = ([], replaced)
copy_replacing name version replaced (l ∷ ls) = elim (is_named name l) [
  | true ↦ let (out, r) = copy_replacing name version true ls in (pin_line name version ++ out, r)
  | false ↦ let (out, r) = copy_replacing name version replaced ls in (l ++ out, r)
]

-- The lines of a file that may be missing.
unfoldable pub pin_lines : Option Bytes → List Bytes
pin_lines none = []
pin_lines (some s) = read_lines pin_buffer s

-- What `aept_pin_add` writes to the temporary file.
unfoldable pub pinned : Bytes → Bytes → Option Bytes → Bytes
pinned name version old =
    let (out, replaced) = copy_replacing name version false (pin_lines old) in
    if replaced then out else out ++ pin_line name version

unfoldable pub pin_add : FilePath → Bytes → Bytes → Faults → Files → Code × Files
pin_add pin_file name version faults fs =
    if faults.open_fails
    then (failure, fs)
    else commit pin_file (pinned name version (fs pin_file)) faults (write (tmp_of pin_file) [] fs)

-- The loop of `aept_pin_remove`: what it writes, and the flag `found`.
unfoldable pub copy_dropping : Bytes → Bool → List Bytes → Bytes × Bool
copy_dropping name found [] = ([], found)
copy_dropping name found (l ∷ ls) = elim (is_named name l) [
  | true ↦ copy_dropping name true ls
  | false ↦ let (out, r) = copy_dropping name found ls in (l ++ out, r)
]

unfoldable pub pin_remove : FilePath → Bytes → Faults → Files → Code × Files
pin_remove pin_file name faults fs = elim (fs pin_file) [
  | none ↦ (success, fs)
  | some old ↦
      if faults.open_fails
      then (failure, fs)
      else let (out, found) = copy_dropping name false (read_lines pin_buffer old) in
        let opened = write (tmp_of pin_file) [] fs in
        if found
        then commit pin_file out faults opened
        else (success, unlink (tmp_of pin_file) opened)
]

-- The loop of `aept_pin_lookup`.
unfoldable pub find_version : Bytes → List Bytes → Option Bytes
find_version name [] = none
find_version name (l ∷ ls) =
    let rest = find_version name ls in
    elim (scan_two l) [ none ↦ rest | some (n, v) ↦ if str_eq n name then some v else rest ]

unfoldable pub pin_lookup : FilePath → Bytes → Files → Option Bytes
pin_lookup pin_file name fs = find_version name (pin_lines (fs pin_file))

-- An entry of the solver's array `pins`.
pub record PinEntry : Type 0 where
  pub name : Bytes
  pub version : Bytes

-- `aept_solver_add_pin`: it appends.
abbrev pub solver_add_pin : List PinEntry → Bytes → Bytes → List PinEntry
solver_add_pin pins name version = pins ++ record { name = name; version = version } ∷ []

-- The loop of `aept_pin_load_into_solver`.
unfoldable pub load_lines : List Bytes → List PinEntry → List PinEntry
load_lines [] pins = pins
load_lines (l ∷ ls) pins =
    load_lines ls (elim (scan_two l) [ none ↦ pins | some (n, v) ↦ solver_add_pin pins n v ])

unfoldable pub pin_load_into_solver : FilePath → Files → List PinEntry → List PinEntry
pin_load_into_solver pin_file fs = load_lines (pin_lines (fs pin_file))

-- `find_pin_version` of src/solver.c.
unfoldable pub find_pin_version : List PinEntry → Bytes → Option Bytes
find_pin_version [] name = none
find_pin_version (p ∷ ps) name =
    let rest = find_pin_version ps name in if str_eq name p.name then some p.version else rest
