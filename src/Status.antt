-- ===== src/Status.antt =====
-- The database of installed packages in src/status.c: one `.control` file for each package, and the
-- feed that libsolv reads. What the solver makes of the feed is a parameter.
pub mod Feed
pub mod Added
mod Tests
use aept.Base.{
  ℕ, zero, suc, Bool, true, false, not, ◌&&◌, ◌||◌, Option, none, some, List, [], ◌∷◌, ◌++◌, ◌==◌,
  if◌then◌else◌, length,
}
use aept.Text.Strings.{Bytes, codes, str_eq, before, behind, strip_prefix, is_empty, c_str}
use aept.Files.{FilePath, Files, Code, success, failure, Faults, write, tmp_of, commit}
use aept.Config.{Config}
use aept.Owner.{split_last_dot}

abbrev pub unpacked_status : Bytes
unpacked_status = codes "Status: install ok unpacked"

abbrev pub installed_status : Bytes
installed_status = codes "Status: install ok installed"

-- The line begins with `Status:`.
unfoldable pub is_status : Bytes → Bool
is_status line = elim (strip_prefix (codes "Status:") line) [ none ↦ false | some rest ↦ true ]

-- What is written for a line, and the flag `found_status` behind it.
unfoldable pub feed_line : Bytes → Bool → Bytes × Bool
feed_line line found =
    if str_eq line unpacked_status
    then (installed_status, true)
    else (line, if is_status line then true else found)

-- The loop over the lines of a file; each round takes a byte at least.
unfoldable pub feed_loop : ℕ → Bytes → Bool → Bytes × Bool
feed_loop zero p found = ([], found)
feed_loop (suc f) [] found = ([], found)
feed_loop (suc f) (c ∷ cs) found =
    let (out, seen) = feed_line (before b'\n' (c ∷ cs)) found in
    elim (behind b'\n' (c ∷ cs)) [
      | none ↦ (out ++ b'\n' ∷ [], seen)
      | some rest ↦ let (more, last) = feed_loop f rest seen in (out ++ b'\n' ∷ more, last)
    ]

-- What a file adds to the feed: its lines, a status where it has none, and a blank line.
unfoldable pub stanza_of : Bytes → Bytes
stanza_of content =
    let text = c_str content in
    let (out, found) = feed_loop (length text) text false in
    if found then out ++ b'\n' ∷ [] else out ++ (installed_status ++ b'\n' ∷ b'\n' ∷ [])

-- An entry of the directory: a file whose last extension is `.control`, if it can be read.
unfoldable pub feed_entry : Config → Files → Bytes → Bytes
feed_entry cfg fs d_name = elim (split_last_dot d_name) [
  | none ↦ []
  | some (stem, ext) ↦
      if not (str_eq ext (codes ".control"))
      then []
      else (elim (fs (cfg.info_dir ++ b'/' ∷ d_name)) [ none ↦ [] | some s ↦ stanza_of s ])
]

unfoldable pub feed_of : Config → Files → List Bytes → Bytes
feed_of cfg fs [] = []
feed_of cfg fs (d ∷ ds) = feed_entry cfg fs d ++ feed_of cfg fs ds

-- Which calls on the stream in memory fail.
pub record Memory : Type 0 where
  pub open_fails : Bool
  pub flush_fails : Bool
  pub reopen_fails : Bool

-- `aept_status_load`: the names in the directory, if it can be opened, and what
-- `aept_solver_load_installed` says of a feed.
unfoldable pub status_load : (Bytes → Code) → Memory → Config → Option (List Bytes) → Files → Code
status_load load mem cfg none fs = success
status_load load mem cfg (some names) fs =
    let feed = feed_of cfg fs names in
    if mem.open_fails
    then failure
    else if mem.flush_fails
    then failure
    else if is_empty feed
    then success
    else if mem.reopen_fails
    then failure
    else load feed

abbrev pub is_trimmed : ℕ → Bool
is_trimmed c = c == b'\n' || (c == 13 || (c == b' ' || c == b'\t'))

-- The loop that steps back over white space.
unfoldable pub trim_end : Bytes → Bytes
trim_end [] = []
trim_end (c ∷ cs) = elim (trim_end cs) [
  | [] ↦ if is_trimmed c then [] else c ∷ []
  | d ∷ ds ↦ c ∷ d ∷ ds
]

-- `"%s\nStatus: install ok %s\n"`.
unfoldable pub control_text : Bytes → Bytes → Bytes
control_text ctrl state =
    c_str (trim_end ctrl) ++ b'\n' ∷ (codes "Status: install ok " ++ (state ++ b'\n' ∷ []))

unfoldable pub status_add : FilePath → FilePath → Bytes → Faults → Files → Code × Files
status_add control_src dest_path state faults fs = elim (fs control_src) [
  | none ↦ (failure, fs)
  | some ctrl ↦
      if faults.open_fails
      then (failure, fs)
      else commit dest_path (control_text ctrl state) faults (write (tmp_of dest_path) [] fs)
]
