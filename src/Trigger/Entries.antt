-- ===== src/Trigger/Entries.antt =====
-- `load_trigger_entries` of src/trigger.c: the patterns that the packages' files hold.
use aept.Base.{
  ℕ, zero, suc, ◌-◌, Bool, true, false, not, ◌||◌, Option, none, some, List, [], ◌∷◌, ◌++◌, leb,
  ◌==◌, if◌then◌else◌, length, take, drop,
}
use aept.Text.Strings.{Bytes, codes, str_eq, before, c_str}
use aept.Text.Lines.{fgets}
use aept.Files.{Files}
use aept.Config.{Config}

-- `trigger_entry_t`.
pub record TriggerEntry : Type 0 where
  pub pattern : Bytes
  pub pkg_name : Bytes
  pub modify_only : Bool

abbrev pub skip_blank : Bytes → Bytes
skip_blank [] = []
skip_blank (c ∷ cs) = elim (c == b' ' || c == b'\t') [ true ↦ skip_blank cs | false ↦ c ∷ cs ]

-- One line of a `.triggers` file: `none` for a blank line and a comment.
unfoldable pub trigger_line : Bytes → Bytes → Option TriggerEntry
trigger_line pkg_name buf = elim (skip_blank (before b'\n' buf)) [
  | [] ↦ none
  | c ∷ p ↦
      if c == b'#'
      then none
      else if c == b'+'
      then some (record { pattern = p; pkg_name = pkg_name; modify_only = true })
      else some (record { pattern = c ∷ p; pkg_name = pkg_name; modify_only = false })
]

-- `while (fgets(line, sizeof(line), tfp))` with no test for a line that is too long: its pieces are
-- lines of their own. The length of the file is fuel enough, as for `lines_from`.
unfoldable pub pieces : ℕ → ℕ → Bytes → List Bytes
unfolding fgets
pieces zero size s = []
pieces (suc f) size [] = []
pieces (suc f) size (x ∷ xs) =
    let (raw, rest) = fgets (size - 1) (x ∷ xs) in c_str raw ∷ pieces f size rest

-- `char line[1024]`.
abbrev pub trigger_buffer : ℕ
trigger_buffer = 1024

unfoldable pub trigger_lines : Bytes → List Bytes → List TriggerEntry
trigger_lines pkg_name [] = []
trigger_lines pkg_name (l ∷ ls) =
    let rest = trigger_lines pkg_name ls in
    elim (trigger_line pkg_name l) [ none ↦ rest | some e ↦ e ∷ rest ]

abbrev pub triggers_suffix : Bytes
triggers_suffix = codes ".triggers"

-- A name that is longer than the suffix and ends in it, without it.
unfoldable pub package_of : Bytes → Option Bytes
package_of d_name =
    let nlen = length d_name in
    let slen = length triggers_suffix in
    if leb nlen slen
    then none
    else if not (str_eq (drop (nlen - slen) d_name) triggers_suffix)
    then none
    else some (take (nlen - slen) d_name)

-- The loop over the names that `readdir` gives for `info_dir`.
unfoldable pub load_entries : Config → Files → List Bytes → List TriggerEntry
load_entries cfg fs [] = []
load_entries cfg fs (d_name ∷ names) =
    let rest = load_entries cfg fs names in
    elim (package_of d_name) [
      | none ↦ rest
      | some pkg ↦ elim (fs (cfg.info_dir ++ b'/' ∷ d_name)) [
        | none ↦ rest
        | some s ↦ trigger_lines pkg (pieces (length s) trigger_buffer s) ++ rest
      ]
    ]
