-- ===== src/Conffile.antt =====
-- src/conffile.c: the configuration files of packages, their recorded digests, and what becomes of
-- them in an upgrade. The digest of libsolv, the programs that a prompt starts and what the user types
-- are parameters.
pub mod Upgrade
pub mod Saved
pub mod Modified
pub mod Kept
mod Tests
use aept.Base.{
  ℕ, Bool, true, false, ◌||◌, Option, none, some, List, [], ◌∷◌, ◌++◌, map, ◌==◌, if◌then◌else◌,
  take,
}
use aept.Text.Strings.{Bytes, codes, str_eq, before, behind, is_empty}
use aept.Text.Lines.{read_lines}
use aept.Files.{FilePath, Files, Code, success, failure, write, unlink, rename}
use aept.Util.{archive_path_is_safe}
use aept.Config.{Config, root_path}

-- `aept_conffile_t`. A null digest is `none`.
pub record Conffile : Type 0 where
  pub path : Bytes
  pub md5 : Option Bytes

abbrev pub Conffiles : Type 0
Conffiles = List Conffile

unfoldable pub set_add : Conffiles → Bytes → Option Bytes → Conffiles
set_add cs path md5 = cs ++ record { path = path; md5 = md5 } ∷ []

unfoldable pub set_lookup : Conffiles → Bytes → Option Bytes
set_lookup [] path = none
set_lookup (c ∷ cs) path =
    let rest = set_lookup cs path in if str_eq c.path path then c.md5 else rest

-- `char buf[4096]`.
abbrev pub conffile_buffer : ℕ
conffile_buffer = 4096

-- The loop of `aept_conffile_parse_list`.
unfoldable pub parse_lines : List Bytes → Conffiles → Conffiles
parse_lines [] cs = cs
parse_lines (l ∷ ls) cs =
    let path = before b'\n' l in
    parse_lines ls (
      if is_empty path
      then cs
      else if archive_path_is_safe (some path)
      then set_add cs path none
      else cs)

unfoldable pub parse_list : Bytes → Files → Conffiles → Conffiles
parse_list control_dir fs cs = elim (fs (control_dir ++ codes "/conffiles")) [
  | none ↦ cs
  | some s ↦ parse_lines (read_lines conffile_buffer s) cs
]

abbrev pub skip_blanks : Bytes → Bytes
skip_blanks [] = []
skip_blanks (c ∷ cs) = elim (c == b' ') [ true ↦ skip_blanks cs | false ↦ c ∷ cs ]

-- One line of a saved file: `none` for a line that is passed over.
unfoldable pub saved_line : Bytes → Option Conffile
saved_line l =
    let buf = before b'\n' l in
    elim (behind b' ' buf) [
      | none ↦ none
      | some rest ↦ some (record { path = skip_blanks rest; md5 = some (before b' ' buf) })
    ]

-- The loop of `aept_conffile_load`.
unfoldable pub load_saved : List Bytes → Conffiles → Conffiles
load_saved [] cs = cs
load_saved (l ∷ ls) cs =
    load_saved ls (elim (saved_line l) [ none ↦ cs | some c ↦ set_add cs c.path c.md5 ])

abbrev pub saved_path : Config → Bytes → FilePath
saved_path cfg name = cfg.info_dir ++ b'/' ∷ (name ++ codes ".conffiles")

unfoldable pub conffile_load : Config → Bytes → Files → Conffiles → Conffiles
conffile_load cfg name fs cs = elim (fs (saved_path cfg name)) [
  | none ↦ cs
  | some s ↦ load_saved (read_lines conffile_buffer s) cs
]

-- The loop of `aept_conffile_save`: `fprintf(fp, "%s  %s\n", md5, path)`.
unfoldable pub saved_text : Conffiles → Bytes
saved_text [] = []
saved_text (c ∷ cs) = elim c.md5 [
  | none ↦ saved_text cs
  | some md5 ↦ md5 ++ b' ' ∷ b' ' ∷ (c.path ++ b'\n' ∷ saved_text cs)
]

-- What becomes of the calls that write a file: it is not opened, or only so many bytes are written, or
-- all are.
pub data Writing : Type 0 where
  not_opened : Writing
  cut_off : ℕ → Writing
  complete : Writing

unfoldable pub conffile_save : Config → Bytes → Conffiles → Writing → Files → Code × Files
conffile_save cfg name cs writing fs = elim writing [
  | not_opened ↦ (failure, fs)
  | cut_off n ↦ (failure, write (saved_path cfg name) (take n (saved_text cs)) fs)
  | complete ↦ (success, write (saved_path cfg name) (saved_text cs) fs)
]
