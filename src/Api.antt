-- ===== src/Api.antt =====
-- src/api.c: the configuration of a session, the operations on pins and marks that take lists of
-- packages, and the queries for the files of a package and the packages of a file.
pub mod Unpinned
pub mod Owning
mod Tests
use aept.Base.{
  ℕ, Bool, true, false, not, ◌&&◌, Option, none, some, List, [], ◌∷◌, ◌++◌, if◌then◌else◌, map, any,
  keep,
}
use aept.Text.Strings.{Bytes, codes, str_eq, is_empty, before, behind, has}
use aept.Text.Lines.{read_lines}
use aept.Util.{pkg_name_is_safe, normalize_path}
use aept.Files.{FilePath, Files, Code, success, failure, Faults}
use aept.Process.{Exit, status, minus_one}
use aept.Config.{Config, config_defaults, apply_offline_root}
use aept.Config.Load.{config_load}
use aept.Pin.{pin_add, pin_remove}
use aept.Owner.{split_last_dot, list_buffer}
use aept.Archive.{trim_slashes}
use aept.Remove.{list_path}

-- What `access` says of the configuration file: it is not there, or it is, readable or not.
abbrev pub loaded_config : Bool → FilePath → Files → Code × Config
loaded_config missing path fs = if missing then (success, config_defaults) else config_load path fs

abbrev pub default_path : Option FilePath → FilePath
default_path none = codes "/etc/aept/aept.conf"
default_path (some path) = path

-- An offline root that was set before takes the place of the file's.
abbrev pub override_root : Option Bytes → Config → Config
override_root none cfg = cfg
override_root (some root) cfg = record cfg { offline_root = some root }

-- `aept_load_config`, for a context whose configuration is `old`; `none` for -1.
unfoldable pub load_config : Bool → Option FilePath → Files → Config → Option Config
load_config missing path fs old =
    let (code, cfg) = loaded_config missing (default_path path) fs in
    elim code [
      | failure ↦ none
      | success ↦ some (apply_offline_root (override_root old.offline_root cfg))
    ]

-- The common end of the loops that go on after a failure.
abbrev pub worse : Code → Code → Code
worse failure c = failure
worse success c = c

-- `aept_unpin`; `faults n` are those of the call for the name `n`.
unfoldable pub unpin : FilePath → (Bytes → Faults) → List Bytes → Files → Code × Files
unpin pin_file faults [] fs = (success, fs)
unpin pin_file faults (n ∷ ns) fs =
    let (r, after) = pin_remove pin_file n (faults n) fs in
    let (rest, last) = unpin pin_file faults ns after in (worse r rest, last)

-- A spec of `aept_pin`: the name, and the version behind `=` or the one that is installed.
abbrev pub spec_version : (Bytes → Option Bytes) → Bytes → Option (Bytes × Bytes)
spec_version installed spec = elim (behind b'=' spec) [
  | some version ↦ some (before b'=' spec, version)
  | none ↦ elim (installed spec) [ none ↦ none | some version ↦ some (spec, version) ]
]

-- A spec with no version is passed over.
abbrev pub pin_one : FilePath → Faults → Option (Bytes × Bytes) → Files → Code × Files
pin_one pin_file faults none fs = (success, fs)
pin_one pin_file faults (some (name, version)) fs = pin_add pin_file name version faults fs

-- `aept_pin`. `database` is what the solver says of the installed versions, `none` where it cannot be
-- loaded, which matters for the first spec without a version.
unfoldable pub pin :
    FilePath → (Bytes → Faults) → Option (Bytes → Option Bytes) → List Bytes → Files → Code × Files
pin pin_file faults database [] fs = (success, fs)
pin pin_file faults none (s ∷ ss) fs =
    if not (has b'=' s)
    then (failure, fs)
    else let (r, after) = pin_one pin_file (faults s) (spec_version (λ name. none) s) fs in
      let (rest, last) = pin pin_file faults none ss after in (worse r rest, last)
pin pin_file faults (some installed) (s ∷ ss) fs =
    let (r, after) = pin_one pin_file (faults s) (spec_version installed s) fs in
    let (rest, last) = pin pin_file faults (some installed) ss after in (worse r rest, last)

-- The string without its newline and what follows a tab.
abbrev pub path_of_line : Bytes → Bytes
path_of_line line = before b'\t' (before b'\n' line)

-- `aept_files`.
unfoldable pub files : Config → Bytes → Files → Exit × List Bytes
files cfg name fs =
    if not (pkg_name_is_safe (some name)) then (minus_one, []) else elim (fs (list_path cfg name)) [
      | none ↦ (status 1, [])
      | some text ↦
          (status 0, keep (λ p. not (is_empty p)) (map path_of_line (read_lines list_buffer text)))
    ]

-- `strip_leading`, and the slashes at the end taken off (`owns_path_len`); an empty path is `.`.
abbrev pub or_dot : Bytes → Bytes
or_dot [] = codes "."
or_dot (c ∷ cs) = c ∷ cs

abbrev pub owns_path : Bytes → Bytes
owns_path path = trim_slashes (or_dot (normalize_path path))

-- One line of a list.
abbrev pub line_matches : Bytes → Bytes → Bool
line_matches needle line =
    not (is_empty (path_of_line line)) && str_eq (owns_path (path_of_line line)) needle

-- One name in the directory of the lists: the package whose list has the path.
unfoldable pub owner_in : Config → Bytes → Bytes → Files → Option Bytes
owner_in cfg needle d_name fs = elim (split_last_dot d_name) [
  | none ↦ none
  | some (name, ext) ↦
      if not (str_eq ext (codes ".list")) then none else elim (fs (cfg.info_dir ++ b'/' ∷ d_name)) [
        | none ↦ none
        | some text ↦
            if any (line_matches needle) (read_lines list_buffer text) then some name else none
      ]
]

unfoldable pub owners_in : Config → Bytes → List Bytes → Files → List Bytes
owners_in cfg needle [] fs = []
owners_in cfg needle (d ∷ ds) fs =
    let rest = owners_in cfg needle ds fs in
    elim (owner_in cfg needle d fs) [ none ↦ rest | some name ↦ name ∷ rest ]

abbrev pub found : List Bytes → Exit × List Bytes
found [] = (status 1, [])
found (n ∷ ns) = (status 0, n ∷ ns)

-- `aept_owns`; `entries` are the names in the directory, `none` where it cannot be opened.
unfoldable pub owns : Config → Option (List Bytes) → Bytes → Files → Exit × List Bytes
owns cfg entries path fs = if is_empty path then (minus_one, []) else elim entries [
  | none ↦ (status 1, [])
  | some names ↦ found (owners_in cfg (owns_path path) names fs)
]
