-- ===== src/Script.antt =====
-- src/script.c: the maintainer scripts of a package.
use aept.Base.{Option, none, some, List, [], ◌∷◌, ◌++◌, not, if◌then◌else◌}
use aept.Text.Strings.{Bytes, codes, strip_prefix}
use aept.Files.{FilePath, Files}
use aept.Config.{Config}
use aept.Process.{Exit, status, Host, run_offline, file_exists}

unfoldable pub strip_offline_root : Config → Bytes → Bytes
strip_offline_root cfg path = elim cfg.offline_root [
  | none ↦ path
  | some root ↦ elim (strip_prefix root path) [ none ↦ path | some rest ↦ rest ]
]

-- A script beside the package's record, or in a directory of its own.
unfoldable pub script_path : FilePath → Option Bytes → Bytes → FilePath
script_path script_dir none script = script_dir ++ b'/' ∷ script
script_path script_dir (some pkg) script = script_dir ++ b'/' ∷ (pkg ++ b'.' ∷ script)

-- The arguments of the shell; a version without an action is not passed on.
unfoldable pub script_argv : Bytes → Option Bytes → Option Bytes → List Bytes
script_argv path none version = codes "/bin/sh" ∷ path ∷ []
script_argv path (some action) none = codes "/bin/sh" ∷ path ∷ action ∷ []
script_argv path (some action) (some version) = codes "/bin/sh" ∷ path ∷ action ∷ version ∷ []

unfoldable pub run_script :
    Config
    → Host
    → FilePath
    → Option Bytes
    → Bytes
    → Option Bytes
    → Option Bytes
    → Files
    → Exit × Files
run_script cfg host script_dir pkg_name script action version fs =
    let path = script_path script_dir pkg_name script in
    if not (file_exists path fs)
    then (status 0, fs)
    else run_offline host (script_argv (strip_offline_root cfg path) action version) fs
