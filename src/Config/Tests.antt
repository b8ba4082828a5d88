-- ===== src/Config/Tests.antt =====
-- Tests of src/config.c, and instances of its theorems.
use mathlib.Core.List.{Memᴰ}
use aept.Base.{◌≡◌, refl, true, false, none, some, [], ◌∷◌, if◌then◌else◌}
use aept.Text.Strings.{Bytes, codes, str_eq, before}
use aept.Text.Lines.{read_lines}
use aept.Text.Scan.{skip_space, is_space}
use aept.Files.{FilePath, Files}
use aept.Util.{pkg_name_is_safe}
use aept.Config.{
  Config, config_defaults, add_source, add_arch, parse_bool, set_path, set_flag, set_option, Stat,
}
use aept.Config.Load.{strsep, directive, config_line, config_lines, config_buffer, config_load}
use aept.Config.Signature.{TurnsOff, config_load-TurnsOff}

abbrev conf : FilePath
conf = codes "/etc/aept/aept.conf"

abbrev files : Files
files q =
    if str_eq q conf
    then some (
        codes
          "# main\nsrc/gz base http://x/b\nsrc ../evil http://y\n  option check_signature no\narch all\n")
    else none

abbrev typo : Files
typo q = if str_eq q conf then some (codes "option check_signature flase\n") else none

loaded :
    ((config_load conf files).1.check_signature ≡ false)
    × ((config_load conf files).1.sources
        ≡ record { name = codes "base"; url = codes "http://x/b"; gzip = true } ∷ [])
    × ((config_load conf files).1.archs ≡ codes "all" ∷ [])
    × ((config_load conf typo).1.check_signature ≡ true)
unfolding config_load config_lines config_line directive strsep set_option set_path set_flag
    parse_bool add_source add_arch read_lines before skip_space is_space str_eq pkg_name_is_safe
loaded = (refl, refl, refl, refl)

config_load-TurnsOff_example :
    (text : Bytes) × (files conf ≡ some text)
    × ((l : Bytes) × Memᴰ l (read_lines config_buffer text) × TurnsOff l)
config_load-TurnsOff_example = config_load-TurnsOff conf files loaded.0

abbrev below : Config
below = record config_defaults { offline_root = some (codes "/target") }

abbrev target_only : Stat
target_only = record { exists = str_eq (codes "/target"); is_dir = str_eq (codes "/target") }
