-- ===== src/Config.antt =====
-- src/config.c: the configuration and its file. Log messages are left out.
pub mod Load
pub mod Safe
pub mod Signature
mod Tests
use aept.Base.{
  ℕ, Bool, true, false, not, ◌&&◌, ◌||◌, Option, none, some, List, [], ◌∷◌, ◌++◌, ◌==◌,
  if◌then◌else◌,
}
use aept.Text.Strings.{Bytes, codes, str_eq, before, is_empty}
use aept.Text.Lines.{read_lines}
use aept.Text.Scan.{skip_space}
use aept.Files.{FilePath, Files, Code, success, failure}
use aept.Util.{pkg_name_is_safe}

pub record Source : Type 0 where
  pub name : Bytes
  pub url : Bytes
  pub gzip : Bool

-- `aept_config_t`. A pointer that may be null is an `Option`; an `int` that is 0 or 1 is a `Bool`.
pub record Config : Type 0 where
  pub sources : List Source
  pub offline_root : Option Bytes
  pub info_dir : Bytes
  pub lists_dir : Bytes
  pub cache_dir : Bytes
  pub tmp_dir : Bytes
  pub lock_file : Bytes
  pub usign_keydir : Bytes
  pub auto_file : Bytes
  pub pin_file : Bytes
  pub ssl_client_cert : Option Bytes
  pub ssl_client_key : Option Bytes
  pub archs : List Bytes
  pub check_signature : Bool
  pub ignore_uid : Bool
  pub allow_downgrade : Bool
  pub force_depends : Bool
  pub noaction : Bool
  pub download_only : Bool
  pub reinstall : Bool
  pub no_cache : Bool
  pub force_confnew : Bool
  pub force_confold : Bool
  pub purge : Bool
  pub non_interactive : Bool
  pub keep_going : Bool
  pub verbosity : ℕ

-- `aept_config_set_defaults`; `AEPT_INFO` is 2.
abbrev pub config_defaults : Config
config_defaults = record {
  sources = [];
  offline_root = none;
  info_dir = codes "/var/lib/aept/info";
  lists_dir = codes "/var/lib/aept/lists";
  cache_dir = codes "/var/cache/aept";
  tmp_dir = codes "/tmp";
  lock_file = codes "/var/lib/aept/lock";
  usign_keydir = codes "/etc/aept/usign/trustdb";
  auto_file = codes "/var/lib/aept/auto-installed";
  pin_file = codes "/var/lib/aept/pinned-packages";
  ssl_client_cert = none;
  ssl_client_key = none;
  archs = [];
  check_signature = true;
  ignore_uid = false;
  allow_downgrade = false;
  force_depends = false;
  noaction = false;
  download_only = false;
  reinstall = false;
  no_cache = false;
  force_confnew = false;
  force_confold = false;
  purge = false;
  non_interactive = false;
  keep_going = false;
  verbosity = 2;
}

unfoldable pub add_source : Config → Bytes → Bytes → Bool → Config
add_source cfg name url gzip =
    if not (pkg_name_is_safe (some name))
    then cfg
    else record cfg { sources = cfg.sources ++ record { name = name; url = url; gzip = gzip } ∷ [] }

unfoldable pub add_arch : Config → Bytes → Config
add_arch cfg arch = record cfg { archs = cfg.archs ++ arch ∷ [] }

abbrev pub is_truthy : Bytes → Bool
is_truthy v =
    str_eq v (codes "1")
    || (str_eq v (codes "true") || (str_eq v (codes "yes") || str_eq v (codes "on")))

abbrev pub is_falsy : Bytes → Bool
is_falsy v =
    str_eq v (codes "0")
    || (str_eq v (codes "false") || (str_eq v (codes "no") || str_eq v (codes "off")))

unfoldable pub parse_bool : Bytes → Bool → Bool
parse_bool value safe_default =
    if is_truthy value then true else if is_falsy value then false else safe_default

-- The strings that an option sets.
unfoldable pub set_path : Config → Bytes → Bytes → Option Config
set_path cfg key v =
    if str_eq key (codes "offline_root")
    then some (record cfg { offline_root = some v })
    else if str_eq key (codes "info_dir")
    then some (record cfg { info_dir = v })
    else if str_eq key (codes "lists_dir")
    then some (record cfg { lists_dir = v })
    else if str_eq key (codes "cache_dir")
    then some (record cfg { cache_dir = v })
    else if str_eq key (codes "tmp_dir")
    then some (record cfg { tmp_dir = v })
    else if str_eq key (codes "lock_file")
    then some (record cfg { lock_file = v })
    else if str_eq key (codes "usign_keydir")
    then some (record cfg { usign_keydir = v })
    else if str_eq key (codes "auto_file")
    then some (record cfg { auto_file = v })
    else if str_eq key (codes "pin_file")
    then some (record cfg { pin_file = v })
    else if str_eq key (codes "ssl_client_cert")
    then some (record cfg { ssl_client_cert = some v })
    else if str_eq key (codes "ssl_client_key")
    then some (record cfg { ssl_client_key = some v })
    else none

-- The rest of `set_option`: the truth values, and keys that are not known.
unfoldable pub set_flag : Config → Bytes → Bytes → Config
set_flag cfg key v =
    if str_eq key (codes "check_signature")
    then record cfg { check_signature = parse_bool v true }
    else if str_eq key (codes "ignore_uid")
    then record cfg { ignore_uid = parse_bool v false }
    else if str_eq key (codes "allow_downgrade")
    then record cfg { allow_downgrade = parse_bool v false }
    else cfg

unfoldable pub set_option : Config → Bytes → Bytes → Config
set_option cfg key v = elim (set_path cfg key v) [ some cfg' ↦ cfg' | none ↦ set_flag cfg key v ]

abbrev prefixed : Bytes → Bytes → Bytes
prefixed root path = root ++ path

unfoldable pub apply_offline_root : Config → Config
apply_offline_root cfg = elim cfg.offline_root [
  | none ↦ cfg
  | some root ↦ record cfg {
    lists_dir = prefixed root cfg.lists_dir;
    cache_dir = prefixed root cfg.cache_dir;
    info_dir = prefixed root cfg.info_dir;
    lock_file = prefixed root cfg.lock_file;
    auto_file = prefixed root cfg.auto_file;
    pin_file = prefixed root cfg.pin_file;
  }
]

unfoldable pub root_path : Config → Bytes → Bytes
root_path cfg path = elim cfg.offline_root [ none ↦ path | some root ↦ root ++ path ]

-- What `lstat` and `stat` say of a path: parameters of the validation.
pub record Stat : Type 0 where
  pub exists : Bytes → Bool
  pub is_dir : Bytes → Bool

abbrev pub usign_bin : Bytes
usign_bin = codes "/usr/bin/usign"

-- A path that is there is a directory.
unfoldable pub validate_dir : Stat → Bytes → Bool
validate_dir st path = not (st.exists path && not (st.is_dir path))

abbrev of_test : Bool → Code
of_test b = if b then success else failure

unfoldable pub validate_dirs : Stat → Config → Code
unfolding validate_dir
validate_dirs st cfg = of_test (
    validate_dir st cfg.info_dir
    && (validate_dir st cfg.lists_dir
        && (validate_dir st cfg.cache_dir
            && (validate_dir st cfg.tmp_dir
                && (validate_dir st cfg.usign_keydir
                    && not (st.exists usign_bin && st.is_dir usign_bin))))))

unfoldable pub config_validate : Stat → Config → Code
config_validate st cfg = elim cfg.offline_root [
  | none ↦ validate_dirs st cfg
  | some root ↦
      if not (st.exists root)
      then failure
      else if not (st.is_dir root)
      then failure
      else validate_dirs st cfg
]
