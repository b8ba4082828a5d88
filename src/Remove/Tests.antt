-- ===== src/Remove/Tests.antt =====
-- Tests of src/remove.c, and instances of its theorems.
use aept.Base.{
  ◌≡◌, refl, inl, inr, false, none, some, List, [], ◌∷◌, if◌then◌else◌, true, All, map, arith,
}
use aept.Text.Strings.{Bytes, codes, str_eq, str_ne, before, behind}
use aept.Text.Lines.{read_lines}
use aept.Text.Scan.{skip_space, is_space}
use aept.Files.{FilePath, Files, unlink, success, failure, no_faults, tmp_of}
use aept.Util.{
  normalize_path, strip_slashes, strip_dot_slashes, archive_path_is_safe, pkg_name_is_safe,
  symlink_target_is_recordable,
}
use aept.Config.{config_defaults}
use aept.Conffile.{conffile_load, load_saved, saved_line, set_add, set_lookup}
use aept.Trigger.Ctx.{strtoul, octal}
use aept.Process.{Host, exited, system_offline_root}
use aept.Script.{run_script, script_path, script_argv, strip_offline_root}
use aept.Solver.{Step, erase, erase_names}
use aept.Archive.Extract.{FileEntry}
use aept.Archive.Listing.{octal_digits, print_mode, list_line, file_list_write}
use aept.Trigger.Ctx.{list_buffer, collect_dirs}
use aept.Remove.Listed.{seen, meant, file_list_write-seen}
use aept.Remove.Package.{info_exts, info_path, Outside, World, do_remove}
use aept.Remove.Operation.{Session, remove_package, remove_steps, finish, op_remove}
use aept.Remove.Gone.{IsClear, IsGone, OwnsNothing, do_remove-IsGone}
use aept.Remove.Attempts.{Removed, op_remove-Removed}
use aept.Remove.{
  System, insert_deep, sort_deep, is_protected, is_modified, remove_file, remove_line, remove_lines,
  kept_conffiles, remove_files,
}
use aept.Remove.Kept.{remove_files-spares}

abbrev sys : System
sys = record { digest = λ s. s; unlink_fails = λ p. false }

abbrev motd : FilePath
motd = codes "/etc/motd"

abbrev fs : Files
fs q =
    if str_eq q (codes "/var/lib/aept/info/app.list")
    then some
        (codes "./etc\t040755\n./etc/app.d\t040755\n./etc/motd\t0100644\n./bin/app\t0100755\n")
    else if str_eq q (codes "/var/lib/aept/info/app.conffiles")
    then some (codes "v1  /etc/motd\n")
    else if str_eq q motd
    then some (codes "mine")
    else some []

removes :
    ((remove_files sys config_defaults (codes "app") none fs).0 (codes "/bin/app") ≡ none)
    × ((remove_files sys config_defaults (codes "app") none fs).1
        ≡ codes "/etc/app.d" ∷ codes "/etc" ∷ [])
unfolding remove_files remove_lines remove_line remove_file is_modified is_protected kept_conffiles
    conffile_load load_saved saved_line set_add set_lookup sort_deep insert_deep read_lines before
    behind str_eq normalize_path strip_slashes strip_dot_slashes archive_path_is_safe strtoul octal
    skip_space is_space unlink
removes = (refl, refl)

remove_files-spares_example :
    (remove_files sys config_defaults (codes "app") none fs).0 motd ≡ some (codes "mine")
unfolding is_modified kept_conffiles conffile_load load_saved saved_line set_add set_lookup
    read_lines before behind str_eq normalize_path strip_slashes strip_dot_slashes
remove_files-spares_example =
    remove_files-spares sys config_defaults (codes "app") none fs motd tt (
      inl (str_ne (codes "/etc") motd refl),
      (
        inl (str_ne (codes "/etc/app.d") motd refl),
        (inr (inr refl), (inl (str_ne (codes "/bin/app") motd refl), tt)),
      ),
    )

abbrev two_dirs : List Bytes
two_dirs = codes "/etc" ∷ codes "/etc/app.d" ∷ []

abbrev good_host : Host
good_host = record { launch = λ argv files. (some (exited 0), files) }

abbrev bad_host : Host
bad_host = record { launch = λ argv files. (some (exited 1), files) }

abbrev outside : Host → Outside
outside host = record {
  system = sys;
  host = host;
  unmark_faults = λ name. no_faults;
  pin_faults = λ name. no_faults;
}

abbrev app : Bytes
app = codes "app"

abbrev world : World
world = record { files = fs; owners = none }

removed_well : (do_remove (outside good_host) config_defaults app none none world).0 ≡ success
unfolding do_remove pkg_name_is_safe run_script script_path strip_offline_root script_argv
    system_offline_root str_eq
removed_well = refl

removed_badly : (do_remove (outside bad_host) config_defaults app none none world).0 ≡ failure
unfolding do_remove pkg_name_is_safe run_script script_path strip_offline_root script_argv
    system_offline_root str_eq
removed_badly = refl

record-IsClear : (ext : Bytes) → IsClear config_defaults app ext
unfolding str_eq
record-IsClear ext =
    let path = info_path config_defaults app ext in
    (
      (
        str_ne path config_defaults.auto_file refl,
        str_ne path (tmp_of config_defaults.auto_file) refl,
      ),
      (
        str_ne path config_defaults.pin_file refl,
        str_ne path (tmp_of config_defaults.pin_file) refl,
      ),
    )

all-IsClear : (exts : List Bytes) → All (IsClear config_defaults app) exts
all-IsClear [] = tt
all-IsClear (x ∷ xs) = (record-IsClear x, all-IsClear xs)

none_fails :
    (exts : List Bytes)
    → All (λ ext. sys.unlink_fails (info_path config_defaults app ext) ≡ false) exts
none_fails [] = tt
none_fails (x ∷ xs) = (refl, none_fails xs)

do_remove-IsGone_example :
    All
      (IsGone config_defaults app
        (do_remove (outside good_host) config_defaults app none none world).1.files)
      info_exts
    × OwnsNothing app (do_remove (outside good_host) config_defaults app none none world).1.owners
do_remove-IsGone_example =
    do_remove-IsGone (outside good_host) config_defaults app none none world (none_fails info_exts)
      (all-IsClear info_exts) tt removed_well

abbrev steps : List Step
steps = record { id = 7; kind = erase; name = app } ∷ []

abbrev session : Session
session = record {
  confirmed = true;
  cancelled = λ i. false;
  triggers = record { fnmatch = λ p d. false; is_dir = λ p. false; exists = λ p. false };
  listing = λ files. [];
}

op_remove-Removed_example :
    Removed
      (outside good_host)
      config_defaults
      (erase_names steps)
      world
      (op_remove (outside good_host) session config_defaults (some steps) 1 world).world
unfolding op_remove erase_names remove_steps remove_package finish collect_dirs do_remove
    pkg_name_is_safe run_script script_path strip_offline_root script_argv system_offline_root
    str_eq
op_remove-Removed_example =
    op_remove-Removed (outside good_host) session config_defaults steps 1 world refl refl refl

abbrev recorded : List FileEntry
recorded =
    record { path = codes "./bin/app"; link_target = none; mode = 33261 }
    ∷ record { path = codes "./bin/a"; link_target = some (codes "app"); mode = 41471 }
    ∷ []

written : file_list_write recorded ≡ codes "./bin/app\t0100755\n./bin/a\t0120777\tapp\n"
unfolding file_list_write list_line print_mode octal_digits
written = refl

file_list_write-seen_example :
    map seen (read_lines list_buffer (file_list_write recorded)) ≡ map meant recorded
unfolding archive_path_is_safe symlink_target_is_recordable list_line print_mode octal_digits
file_list_write-seen_example = file_list_write-seen recorded (
  record {
    safe = refl;
    path_text = refl;
    target = λ t e. cc;
    target_text = λ t e. cc;
    mode_fits = omega arith;
    line_fits = omega arith;
  },
  (
    record {
      safe = refl;
      path_text = refl;
      target = λ t e. let k : codes "app" ≡ t = cc in rw (← k) refl;
      target_text = λ t e. let k : codes "app" ≡ t = cc in rw (← k) refl;
      mode_fits = omega arith;
      line_fits = omega arith;
    },
    tt,
  ),
)
