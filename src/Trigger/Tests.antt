-- ===== src/Trigger/Tests.antt =====
-- Tests of src/trigger.c, and instances of its theorems.
use aept.Base.{
  ◌≡◌, refl, true, false, not, ◌&&◌, none, some, List, [], ◌∷◌, if◌then◌else◌, any, length, ◌==◌,
  map,
}
use aept.Text.Strings.{Bytes, codes, str_eq, before, behind}
use aept.Text.Lines.{read_lines, fgets}
use aept.Text.Scan.{skip_space, is_space}
use aept.Text.Search.{qsort}
use aept.Text.Order.{strcmp}
use aept.Files.{Files}
use aept.Util.{normalize_path, strip_slashes, strip_dot_slashes}
use aept.Config.{config_defaults}
use aept.Trigger.Ctx.{
  TriggerCtx, ctx_init, add_dir, parent_dir, octal, strtoul, collect_line, collect_lines,
  collect_dirs, dedup_after, sort_and_dedup,
}
use aept.Trigger.Entries.{trigger_line, pieces, trigger_lines, package_of, load_entries}
use aept.Trigger.Run.{
  Outside, is_fresh, has_glob_chars, strip_offline_root, match_dirs, is_concrete, match_entry,
  match_entries, groups, groups_of, run_trigger_script, run_groups, run_all,
}
use aept.Trigger.Dirs.{IsDistinct}
use aept.Trigger.Groups.{runs_for, calls_for, packages}
use aept.Trigger.Scripts.{script_of, command, called, run_all_lem}

abbrev fs : Files
fs q =
    if str_eq q (codes "/var/lib/aept/info/app.list")
    then some
        (codes "./usr/lib/a\t0100644\n./usr/lib/b\t0100644\n./usr/lib\t040755\n./opt\t040755\n")
    else if str_eq q (codes "/var/lib/aept/info/ld.triggers")
    then some (codes "# libraries\n/usr/lib\n +/opt\n")
    else none

abbrev collected : TriggerCtx
collected = record {
  dirs = codes "usr/lib" ∷ codes "opt" ∷ [];
  fresh_pkgs = [];
  dirs_sorted = false;
}

collects : collect_dirs config_defaults ctx_init (codes "app") fs ≡ collected
unfolding collect_dirs collect_lines collect_line add_dir parent_dir octal strtoul read_lines
    normalize_path strip_slashes strip_dot_slashes str_eq before behind skip_space is_space
collects = refl

abbrev out : Outside
out = record { fnmatch = str_eq; is_dir = λ p. false; exists = λ p. true }

abbrev names : List Bytes
names = codes "app.list" ∷ codes "ld.triggers" ∷ codes ".triggers" ∷ []

runs :
    run_all out config_defaults collected names fs
    ≡ (codes "/bin/sh"
        ∷ codes "/var/lib/aept/info/ld.trigger"
        ∷ codes "/usr/lib"
        ∷ codes "/opt"
        ∷ [])
      ∷ []
unfolding run_all groups_of load_entries trigger_line pieces trigger_lines package_of is_fresh
    has_glob_chars strip_offline_root match_dirs is_concrete match_entry match_entries groups
    run_trigger_script run_groups sort_and_dedup dedup_after qsort strcmp str_eq before fgets
runs = refl

run_all_lem_example :
    (run_all out config_defaults collected names fs
      ≡ map (command config_defaults) (called out config_defaults collected names fs))
    × ((pkg x : Bytes)
        → any (runs_for pkg x) (called out config_defaults collected names fs) ≡ (
            out.exists (script_of config_defaults pkg)
            && (not (length collected.dirs == 0)
                && any
                    (calls_for out config_defaults collected pkg x)
                    (load_entries config_defaults fs names))))
    × IsDistinct (packages (called out config_defaults collected names fs))
run_all_lem_example = run_all_lem out config_defaults collected names fs
