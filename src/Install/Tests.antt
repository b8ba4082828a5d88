-- ===== src/Install/Tests.antt =====
-- Tests of src/install.c, and instances of its theorems.
use aept.Base.{ℕ, ◌≡◌, refl, inl, inr, true, false, none, some, [], ◌∷◌, if◌then◌else◌}
use aept.Text.Strings.{Bytes, codes, str_eq, str_ne}
use aept.Util.{pkg_name_is_safe}
use aept.Files.{FilePath, Files, success, failure, Faults, no_faults, write, unlink}
use aept.Fileset.{Fileset, fileset_init}
use aept.Config.{Config, config_defaults}
use aept.Conffile.{complete}
use aept.Conffile.Upgrade as Prompt
use aept.Util.{normalize_path, strip_slashes, strip_dot_slashes}
use aept.Text.Search.{bsearch}
use aept.Text.Order.{strcmp}
use aept.Text.Strings.{strip_prefix}
use aept.Fileset.{fileset_contains, fileset_sort}
use aept.Archive.Reader.{
  open_pkg_data_archive, open_ipk_tar, seek_member, next_header, skip_dot_slash,
}
use aept.Archive.Listing.{list_data_paths}
use aept.Owner.{OwnerIndex, owner_index_init}
use aept.Archive.Reader.{Member, Reader, good, Libarchive}
use aept.Process.{Host, exited, Moving, status, minus_one}
use aept.Solver.{Step, install}
use aept.Clash.{Solvable, Disk, clash_check}
use aept.Remove.{System}
use aept.Remove.Package.{World}
use aept.Install.{Outside, Site}
use aept.Install.Steps.{unpack_control}
use aept.Install.Package.{do_install_package}
use aept.Install.Upgrade.{remove_all_old}
use aept.Install.Operation.{Operation, Progress}
use aept.Install.Display.{Pool}
use aept.Install.Transaction.{Session, download_and_carry_through}
use aept.Install.Carried.{WasCarriedOut, download_and_carry_through-WasCarriedOut}
use aept.Install.Checked.{WasChecked, do_install_package-WasChecked}
use aept.Install.Leftovers.{remove_all_old-keeps}

abbrev member : Bytes → Bytes → Member
member path body = record {
  entry = record { pathname = path; hardlink = none };
  symlink = none;
  mode = 33261;
  body = body;
}

-- A package with a control file, a `preinst` and one program.
abbrev lib : Libarchive
lib = record {
  read_container = λ path fs. some (
      good (member (codes "control.tar") (codes "c"))
      ∷ good (member (codes "data.tar") (codes "d"))
      ∷ []);
  read_tar = λ s.
      if str_eq s (codes "c")
      then some (
          good (member (codes "./control") (codes "Package: app"))
          ∷ good (member (codes "./preinst") (codes "#!"))
          ∷ [])
      else some (good (member (codes "./app") (codes "#!")) ∷ []);
  disk_writer = λ flags. true;
  extract2 = λ flags m fs. (true, write m.entry.pathname m.body fs);
}

abbrev host : ℕ → Host
host n = record { launch = λ argv fs. (some (exited n), fs) }

abbrev sys : System
sys = record { digest = λ s. s; unlink_fails = λ p. false }

abbrev prompt : Prompt.Outside
prompt = record {
  digest = λ s. s;
  system = λ argv fs. fs;
  shell = none;
  isatty = false;
  rename_fails = λ p. false;
  writing = complete;
}

abbrev nowhere : Disk
nowhere = record { lstat = λ p. none; readlink = λ p. none; leads_to_dir = λ p. false }

abbrev moving : Moving
moving = record {
  rename_fails = false;
  copying = record { open_fails = false; write_fails = false };
}

abbrev tmpdir : FilePath
tmpdir = codes "/tmp/x"

abbrev out : ℕ → Outside
out n = record {
  lib = lib;
  disk = λ fs. nowhere;
  host = host n;
  system = sys;
  prompt = λ name. prompt;
  keys = λ name. [];
  mkdtemp = λ name. some tmpdir;
  rm_rf = λ dir fs. fs;
  list_writing = λ name. complete;
  conffile_writing = λ name. complete;
  control_faults = λ name. no_faults;
  moving = λ path. moving;
}

abbrev app : Solvable
app = record { name = codes "app"; obsoletes = [] }

abbrev pool : Pool
pool = record {
  installed = [];
  providers = λ name. [];
  is_installed = λ p. false;
  solvable = λ p. app;
  evr = λ p. codes "1";
  commandline = λ p. some (codes "app.aep");
  find_available = λ name. none;
  obs_pkg = λ p. none;
}

abbrev op : ℕ → Operation
op n = record {
  out = out n;
  removal = record {
    system = sys;
    host = host n;
    unmark_faults = λ name. no_faults;
    pin_faults = λ name. no_faults;
  };
  pool = pool;
  download = λ p fs. (none, fs);
  mark_faults = λ name. no_faults;
  written = λ name. 0;
  names = codes "app" ∷ [];
  local_ids = [];
  requested = true;
}

abbrev session : Session
session = record {
  confirmed = true;
  stop_download = λ i. false;
  cancelled = λ i. false;
  triggers = record { fnmatch = λ p d. false; is_dir = λ p. false; exists = λ p. false };
  listing = λ fs. some [];
}

abbrev step : Step
step = record { id = 3; kind = install; name = codes "app" }

-- Below an offline root, since nothing can be extracted to `/`.
abbrev cfg : Config
cfg = record config_defaults { offline_root = some (codes "/r") }

abbrev fs : Files
fs q = none

-- The package comes from a repository.
abbrev remote : Operation
remote = record (op 0) {
  pool = record pool { commandline = λ p. none };
  download = λ p fs. (some (codes "app.aep"), fs);
}

completed : (download_and_carry_through remote session cfg (step ∷ []) fs).code ≡ success
unfolding download_and_carry_through aept.Install.Transaction.download_all
    aept.Install.Transaction.carry_through aept.Install.Transaction.beginning
    aept.Install.Transaction.execute aept.Install.Transaction.take_step
    aept.Install.Operation.install_from aept.Install.Operation.install_step
    aept.Install.Operation.place aept.Install.Operation.fresh_step aept.Install.Operation.note_fresh
    aept.Install.Operation.add_list aept.Install.Operation.mark_fresh
    aept.Install.Operation.is_explicit aept.Install.Transaction.finish aept.Owner.owner_index_build
    aept.Trigger.Ctx.collect_dirs aept.Trigger.Run.run_all do_install_package pkg_name_is_safe
    aept.Install.Package.install_in unpack_control aept.Archive.Reader.open_pkg_control_archive
    aept.Archive.Reader.open_ipk_tar aept.Archive.Reader.seek_member aept.Archive.Reader.next_header
    aept.Text.Strings.strip_prefix aept.Archive.Reader.skip_dot_slash str_eq
    aept.Archive.Extract.do_extract_all aept.Archive.Extract.extract_loop
    aept.Archive.Extract.extract_member aept.Util.archive_path_is_safe
    aept.Archive.rewrite_all_paths aept.Archive.rewrite_pathname aept.Archive.safe_join
    aept.Util.normalize_path aept.Util.strip_slashes aept.Util.strip_dot_slashes
    aept.Archive.join_below aept.Archive.normalize_path aept.Archive.trim_slashes
    aept.Archive.join_onto aept.Archive.add_parts aept.Archive.tokens aept.Archive.split_slash
    aept.Archive.add_part aept.Archive.Extract.write_member aept.Script.run_script write
    aept.Script.script_path aept.Process.system_offline_root aept.Install.Package.install_data
    clash_check aept.Archive.Listing.list_data_paths aept.Archive.Reader.open_pkg_data_archive
    aept.Archive.Listing.list_loop aept.Clash.count_clashes aept.Clash.clashes_with
    aept.Clash.is_in_the_way aept.Install.Steps.unpack_data aept.Config.root_path
    aept.Install.Steps.configure aept.Install.Package.record_package
    aept.Install.Steps.move_triggers aept.Install.Steps.move_file aept.Install.Steps.move_scripts
    aept.Install.Steps.move_each aept.Archive.Extract.is_conffile aept.Archive.Extract.kept_link
    aept.Archive.Listing.file_list_write aept.Archive.Listing.list_line
    aept.Archive.Listing.octal_digits aept.Archive.Listing.print_mode
    aept.Archive.fileset_contains_entry aept.Clash.is_foreign aept.Clash.same_dir_symlink
    aept.Clash.solvable_replaces aept.Conffile.conffile_save aept.Conffile.parse_lines
    aept.Conffile.parse_list aept.Conffile.saved_text aept.Conffile.set_add aept.Files.commit
    aept.Files.rename unlink aept.Fileset.fileset_contains aept.Fileset.fileset_sort
    aept.Install.Steps.save_conffiles aept.Install.Steps.with_digests aept.Install.Steps.write_list
    aept.Owner.add_owner_files aept.Owner.append_entries aept.Owner.append_entry
    aept.Owner.find_owner aept.Owner.intern_owner aept.Owner.is_dead aept.Owner.list_path_of
    aept.Owner.live_hit aept.Owner.owner_index_find aept.Owner.read_list_into aept.Process.file_copy
    aept.Remove.is_protected aept.Script.script_argv aept.Script.strip_offline_root
    aept.Status.control_text aept.Status.status_add aept.Status.trim_end aept.Text.Lines.fgets
    aept.Text.Lines.fgets_drain_line aept.Text.Lines.fgets_is_truncated aept.Text.Lines.lines_from
    aept.Text.Lines.read_lines aept.Text.Order.strcmp aept.Text.Search.bsearch
    aept.Text.Search.bsearch_in aept.Text.Search.insert_by aept.Text.Search.qsort
    aept.Text.Strings.before aept.Util.name_chars_safe aept.Util.path_chars_safe
    aept.Util.symlink_target_is_recordable
completed = refl

download_and_carry_through-WasCarriedOut_example :
    WasCarriedOut remote session cfg
      (step ∷ [])
      fs
      (download_and_carry_through remote session cfg (step ∷ []) fs)
download_and_carry_through-WasCarriedOut_example =
    download_and_carry_through-WasCarriedOut remote session cfg (step ∷ []) fs refl completed

abbrev empty_world : World
empty_world = record { files = fs; owners = none }

installed : (do_install_package (out 0) cfg (codes "app.aep") app none empty_world).0 ≡ status 0
unfolding do_install_package pkg_name_is_safe aept.Install.Package.install_in unpack_control
    aept.Archive.Reader.open_pkg_control_archive aept.Archive.Reader.open_ipk_tar
    aept.Archive.Reader.seek_member aept.Archive.Reader.next_header aept.Text.Strings.strip_prefix
    aept.Archive.Reader.skip_dot_slash str_eq aept.Archive.Extract.do_extract_all
    aept.Archive.Extract.extract_loop aept.Archive.Extract.extract_member
    aept.Util.archive_path_is_safe aept.Archive.rewrite_all_paths aept.Archive.rewrite_pathname
    aept.Archive.safe_join aept.Util.normalize_path aept.Util.strip_slashes
    aept.Util.strip_dot_slashes aept.Archive.join_below aept.Archive.normalize_path
    aept.Archive.trim_slashes aept.Archive.join_onto aept.Archive.add_parts aept.Archive.tokens
    aept.Archive.split_slash aept.Archive.add_part aept.Archive.Extract.write_member
    aept.Script.run_script write aept.Script.script_path aept.Process.system_offline_root
    aept.Install.Package.install_data clash_check aept.Archive.Listing.list_data_paths
    aept.Archive.Reader.open_pkg_data_archive aept.Archive.Listing.list_loop
    aept.Clash.count_clashes aept.Clash.clashes_with aept.Clash.is_in_the_way
    aept.Install.Steps.unpack_data aept.Config.root_path aept.Install.Steps.configure
    aept.Install.Package.record_package aept.Install.Steps.move_triggers
    aept.Install.Steps.move_file aept.Install.Steps.move_scripts aept.Install.Steps.move_each
    aept.Archive.Extract.is_conffile aept.Archive.Extract.kept_link
    aept.Archive.Listing.file_list_write aept.Archive.Listing.list_line
    aept.Archive.Listing.octal_digits aept.Archive.Listing.print_mode
    aept.Archive.fileset_contains_entry aept.Clash.is_foreign aept.Clash.same_dir_symlink
    aept.Clash.solvable_replaces aept.Conffile.conffile_save aept.Conffile.parse_lines
    aept.Conffile.parse_list aept.Conffile.saved_text aept.Conffile.set_add aept.Files.commit
    aept.Files.rename unlink aept.Fileset.fileset_contains aept.Fileset.fileset_sort
    aept.Install.Steps.save_conffiles aept.Install.Steps.with_digests aept.Install.Steps.write_list
    aept.Owner.add_owner_files aept.Owner.append_entries aept.Owner.append_entry
    aept.Owner.find_owner aept.Owner.intern_owner aept.Owner.is_dead aept.Owner.list_path_of
    aept.Owner.live_hit aept.Owner.owner_index_find aept.Owner.read_list_into aept.Process.file_copy
    aept.Remove.is_protected aept.Script.script_argv aept.Script.strip_offline_root
    aept.Status.control_text aept.Status.status_add aept.Status.trim_end aept.Text.Lines.fgets
    aept.Text.Lines.fgets_drain_line aept.Text.Lines.fgets_is_truncated aept.Text.Lines.lines_from
    aept.Text.Lines.read_lines aept.Text.Order.strcmp aept.Text.Search.bsearch
    aept.Text.Search.bsearch_in aept.Text.Search.insert_by aept.Text.Search.qsort
    aept.Text.Strings.before aept.Util.name_chars_safe aept.Util.path_chars_safe
    aept.Util.symlink_target_is_recordable
installed = refl

do_install_package-WasChecked_example :
    WasChecked
      (out 0)
      cfg
      (codes "app.aep")
      app
      none
      empty_world
      (do_install_package (out 0) cfg (codes "app.aep") app none empty_world)
do_install_package-WasChecked_example =
    do_install_package-WasChecked (out 0) cfg (codes "app.aep") app none empty_world installed

abbrev old_files : Files
old_files q = some (codes "x")

abbrev new_set : Fileset
new_set = record { paths = codes "bin/app" ∷ []; sorted = false }

kept_new : (fileset_contains new_set (codes "bin/app")).0 ≡ true
unfolding fileset_contains fileset_sort bsearch normalize_path strip_slashes strip_dot_slashes
    strcmp
kept_new = refl

remove_all_old-keeps_example :
    (remove_all_old sys config_defaults []
        (codes "bin/app" ∷ codes "bin/old" ∷ [])
        (record { new_files = new_set; installed = none; files = old_files })).files
      (codes "/bin/app")
    ≡ some (codes "x")
unfolding normalize_path strip_slashes strip_dot_slashes str_eq
remove_all_old-keeps_example =
    remove_all_old-keeps sys config_defaults [] new_set none old_files (codes "/bin/app")
      (codes "bin/app" ∷ codes "bin/old" ∷ []) (λ h. cc) tt
      (inr (inl kept_new), (inl (str_ne (codes "/bin/old") (codes "/bin/app") refl), tt))
