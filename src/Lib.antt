-- ===== src/Lib.antt =====
-- A model of aept, a package manager in C: the state that it keeps in files and in memory between and
-- within its operations, and the decisions that it takes from that state.
--
-- The parts, and the files of this library that model them:
--
--   Text       the C strings (lists of bytes with no NUL), <string.h>, isspace and sscanf as the sources
--              call them, qsort and bsearch, and Text/Lines, the loop that reads a file line by line with
--              fgets, aept_fgets_is_truncated and aept_fgets_drain_line (src/util.c)
--   Util       aept_pkg_name_is_safe, aept_symlink_target_is_recordable, aept_archive_path_is_safe and
--              normalize_path of src/util.c
--   Files      the contents of files by path, the calls that can fail, and the writing of a new version
--              of a file beside it, as pin.c and status.c do it
--   Process    aept_system, aept_system_offline_root, aept_file_copy and aept_file_mkdir_hier of
--              src/util.c
--   Script     src/script.c: the path and the arguments of a package's script
--   Fileset    aept_fileset_t of src/util.c: an array of paths that is sorted when it is first searched
--   Pin        src/pin.c, with the table of pins of src/solver.c
--   Auto       the file of automatically installed packages of src/status.c
--   Status     aept_status_load and aept_status_add of src/status.c
--   Owner      src/owner_index.c: which package owns a path
--   Config     src/config.c: Config (the record and its options), Config/Load (aept_config_load); the
--              offline root and the validation
--   Archive    src/archive.c: where entries go (normalize_path, safe_join), Archive/Reader (libarchive's
--              reader and the two archives in a package), Archive/Extract (do_extract_all and
--              aept_ar_extract_selected), Archive/Listing (the data's paths and the `.list` file)
--   Conffile   src/conffile.c: Conffile (the list in a package, the record of the digests) and
--              Conffile/Upgrade (the prompt and aept_conffile_resolve_upgrade)
--   Clash      src/clash.c: the files of a package that another one owns
--   Solver     src/solver.c: the kinds of the steps of a transaction, as libsolv classifies them;
--              Solver/Repos (the arrays of repositories and local packages, with load_repos of
--              src/install.c), Solver/Jobs (what the solver is asked for, and the newest version)
--   Download   src/download.c: aept_download, verify_checksum and aept_download_package
--   Update     src/update.c, src/verify.c and src/clean.c: the lists, their signatures, the cache
--   Autoremove the choice of src/autoremove.c: mark_needed and the two loops of aept_op_autoremove
--   Trigger    src/trigger.c: Trigger/Ctx (the directories that are collected), Trigger/Entries (the
--              patterns) and Trigger/Run (aept_trigger_run_all)
--   Remove     src/remove.c: aept_remove_files; Remove/Package (aept_do_remove); Remove/Operation
--              (aept_op_remove, and aept_op_autoremove of src/autoremove.c)
--   Install    src/install.c: Install/Steps (what both ways to place a package share), Install/Package
--              (do_install_package), Install/Upgrade (do_upgrade_package), Install/Display
--              (display_transaction), Install/Operation (a step of a transaction), Install/Reinstall
--              (do_reinstall), Install/Request (what is marked as installed by hand) and
--              Install/Transaction (aept_op_install)
--   Api        src/api.c: the configuration of a session, pins by lists of packages, and the queries for
--              the files of a package and the packages of a file
--
-- How they interact: all state files are read through Text/Lines. The set that Auto loads is a Fileset,
-- which Autoremove asks for each installed package; Archive and Owner look paths up in a Fileset or in an
-- array of their own after the normal forms of Util and Archive; Conffile and Trigger take their
-- directories from Config. The names and paths that come from outside pass the checks of Util. A removal
-- runs the package's scripts (Script, Process), takes its files away by the list that Archive/Listing
-- wrote, and clears the mark, the pin and the entries of Owner. An installation asks Clash, which asks
-- Owner; extracts (Archive); records the list, the digests (Conffile) and the status (Status). An upgrade
-- removes the old files that the new version has not, spared by the set of what the transaction installed.
-- Both operations hand the directories they touched to Trigger. Update puts the lists where load_repos
-- reads them, and Download gets the packages that Install extracts.
--
-- How code becomes definitions: a function of the source is a function of the same name without the prefix
-- `aept_`, and the body of a loop has a name of its own. State is passed on explicitly: a file system is a
-- function from paths to contents, a result `int` is `Code`, or `Exit` where an exit status passes through
-- it, an array is a list, a null pointer is `none`. `goto` and `return` out of a loop are a value of
-- `Course`: `left` with the state at the jump, or `going`. Where a call of the operating system can fail,
-- the failures are an argument (`Faults`, `Writing`, `Copying`, `Outside`). libsolv's pool, its digest and
-- its transaction, libarchive's reader and writer, fnmatch, stat, the programs that are run, the answers
-- of aept_cancelled and aept_confirm_continue and the keys that are typed are arguments too; so are the
-- downloads within a transaction, the loading of local packages, and the resolution.
--
-- Bounds and fuel: buffers have the sizes of the source (4096, 512, 1024 bytes). The reading loop takes
-- the length of the file as fuel, since each round takes a byte; the halving search and the loop of
-- aept_owner_index_drop_owner take the length of the array; mark_needed takes the number of installed
-- packages, since each level of the recursion marks one; the loop over the trigger entries takes their
-- number; the loops over an archive take one more than the number of its headers, since each round takes
-- one, and a header is asked for four times at most, as the source does. A transfer and the answers of
-- waitpid are finite lists, behind which nothing comes; at most 64 repositories and 256 local packages are
-- taken. `unsigned long` has 64 bits and `unsigned int` 32.
--
-- Left out: log messages, the capacities of arrays and the freeing of memory; a write that fails part-way
-- leaves the temporary file, which is then removed. The locking of the configuration, the running of the
-- solver and reorder_transaction (src/solver.c), the command line, the messages, the rest of src/api.c and
-- the bindings are not modelled; src/libfetch is a copy of another library. A failing unlink,
-- whose result src/update.c and src/download.c ignore, and an archive entry without a pathname (NULL in
-- do_extract_all) have no counterpart.
--
-- What is assumed of libarchive: where it is told to refuse symbolic links (SECURE_SYMLINKS, which both
-- archives of a package are opened with), an entry changes no file but those that its pathname and, for a
-- hard link, the link's target reach: by the same name, or by the links on the disk, which the theorems
-- take as a relation between a file and a name (Archive/Writes).
pub mod Base
pub mod Text
pub mod Util
pub mod Files
pub mod Pin
pub mod Fileset
pub mod Auto
pub mod Owner
pub mod Config
pub mod Archive
pub mod Conffile
pub mod Autoremove
pub mod Trigger
pub mod Process
pub mod Script
pub mod Solver
pub mod Remove
pub mod Clash
pub mod Status
pub mod Install
pub mod Download
pub mod Update
pub mod Api
