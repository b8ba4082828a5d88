-- ===== src/Install/Upgrade.antt =====
-- `do_upgrade_package` of src/install.c.
use aept.Base.{
  Bool, true, false, not, Option, none, some, List, [], ◌∷◌, ltb, ◌==◌, if◌then◌else◌, length,
}
use aept.Text.Strings.{Bytes, codes, before, is_empty}
use aept.Text.Lines.{read_lines}
use aept.Files.{FilePath, Files, success, failure}
use aept.Util
use aept.Util.{pkg_name_is_safe, archive_path_is_safe}
use aept.Fileset.{Fileset, fileset_init, fileset_add, fileset_sort, fileset_contains}
use aept.Config.{Config}
use aept.Conffile.{Conffiles, parse_list, conffile_load}
use aept.Conffile.Upgrade.{resolve_upgrade}
use aept.Trigger.Ctx.{list_buffer}
use aept.Archive.Extract.{FileEntry}
use aept.Process.{Exit, minus_one, is_nonzero}
use aept.Script.{run_script}
use aept.Clash.{Solvable, clash_check}
use aept.Remove.{System, is_protected, remove_file, full_path_of, list_path}
use aept.Remove.Package.{World, remove_exts, drop_from}
use aept.Install.{Outside, Site}
use aept.Install.Steps.{
  unpack_control, unpack_data, entries_of, write_list, move_scripts, move_triggers, configure,
}

-- The extensions in `remove_info_files` of src/install.c: the record of configuration files stays.
abbrev pub upgrade_exts : List Bytes
upgrade_exts =
    codes "list"
    ∷ codes "control"
    ∷ codes "preinst"
    ∷ codes "postinst"
    ∷ codes "prerm"
    ∷ codes "postrm"
    ∷ codes "trigger"
    ∷ codes "triggers"
    ∷ []

unfoldable pub remove_info_files : System → Config → Bytes → Files → Files
remove_info_files sys cfg name fs = remove_exts sys cfg name upgrade_exts fs

-- The loop over the old list.
unfoldable pub add_listed : List Bytes → Fileset → Fileset
add_listed [] set = set
add_listed (l ∷ ls) set = add_listed ls (fileset_add set (before b'\t' (before b'\n' l)))

-- The old list as a set, and `have_old_files`.
unfoldable pub read_old_files : Config → Bytes → Files → Fileset × Bool
read_old_files cfg name fs = elim (fs (list_path cfg name)) [
  | none ↦ (fileset_init, false)
  | some text ↦ (add_listed (read_lines list_buffer text) fileset_init, true)
]

unfoldable pub conffile_paths : Conffiles → Fileset → Fileset
conffile_paths [] set = set
conffile_paths (c ∷ cs) set = conffile_paths cs (fileset_add set c.path)

unfoldable pub entry_paths : List FileEntry → Fileset → Fileset
entry_paths [] set = set
entry_paths (e ∷ es) set = entry_paths es (fileset_add set e.path)

unfoldable pub add_paths : List Bytes → Fileset → Fileset
add_paths [] set = set
add_paths (p ∷ ps) set = add_paths ps (fileset_add set p)

-- What the loop that removes the old files keeps.
pub record Leftover : Type 0 where
  pub new_files : Fileset
  pub installed : Option Fileset
  pub files : Files

-- One old path: it is removed unless the new version, or the transaction, has installed it, or it is a
-- configuration file that was modified.
unfoldable pub remove_old : System → Config → Conffiles → Bytes → Leftover → Leftover
remove_old sys cfg old_cf listed s =
    let path = Util.normalize_path listed in
    if is_empty path
    then s
    else if not (archive_path_is_safe (some path))
    then s
    else let (in_new, new_files) = fileset_contains s.new_files listed in
      if in_new
      then record s { new_files = new_files }
      else let (answer, installed) = is_protected s.installed listed in
        if answer then record s { new_files = new_files; installed = installed } else record {
          new_files = new_files;
          installed = installed;
          files = remove_file sys old_cf path (full_path_of cfg path) s.files;
        }

unfoldable pub remove_all_old : System → Config → Conffiles → List Bytes → Leftover → Leftover
remove_all_old sys cfg old_cf [] s = s
remove_all_old sys cfg old_cf (p ∷ ps) s =
    remove_all_old sys cfg old_cf ps (remove_old sys cfg old_cf p s)

abbrev pub add_installed : List Bytes → Option Fileset → Option Fileset
add_installed paths none = none
add_installed paths (some set) = some (add_paths paths set)

abbrev pub paths_of : Option Fileset → List Bytes
paths_of none = []
paths_of (some set) = set.paths

-- From the extracted data on: the new version replaces the old one.
unfoldable pub replace_old :
    Outside
    → Config
    → Bytes
    → Option Bytes
    → Bytes
    → FilePath
    → Bool
    → List Bytes
    → Conffiles
    → List FileEntry
    → Site
    → Exit × Site
replace_old out cfg name old_version new_version tmpdir have_old old_paths old_cf entries st =
    let new_files = fileset_sort (entry_paths entries fileset_init) in
    let start : Leftover = record {
      new_files = new_files;
      installed = st.installed;
      files = st.world.files;
    } in
    let rest = if have_old then remove_all_old out.system cfg old_cf old_paths start else start in
    let (r, after) =
      run_script cfg out.host cfg.info_dir (some name) (codes "postrm") (some (codes "upgrade"))
        (some new_version) rest.files in
    let moved =
      move_triggers out cfg name tmpdir
        (move_scripts out cfg name tmpdir (remove_info_files out.system cfg name after)) in
    let listed = write_list (out.list_writing name) (list_path cfg name) entries moved in
    let (result, world) =
      configure out cfg name old_version tmpdir
        (record { files = listed; owners = st.world.owners }) in
    (
      result,
      record { world = world; installed = add_installed rest.new_files.paths rest.installed },
    )

-- The data is extracted, and the configuration files are settled.
unfoldable pub upgrade_data :
    Outside
    → Config
    → FilePath
    → Bytes
    → Option Bytes
    → Bytes
    → FilePath
    → Bool
    → List Bytes
    → Site
    → Exit × Site
upgrade_data out cfg ipk_path name old_version new_version tmpdir have_old old_paths st =
    let fs = st.world.files in
    let old_cf = conffile_load cfg name fs [] in
    let new_cf = parse_list tmpdir fs [] in
    let cf_paths = fileset_sort (conffile_paths new_cf fileset_init) in
    let (code, ex) =
      unpack_data out cfg ipk_path (if ltb 0 (length cf_paths.paths) then some cf_paths else none)
        (some (codes ".aept-new")) fs in
    elim code [
      | failure ↦
          (minus_one, record st { world = record { files = ex.files; owners = st.world.owners } })
      | success ↦
          let settled =
            if ltb 0 (length new_cf)
            then (resolve_upgrade (out.prompt name) cfg name (some old_cf) new_cf (out.keys name)
                ex.files).1
            else ex.files in
          replace_old out cfg name old_version new_version tmpdir have_old old_paths old_cf
            (entries_of ex)
            (record st { world = record { files = settled; owners = st.world.owners } })
    ]

-- The old version's claim on its files is dropped, and the new one is checked for clashes.
unfoldable pub upgrade_checked :
    Outside → Config → FilePath → Solvable → Option Bytes → Bytes → FilePath → Site → Exit × Site
upgrade_checked out cfg ipk_path s old_version new_version tmpdir st =
    let fs = st.world.files in
    let (old_files, have_old) = read_old_files cfg s.name fs in
    let world : World = record { files = fs; owners = drop_from s.name st.world.owners } in
    let (clashes, searched) =
      clash_check out.lib (out.disk fs) cfg ipk_path s (some old_files) world.owners fs in
    elim clashes [
      | none ↦ (minus_one, record st { world = world })
      | some n ↦
          if not (n == 0)
          then (minus_one, record st { world = world })
          else upgrade_data out cfg ipk_path s.name old_version new_version tmpdir have_old
              (paths_of searched) (record st { world = world })
    ]

abbrev pub with_files : Site → Files → Site
with_files st fs = record st { world = record { files = fs; owners = st.world.owners } }

-- From the temporary directory to the label `cleanup`: a script that fails gives its exit status.
unfoldable pub upgrade_in :
    Outside → Config → FilePath → Solvable → Option Bytes → Bytes → FilePath → Site → Exit × Site
upgrade_in out cfg ipk_path s old_version new_version tmpdir st =
    let (code, unpacked) = unpack_control out ipk_path tmpdir st.world.files in
    elim code [
      | failure ↦ (minus_one, with_files st unpacked)
      | success ↦
          let (r, fs) =
            run_script cfg out.host cfg.info_dir (some s.name) (codes "prerm")
              (some (codes "upgrade")) (some new_version) unpacked in
          if is_nonzero r
          then (r, with_files st fs)
          else (let (q, ready) =
                run_script cfg out.host tmpdir none (codes "preinst") (some (codes "upgrade"))
                  old_version fs in
              if is_nonzero q
              then (q, with_files st ready)
              else upgrade_checked out cfg ipk_path s old_version new_version tmpdir
                  (with_files st ready))
    ]

abbrev pub clean_site : Outside → FilePath → Exit × Site → Exit × Site
clean_site out tmpdir (r, st) = (r, with_files st (out.rm_rf tmpdir st.world.files))

unfoldable pub do_upgrade_package :
    Outside → Config → FilePath → Solvable → Option Bytes → Bytes → Site → Exit × Site
do_upgrade_package out cfg ipk_path s old_version new_version st =
    if not (pkg_name_is_safe (some s.name)) then (minus_one, st) else elim (out.mkdtemp s.name) [
      | none ↦ (minus_one, st)
      | some tmpdir ↦
          clean_site out tmpdir (upgrade_in out cfg ipk_path s old_version new_version tmpdir st)
    ]
