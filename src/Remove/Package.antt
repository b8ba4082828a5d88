-- ===== src/Remove/Package.antt =====
-- `aept_do_remove` of src/remove.c: the removal of one package.
use aept.Base.{not, Option, none, some, List, [], ◌∷◌, ◌++◌, if◌then◌else◌}
use aept.Text.Strings.{Bytes, codes}
use aept.Files.{FilePath, Files, Code, success, failure, Faults, unlink}
use aept.Util.{pkg_name_is_safe}
use aept.Fileset.{Fileset}
use aept.Config.{Config}
use aept.Pin.{pin_remove}
use aept.Auto.{unmark_auto}
use aept.Owner.{OwnerIndex, drop_owner}
use aept.Process.{Exit, is_nonzero, Host}
use aept.Script.{run_script}
use aept.Remove.{System, remove_files}

abbrev pub info_exts : List Bytes
info_exts =
    codes "list"
    ∷ codes "control"
    ∷ codes "conffiles"
    ∷ codes "preinst"
    ∷ codes "postinst"
    ∷ codes "prerm"
    ∷ codes "postrm"
    ∷ codes "trigger"
    ∷ codes "triggers"
    ∷ []

abbrev pub info_path : Config → Bytes → Bytes → FilePath
info_path cfg name ext = cfg.info_dir ++ b'/' ∷ (name ++ b'.' ∷ ext)

-- `unlink`, where it does not fail.
abbrev pub try_unlink : System → FilePath → Files → Files
try_unlink sys path fs = if sys.unlink_fails path then fs else unlink path fs

unfoldable pub remove_exts : System → Config → Bytes → List Bytes → Files → Files
remove_exts sys cfg name [] fs = fs
remove_exts sys cfg name (ext ∷ exts) fs =
    remove_exts sys cfg name exts (try_unlink sys (info_path cfg name ext) fs)

unfoldable pub remove_info_files : System → Config → Bytes → Files → Files
remove_info_files sys cfg name fs = remove_exts sys cfg name info_exts fs

-- What the removal of packages finds outside: the system's calls, the programs that are run, and the
-- calls that fail while the state files are rewritten for a package.
pub record Outside : Type 0 where
  pub system : System
  pub host : Host
  pub unmark_faults : Bytes → Faults
  pub pin_faults : Bytes → Faults

-- The files, and the owner index where there is one.
pub record World : Type 0 where
  pub files : Files
  pub owners : Option OwnerIndex

abbrev pub drop_from : Bytes → Option OwnerIndex → Option OwnerIndex
drop_from name none = none
drop_from name (some idx) = some (drop_owner idx name)

abbrev pub removal_action : Option Bytes → Option Bytes
removal_action none = some (codes "remove")
removal_action (some version) = some (codes "upgrade")

abbrev pub removal_script : Outside → Config → Bytes → Bytes → Option Bytes → Files → Exit × Files
removal_script out cfg name script new_version fs =
    run_script cfg out.host cfg.info_dir (some name) script (removal_action new_version) new_version
      fs

-- What follows a `prerm` that ended well.
unfoldable pub take_away : Outside → Config → Bytes → Option Bytes → Option Fileset → World → World
take_away out cfg name new_version protected w =
    let (left, dirs) = remove_files out.system cfg name protected w.files in
    let (r, after) = removal_script out cfg name (codes "postrm") new_version left in
    let cleared = remove_info_files out.system cfg name after in
    let unmarked = (unmark_auto cfg.auto_file name (out.unmark_faults name) cleared).1 in
    let unpinned = (pin_remove cfg.pin_file name (out.pin_faults name) unmarked).1 in
    record { files = unpinned; owners = drop_from name w.owners }

unfoldable pub do_remove :
    Outside → Config → Bytes → Option Bytes → Option Fileset → World → Code × World
do_remove out cfg name new_version protected w =
    if not (pkg_name_is_safe (some name))
    then (failure, w)
    else let (r, fs) = removal_script out cfg name (codes "prerm") new_version w.files in
      let ready : World = record w { files = fs } in
      if is_nonzero r
      then (failure, ready)
      else (success, take_away out cfg name new_version protected ready)
