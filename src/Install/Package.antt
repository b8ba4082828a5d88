-- ===== src/Install/Package.antt =====
-- `do_install_package` of src/install.c.
use aept.Base.{not, Option, none, some, List, ◌==◌, if◌then◌else◌}
use aept.Text.Strings.{Bytes, codes}
use aept.Files.{FilePath, Files, success, failure}
use aept.Util.{pkg_name_is_safe}
use aept.Config.{Config}
use aept.Archive.Extract.{FileEntry}
use aept.Process.{Exit, minus_one, is_nonzero}
use aept.Script.{run_script}
use aept.Clash.{Solvable, clash_check}
use aept.Remove.{list_path}
use aept.Remove.Package.{World}
use aept.Install.{Outside}
use aept.Install.Steps.{
  unpack_control, unpack_data, entries_of, write_list, save_conffiles, move_scripts, move_triggers,
  configure,
}

-- The records of a package whose data is extracted.
unfoldable pub record_package : Outside → Config → Bytes → FilePath → List FileEntry → Files → Files
record_package out cfg name tmpdir entries fs =
    let listed = write_list (out.list_writing name) (list_path cfg name) entries fs in
    let saved = save_conffiles out cfg name tmpdir listed in
    move_triggers out cfg name tmpdir (move_scripts out cfg name tmpdir saved)

-- From the check for clashes on.
unfoldable pub install_data :
    Outside → Config → FilePath → Solvable → Option Bytes → FilePath → World → Exit × World
install_data out cfg ipk_path s old_version tmpdir w =
    let (clashes, searched) =
      clash_check out.lib (out.disk w.files) cfg ipk_path s none w.owners w.files in
    elim clashes [
      | none ↦ (minus_one, w)
      | some n ↦
          if not (n == 0)
          then (minus_one, w)
          else (let (code, ex) = unpack_data out cfg ipk_path none none w.files in
              elim code [
                | failure ↦ (minus_one, record w { files = ex.files })
                | success ↦ configure out cfg s.name old_version tmpdir (record w {
                  files = record_package out cfg s.name tmpdir (entries_of ex) ex.files;
                })
              ])
    ]

abbrev pub preinst_action : Option Bytes → Option Bytes
preinst_action none = some (codes "install")
preinst_action (some v) = some (codes "upgrade")

-- What is done between the making of the temporary directory and the label `cleanup`. A script that
-- fails gives its exit status as the result.
unfoldable pub install_in :
    Outside → Config → FilePath → Solvable → Option Bytes → FilePath → World → Exit × World
install_in out cfg ipk_path s old_version tmpdir w =
    let (code, unpacked) = unpack_control out ipk_path tmpdir w.files in
    elim code [
      | failure ↦ (minus_one, record w { files = unpacked })
      | success ↦
          let (r, fs) =
            run_script cfg out.host tmpdir none (codes "preinst") (preinst_action old_version)
              old_version unpacked in
          if is_nonzero r
          then (r, record w { files = fs })
          else install_data out cfg ipk_path s old_version tmpdir (record w { files = fs })
    ]

-- `rm -rf tmpdir` at the label `cleanup`.
abbrev pub clean_up : Outside → FilePath → Exit × World → Exit × World
clean_up out tmpdir (r, w) = (r, record w { files = out.rm_rf tmpdir w.files })

unfoldable pub do_install_package :
    Outside → Config → FilePath → Solvable → Option Bytes → World → Exit × World
do_install_package out cfg ipk_path s old_version w =
    if not (pkg_name_is_safe (some s.name)) then (minus_one, w) else elim (out.mkdtemp s.name) [
      | none ↦ (minus_one, w)
      | some tmpdir ↦ clean_up out tmpdir (install_in out cfg ipk_path s old_version tmpdir w)
    ]
