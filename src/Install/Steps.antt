-- ===== src/Install/Steps.antt =====
-- The steps that an installation and an upgrade have in common.
use aept.Base.{Option, none, some, List, [], ◌∷◌, ◌++◌, ltb, if◌then◌else◌, length, take}
use aept.Text.Strings.{Bytes, codes}
use aept.Files.{FilePath, Files, Code, failure, write, rename}
use aept.Fileset.{Fileset}
use aept.Config.{Config, root_path}
use aept.Conffile.{Conffiles, Writing, not_opened, cut_off, complete, conffile_save, parse_list}
use aept.Owner.{add_owner_files}
use aept.Archive.Reader.{open_pkg_control_archive, open_pkg_data_archive}
use aept.Archive.Extract.{FileEntry, Extraction, extract_all}
use aept.Archive.Listing.{file_list_write}
use aept.Process.{Exit, status, minus_one, is_nonzero, Moving, file_copy}
use aept.Script.{run_script}
use aept.Status.{status_add}
use aept.Remove.{System, list_path}
use aept.Remove.Package.{World, info_path}
use aept.Install.{Outside}

-- The control archive is opened and extracted to the temporary directory.
unfoldable pub unpack_control : Outside → FilePath → FilePath → Files → Code × Files
unpack_control out ipk_path tmpdir fs = elim (open_pkg_control_archive out.lib ipk_path fs) [
  | none ↦ (failure, fs)
  | some ar ↦
      let (code, s) =
        extract_all out.lib ar tmpdir none
          (record { recorded = none; conffiles = none; files = fs }) in
      (code, s.files)
]

-- The data archive is opened and extracted to the root, and what is extracted is recorded.
unfoldable pub unpack_data :
    Outside → Config → FilePath → Option Fileset → Option Bytes → Files → Code × Extraction
unpack_data out cfg ipk_path conffiles cf_suffix fs =
    let s : Extraction = record { recorded = some []; conffiles = conffiles; files = fs } in
    elim (open_pkg_data_archive out.lib ipk_path cfg.ignore_uid fs) [
      | none ↦ (failure, s)
      | some ar ↦ extract_all out.lib ar (root_path cfg (codes "/")) cf_suffix s
    ]

abbrev pub entries_of : Extraction → List FileEntry
entries_of s = elim s.recorded [ none ↦ [] | some es ↦ es ]

-- A list that cannot be written is only warned about.
unfoldable pub write_list : Writing → FilePath → List FileEntry → Files → Files
write_list writing path entries fs = elim writing [
  | not_opened ↦ fs
  | cut_off n ↦ write path (take n (file_list_write entries)) fs
  | complete ↦ write path (file_list_write entries) fs
]

-- The digests of the configuration files as they are on the disk.
unfoldable pub with_digests : System → Config → Files → Conffiles → Conffiles
with_digests sys cfg fs [] = []
with_digests sys cfg fs (c ∷ cs) =
    elim (fs (root_path cfg c.path)) [ none ↦ c | some s ↦ record c { md5 = some (sys.digest s) } ]
    ∷ with_digests sys cfg fs cs

unfoldable pub save_conffiles : Outside → Config → Bytes → FilePath → Files → Files
save_conffiles out cfg name tmpdir fs =
    let new_cf = parse_list tmpdir fs [] in
    if ltb 0 (length new_cf)
    then (conffile_save cfg name (with_digests out.system cfg fs new_cf) (out.conffile_writing name)
        fs).1
    else fs

-- `rename(src, dst) < 0 && aept_file_copy(src, dst) < 0`, if the source is there.
unfoldable pub move_file : Moving → FilePath → FilePath → Files → Files
move_file mv src dst fs = elim (fs src) [
  | none ↦ fs
  | some content ↦
      if mv.rename_fails then (file_copy mv.copying src dst fs).1 else rename src dst content fs
]

abbrev pub script_names : List Bytes
script_names =
    codes "preinst" ∷ codes "postinst" ∷ codes "prerm" ∷ codes "postrm" ∷ codes "trigger" ∷ []

abbrev pub in_dir : FilePath → Bytes → FilePath
in_dir dir file = dir ++ b'/' ∷ file

unfoldable pub move_each : Outside → Config → Bytes → FilePath → List Bytes → Files → Files
move_each out cfg name tmpdir [] fs = fs
move_each out cfg name tmpdir (x ∷ xs) fs =
    let dst = info_path cfg name x in
    move_each out cfg name tmpdir xs (move_file (out.moving dst) (in_dir tmpdir x) dst fs)

unfoldable pub move_scripts : Outside → Config → Bytes → FilePath → Files → Files
move_scripts out cfg name tmpdir fs = move_each out cfg name tmpdir script_names fs

unfoldable pub move_triggers : Outside → Config → Bytes → FilePath → Files → Files
move_triggers out cfg name tmpdir fs =
    let dst = info_path cfg name (codes "triggers") in
    move_file (out.moving dst) (in_dir tmpdir (codes "triggers")) dst fs

-- `postinst` is run, the control file is written with the state that follows from it, and the owner
-- index takes the files of the list: the result `r` is 0 or -1.
unfoldable pub configure : Outside → Config → Bytes → Option Bytes → FilePath → World → Exit × World
configure out cfg name old_version tmpdir w =
    let (r, fs) =
      run_script cfg out.host cfg.info_dir (some name) (codes "postinst") (some (codes "configure"))
        old_version w.files in
    let state = if is_nonzero r then codes "unpacked" else codes "installed" in
    let result = if is_nonzero r then minus_one else status 0 in
    let recorded =
      (status_add (in_dir tmpdir (codes "control")) (info_path cfg name (codes "control")) state
        (out.control_faults name) fs).1 in
    (
      result,
      record {
        files = recorded;
        owners = elim w.owners [
          | none ↦ none
          | some idx ↦ some (add_owner_files idx name (list_path cfg name) recorded)
        ];
      },
    )
