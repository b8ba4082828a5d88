-- ===== src/Install/Checked.antt =====
-- What src/install.c has checked and done when it installs a package.
use aept.Base.{
  zero, suc, ◌≡◌, refl, ap, ◌∙◌, inl, inr, true, false, Option, none, some, arith, Bool-cases,
  Option-cases, All, ◌==◌,
}
use aept.Text.Strings.{Bytes, codes}
use aept.Files.{FilePath, Files, success, Code-cases}
use aept.Util.{pkg_name_is_safe}
use aept.Config.{Config}
use aept.Owner.{OwnerIndex}
use aept.Process.{Exit, status, minus_one, is_nonzero}
use aept.Script.{run_script}
use aept.Clash.{Solvable, clash_check}
use aept.Clash.Free.{IsFree, clash_check_iff}
use aept.Archive.Extract.{Extraction}
use aept.Archive.Listing.{list_data_paths}
use aept.Remove.Package.{World}
use aept.Install.{Outside}
use aept.Install.Steps.{unpack_control, unpack_data, entries_of, configure}
use aept.Install.Package.{
  record_package, install_data, preinst_action, install_in, clean_up, do_install_package,
}

-- The result of the script `preinst` and the files behind it, when the control archive is unpacked.
abbrev pub preinst_run :
    Outside → Config → FilePath → Option Bytes → FilePath → Files → Exit × Files
preinst_run out cfg ipk v tmpdir fs =
    run_script cfg out.host tmpdir none (codes "preinst") (preinst_action v) v
      (unpack_control out ipk tmpdir fs).1

-- What follows the extraction: the package is recorded and configured.
abbrev pub recorded_and_configured :
    Outside → Config → Solvable → Option Bytes → FilePath → World → Extraction → Exit × World
recorded_and_configured out cfg s v tmpdir w ex =
    configure out cfg s.name v tmpdir
      (record w { files = record_package out cfg s.name tmpdir (entries_of ex) ex.files })

-- With the files `ready` each entry of the archive was free to be put on the disk, and from these the
-- archive was extracted without an error.
pub record WasFree (out : Outside) (cfg : Config) (ipk : FilePath) (s : Solvable)
    (owners : Option OwnerIndex) (ready : Files) : Type 0 where
  pub listed : (list_data_paths out.lib ipk cfg.ignore_uid ready).0 ≡ success
  pub free :
      All
        (IsFree (out.disk ready) cfg s none owners)
        (list_data_paths out.lib ipk cfg.ignore_uid ready).1
  pub unpacked : (unpack_data out cfg ipk none none ready).0 ≡ success

-- The way to the result `o`: the temporary directory was made, the control archive was unpacked into it,
-- `preinst` gave 0, and with the files behind that script the entries were free and extracted; then
-- the package was recorded and configured, and the directory removed.
pub record WasChecked (out : Outside) (cfg : Config) (ipk : FilePath) (s : Solvable)
    (v : Option Bytes) (w : World) (o : Exit × World) : Type 0 where
  pub tmpdir : FilePath
  pub made : out.mkdtemp s.name ≡ some tmpdir
  pub control_unpacked : (unpack_control out ipk tmpdir w.files).0 ≡ success
  pub preinst_passed : is_nonzero (preinst_run out cfg ipk v tmpdir w.files).0 ≡ false
  pub was_free : WasFree out cfg ipk s w.owners (preinst_run out cfg ipk v tmpdir w.files).1
  pub outcome :
      o
      ≡ clean_up out tmpdir (
          recorded_and_configured out cfg s v tmpdir w
            (unpack_data out cfg ipk none none (preinst_run out cfg ipk v tmpdir w.files).1).1)

install_data-WasFree :
    (out : Outside) (cfg : Config) (ipk : FilePath) (s : Solvable) (v : Option Bytes)
    (tmpdir : FilePath) (w : World)
    → (install_data out cfg ipk s v tmpdir w).0 ≡ status 0
    → WasFree out cfg ipk s w.owners w.files
      × (install_data out cfg ipk s v tmpdir w
          ≡ recorded_and_configured out cfg s v tmpdir w
              (unpack_data out cfg ipk none none w.files).1)
unfolding install_data
install_data-WasFree out cfg ipk s v tmpdir w =
    let check = clash_check out.lib (out.disk w.files) cfg ipk s none w.owners w.files in
    elim (Option-cases check.0) [
      | inl gone ↦ rw (gone, install_data) (λ h. absurd (let k : minus_one ≡ status 0 = h in cc))
      | inr (n, there) ↦ elim (Bool-cases (n == 0)) [
        | inr some_ ↦
            rw (there, some_, install_data) (λ h. absurd (let k : minus_one ≡ status 0 = h in cc))
        | inl none_ ↦
            let clear : check.0 ≡ some 0 = (let e : n ≡ 0 = ground arith in there ∙ ap some e) in
            let (listed, free) =
              (clash_check_iff out.lib (out.disk w.files) cfg ipk s none w.owners w.files tt).0
                clear in
            elim (Code-cases (unpack_data out cfg ipk none none w.files).0) [
              | inr bad ↦
                  rw (there, none_, bad, install_data)
                    (λ h. absurd (let k : minus_one ≡ status 0 = h in cc))
              | inl ok ↦
                  rw (there, none_, ok, install_data)
                    (λ h. (record { listed = listed; free = free; unpacked = ok }, refl))
            ]
      ]
    ]

status_is_zero : (r : Exit) → is_nonzero r ≡ true → r ≡ status 0 → ⊥
status_is_zero (status zero) t h = cc
status_is_zero (status (suc n)) t h = ground arith
status_is_zero minus_one t h = cc

install_in-WasChecked :
    (out : Outside) (cfg : Config) (ipk : FilePath) (s : Solvable) (v : Option Bytes)
    (tmpdir : FilePath) (w : World)
    → out.mkdtemp s.name ≡ some tmpdir
    → (install_in out cfg ipk s v tmpdir w).0 ≡ status 0
    → WasChecked out cfg ipk s v w (clean_up out tmpdir (install_in out cfg ipk s v tmpdir w))
unfolding install_in
install_in-WasChecked out cfg ipk s v tmpdir w made =
    elim (Code-cases (unpack_control out ipk tmpdir w.files).0) [
      | inr bad ↦ rw (bad, install_in) (λ h. absurd (let k : minus_one ≡ status 0 = h in cc))
      | inl ok ↦
          let (r, fs) = preinst_run out cfg ipk v tmpdir w.files in
          elim (Bool-cases (is_nonzero r)) [
            | inl t ↦ rw (ok, t, install_in) (λ h. absurd (status_is_zero r t h))
            | inr f ↦
                rw (ok, f, install_in)
                  (λ h.
                    let (was_free, same) =
                      install_data-WasFree out cfg ipk s v tmpdir (record w { files = fs }) h in
                    record {
                      tmpdir = tmpdir;
                      made = made;
                      control_unpacked = ok;
                      preinst_passed = f;
                      was_free = was_free;
                      outcome = ap (clean_up out tmpdir) same;
                    })
          ]
    ]

-- If `do_install_package` returns 0, the control archive was unpacked and `preinst` gave 0; with the files
-- behind that script each entry of the package was free to be put on the disk, and the data was
-- extracted from these files without an error; and the result and the world are those of the
-- recording and the configuring that follow, with the temporary directory removed.
pub do_install_package-WasChecked :
    (out : Outside) (cfg : Config) (ipk : FilePath) (s : Solvable) (v : Option Bytes) (w : World)
    → (do_install_package out cfg ipk s v w).0 ≡ status 0
    → WasChecked out cfg ipk s v w (do_install_package out cfg ipk s v w)
unfolding do_install_package
do_install_package-WasChecked out cfg ipk s v w =
    elim (Bool-cases (pkg_name_is_safe (some s.name))) [
      | inr unsafe ↦ rw unsafe (λ h. absurd (let k : minus_one ≡ status 0 = h in cc))
      | inl safe ↦ elim (Option-cases (out.mkdtemp s.name)) [
        | inl gone ↦
            rw (safe, gone, do_install_package)
              (λ h. absurd (let k : minus_one ≡ status 0 = h in cc))
        | inr (tmpdir, made) ↦
            rw (safe, made, do_install_package)
              (λ h. install_in-WasChecked out cfg ipk s v tmpdir w made h)
      ]
    ]
