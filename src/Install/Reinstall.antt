-- ===== src/Install/Reinstall.antt =====
-- `do_reinstall` of src/install.c.
use aept.Base.{
  ℕ, Bool, true, false, not, ◌&&◌, ◌||◌, Option, none, some, List, [], ◌∷◌, if◌then◌else◌,
}
use aept.Text.Strings.{Bytes}
use aept.Files.{FilePath, Files, unlink}
use aept.Config.{Config}
use aept.Process.{is_negative}
use aept.Solver.{Step}
use aept.Remove.Package.{World}
use aept.Install.Upgrade.{do_upgrade_package}
use aept.Install.Operation.{Operation}
use aept.Install.Display.{installed_version, name_in_transaction}

abbrev pub local_or_downloaded : Operation → Option FilePath → ℕ → Files → Option FilePath × Files
local_or_downloaded op none avail fs = op.download avail fs
local_or_downloaded op (some path) avail fs = (some path, fs)

abbrev pub is_local : Option FilePath → Bool
is_local none = false
is_local (some path) = true

-- One name of the reinstall phase: the world, and whether there was an error.
unfoldable pub reinstall_one : Operation → Config → List Step → Bytes → World → Bool × World
reinstall_one op cfg steps name w = elim (op.pool.find_available name) [
  | none ↦ (false, w)
  | some avail ↦
      let pkg = (op.pool.solvable avail).name in
      if name_in_transaction pkg steps
      then (false, w)
      else elim (installed_version op.pool.installed pkg) [
        | none ↦ (false, w)
        | some old_ver ↦
            let (got, fs) = local_or_downloaded op (op.pool.commandline avail) avail w.files in
            let ready : World = record { files = fs; owners = w.owners } in
            elim got [
              | none ↦ (true, ready)
              | some ipk ↦
                  let (r, st) =
                    do_upgrade_package op.out cfg ipk (op.pool.solvable avail) (some old_ver)
                      old_ver (record { world = ready; installed = none }) in
                  (
                    is_negative r,
                    if cfg.no_cache && not (is_local (op.pool.commandline avail))
                        then record { files = unlink ipk st.world.files; owners = st.world.owners }
                        else st.world,
                  )
            ]
      ]
]

-- `do_reinstall`: whether there was an error, and the world.
unfoldable pub do_reinstall : Operation → Config → List Step → List Bytes → World → Bool × World
do_reinstall op cfg steps [] w = (false, w)
do_reinstall op cfg steps (n ∷ ns) w =
    let (error, v) = reinstall_one op cfg steps n w in
    elim (error && not cfg.keep_going) [
      | true ↦ (true, v)
      | false ↦ let (later, u) = do_reinstall op cfg steps ns v in (error || later, u)
    ]
