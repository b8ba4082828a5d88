-- ===== src/Install/Transaction.antt =====
-- The loops of `aept_op_install` of src/install.c, and what stands around them.
use aept.Base.{
  ℕ, suc, ◌+◌, Bool, true, false, ◌&&◌, ◌||◌, Option, none, some, List, [], ◌∷◌, if◌then◌else◌,
  length,
}
use aept.Text.Strings.{Bytes}
use aept.Files.{FilePath, Files, Code, success, failure}
use aept.Fileset.{fileset_init}
use aept.Config.{Config}
use aept.Owner.{owner_index_init, owner_index_build}
use aept.Trigger.Ctx.{ctx_init}
use aept.Trigger.Run as Run
use aept.Trigger.Run.{run_all}
use aept.Solver.{Step, is_erase, is_install, is_old_version}
use aept.Remove.Package.{World}
use aept.Install.Operation.{Progress, Course, going, left, Operation, erase_step, install_from}
use aept.Install.Display.{nothing_to_do, accepted, declined, display_transaction}
use aept.Install.Reinstall.{do_reinstall}
use aept.Install.Request.{unmark_requested}

-- One step of the transaction, with the path of its package where it was downloaded before. The old
-- version that an upgrade replaces is passed over.
unfoldable pub take_step : Operation → Config → Option FilePath → Step → Progress → Course
take_step op cfg cached step s =
    if is_erase step.kind
    then (if is_old_version step.kind then going s else erase_step op cfg step s)
    else if is_install step.kind
    then install_from op cfg cached step s
    else going s

-- The paths of the packages in their places.
abbrev pub head_path : List (Option FilePath) → Option FilePath
head_path [] = none
head_path (p ∷ ps) = p

abbrev pub tail_paths : List (Option FilePath) → List (Option FilePath)
tail_paths [] = []
tail_paths (p ∷ ps) = ps

-- The loop over the steps; `cancelled i` is the answer of `aept_cancelled` in round `i`.
unfoldable pub execute :
    Operation → Config → (ℕ → Bool) → ℕ → List (Option FilePath) → List Step → Progress → Course
execute op cfg cancelled i paths [] s = going s
execute op cfg cancelled i paths (step ∷ steps) s = elim (cancelled i) [
  | true ↦ left s
  | false ↦ elim (take_step op cfg (head_path paths) step s) [
    | left s' ↦ left s'
    | going s' ↦ execute op cfg cancelled (suc i) (tail_paths paths) steps s'
  ]
]

abbrev pub in_front :
    Option FilePath → Option (List (Option FilePath)) → Option (List (Option FilePath))
in_front p none = none
in_front p (some ps) = some (p ∷ ps)

-- The download phase: the paths, `none` where it stops.
unfoldable pub download_all :
    Operation → (ℕ → Bool) → ℕ → List Step → Files → Option (List (Option FilePath)) × Files
download_all op cancelled i [] fs = (some [], fs)
download_all op cancelled i (step ∷ steps) fs = elim (cancelled i) [
  | true ↦ (none, fs)
  | false ↦ elim (is_install step.kind) [
    | false ↦ let (ps, fs') = download_all op cancelled (suc i) steps fs in (in_front none ps, fs')
    | true ↦ elim (op.pool.commandline step.id) [
      | some path ↦
          let (ps, fs') = download_all op cancelled (suc i) steps fs in
          (in_front (some path) ps, fs')
      | none ↦
          let (got, after) = op.download step.id fs in
          elim got [
            | none ↦ (none, after)
            | some path ↦
                let (ps, fs') = download_all op cancelled (suc i) steps after in
                (in_front (some path) ps, fs')
          ]
    ]
  ]
]

-- What an operation leaves: its result, the world, and the trigger scripts that it ran.
pub record Outcome : Type 0 where
  pub code : Code
  pub world : World
  pub triggers : List (List Bytes)

-- What is asked of the user, the answers of `aept_cancelled` in the two loops, what is outside the
-- triggers, and the names in the directory of the records.
pub record Session : Type 0 where
  pub confirmed : Bool
  pub stop_download : ℕ → Bool
  pub cancelled : ℕ → Bool
  pub triggers : Run.Outside
  pub listing : Files → Option (List Bytes)

abbrev pub names_in : Option (List Bytes) → List Bytes
names_in none = []
names_in (some ns) = ns

-- What follows the loop: the triggers, and the packages to be reinstalled.
unfoldable pub finish : Operation → Session → Config → List Step → Course → Outcome
finish op ses cfg steps (left s) = record { code = failure; world = s.world; triggers = [] }
finish op ses cfg steps (going s) =
    let ran =
      run_all ses.triggers cfg s.tctx (names_in (ses.listing s.world.files)) s.world.files in
    let (error, w) : Bool × World =
      if cfg.reinstall then do_reinstall op cfg steps op.names s.world else (false, s.world) in
    record { code = if s.had_error || error then failure else success; world = w; triggers = ran }

-- The loop starts with no installed files, and the owner index of the packages that are there.
unfoldable pub beginning : Session → Config → Files → Progress
beginning ses cfg fs = record {
  world = record {
    files = fs;
    owners = some (owner_index_build cfg.info_dir fs (ses.listing fs) owner_index_init);
  };
  installed = fileset_init;
  fileset_sorted = false;
  tctx = ctx_init;
  had_error = false;
}

abbrev pub idle : Code → Files → Outcome
idle code fs = record { code = code; world = record { files = fs; owners = none }; triggers = [] }

unfoldable pub carry_through :
    Operation → Session → Config → List Step → List (Option FilePath) → Files → Outcome
carry_through op ses cfg steps paths fs =
    finish op ses cfg steps (execute op cfg ses.cancelled 0 paths steps (beginning ses cfg fs))

-- With the packages downloaded first, unless they are not to be kept.
unfoldable pub download_and_carry_through :
    Operation → Session → Config → List Step → Files → Outcome
download_and_carry_through op ses cfg steps fs =
    if cfg.no_cache
    then carry_through op ses cfg steps [] fs
    else (let (got, after) = download_all op ses.stop_download 0 steps fs in
        elim got [
          | none ↦ idle failure after
          | some paths ↦
              if cfg.download_only
              then idle success after
              else carry_through op ses cfg steps paths after
        ])

-- `--no-cache` is ignored with `--download-only`.
abbrev pub settle_cache : Config → Config
settle_cache cfg =
    if cfg.no_cache && cfg.download_only then record cfg { no_cache = false } else cfg

-- `aept_op_install`; `resolved` is the transaction, `none` where the loading or the solver failed.
unfoldable pub op_install : Operation → Session → Config → Option (List Step) → Files → Outcome
op_install op ses cfg none fs = idle failure fs
op_install op ses cfg (some steps) fs =
    let ready = unmark_requested op cfg fs in
    let ri_names = if cfg.reinstall then op.names else [] in
    let asked = length op.names + length op.local_ids in
    elim (display_transaction ses.confirmed steps ri_names asked) [
      | nothing_to_do ↦ idle success ready
      | declined ↦ idle success ready
      | accepted ↦
          if cfg.noaction
          then idle success ready
          else download_and_carry_through op ses (settle_cache cfg) steps ready
    ]
