-- ===== src/Remove/Operation.antt =====
-- `aept_op_remove` of src/remove.c, and `aept_op_autoremove` of src/autoremove.c.
use aept.Base.{
  ℕ, suc, Bool, true, false, not, ◌&&◌, Option, none, some, List, [], ◌∷◌, ltb, leb, ◌==◌, map,
  if◌then◌else◌, length,
}
use aept.Text.Strings.{Bytes}
use aept.Files.{Files, Code, success, failure}
use aept.Fileset.{fileset_init}
use aept.Auto.{load_auto_set}
use aept.Autoremove.{Pool, candidates}
use aept.Config.{Config}
use aept.Trigger.Ctx.{TriggerCtx, ctx_init, collect_dirs}
use aept.Trigger.Run as Run
use aept.Trigger.Run.{run_all}
use aept.Solver.{Step, is_erase, erase_names}
use aept.Remove.Package.{Outside, World, do_remove}

-- What the loops keep.
pub record Progress : Type 0 where
  pub world : World
  pub tctx : TriggerCtx
  pub had_error : Bool

-- The loop goes on, or is left with -1.
pub data Course : Type 0 where
  going : Progress → Course
  left : Progress → Course

-- One package: its directories are collected, and it is removed.
unfoldable pub remove_package : Outside → Config → Bytes → Progress → Course
remove_package out cfg name s =
    let tctx = collect_dirs cfg s.tctx name s.world.files in
    let (r, w) = do_remove out cfg name none none s.world in
    elim r [
      | success ↦ going (record { world = w; tctx = tctx; had_error = s.had_error })
      | failure ↦
          if not cfg.force_depends && not cfg.keep_going
          then left (record { world = w; tctx = tctx; had_error = true })
          else going (record { world = w; tctx = tctx; had_error = true })
    ]

-- The loop over the steps; `cancelled i` is the answer of `aept_cancelled` in round `i`.
unfoldable pub remove_steps : Outside → Config → (ℕ → Bool) → ℕ → List Step → Progress → Course
remove_steps out cfg cancelled i [] s = going s
remove_steps out cfg cancelled i (step ∷ steps) s = elim (cancelled i) [
  | true ↦ left s
  | false ↦ elim (is_erase step.kind) [
    | false ↦ remove_steps out cfg cancelled (suc i) steps s
    | true ↦ elim (remove_package out cfg step.name s) [
      | left s' ↦ left s'
      | going s' ↦ remove_steps out cfg cancelled (suc i) steps s'
    ]
  ]
]

-- The loop over the names of the candidates in `aept_op_autoremove`.
unfoldable pub remove_candidates :
    Outside → Config → (ℕ → Bool) → ℕ → List Bytes → Progress → Course
remove_candidates out cfg cancelled i [] s = going s
remove_candidates out cfg cancelled i (name ∷ names) s = elim (cancelled i) [
  | true ↦ left s
  | false ↦ elim (remove_package out cfg name s) [
    | left s' ↦ left s'
    | going s' ↦ remove_candidates out cfg cancelled (suc i) names s'
  ]
]

-- What an operation leaves: its result, the world, and the trigger scripts that it ran.
pub record Outcome : Type 0 where
  pub code : Code
  pub world : World
  pub triggers : List (List Bytes)

-- What is asked of the user, and what is outside the triggers: the names in the directory of the
-- records after the loop.
pub record Session : Type 0 where
  pub confirmed : Bool
  pub cancelled : ℕ → Bool
  pub triggers : Run.Outside
  pub listing : Files → List Bytes

-- What follows the loop.
unfoldable pub finish : Session → Config → Course → Outcome
finish ses cfg (left s) = record { code = failure; world = s.world; triggers = [] }
finish ses cfg (going s) = record {
  code = if s.had_error then failure else success;
  world = s.world;
  triggers = run_all ses.triggers cfg s.tctx (ses.listing s.world.files) s.world.files;
}

abbrev pub idle : Code → World → Outcome
idle code w = record { code = code; world = w; triggers = [] }

abbrev pub beginning : World → Progress
beginning w = record { world = w; tctx = ctx_init; had_error = false }

-- `resolved` is what the solver made of the names, `none` where it, or the loading in front of it,
-- failed.
unfoldable pub op_remove : Outside → Session → Config → Option (List Step) → ℕ → World → Outcome
op_remove out ses cfg none count w = idle failure w
op_remove out ses cfg (some []) count w = idle success w
op_remove out ses cfg (some (s ∷ ss)) count w =
    if ltb count (length (erase_names (s ∷ ss))) && not ses.confirmed
    then idle success w
    else if cfg.noaction
    then idle success w
    else finish ses cfg (remove_steps out cfg ses.cancelled 0 (s ∷ ss) (beginning w))

-- The end of `aept_op_autoremove`, from the names of the candidates on.
unfoldable pub remove_unneeded : Outside → Session → Config → List Bytes → World → Outcome
remove_unneeded out ses cfg [] w = idle success w
remove_unneeded out ses cfg (n ∷ ns) w =
    if not ses.confirmed
    then idle success w
    else if cfg.noaction
    then idle success w
    else finish ses cfg (remove_candidates out cfg ses.cancelled 0 (n ∷ ns) (beginning w))

-- `aept_op_autoremove`; `loaded` is the pool of the installed packages, `none` where loading failed.
unfoldable pub op_autoremove : Outside → Session → Config → Option Pool → World → Outcome
op_autoremove out ses cfg none w = idle failure w
op_autoremove out ses cfg (some pool) w =
    let auto_set = load_auto_set cfg.auto_file w.files fileset_init in
    if leb pool.end pool.start
    then idle success w
    else if length auto_set.paths == 0
    then idle success w
    else remove_unneeded out ses cfg (map pool.name (candidates pool auto_set)) w
