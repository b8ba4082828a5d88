-- ===== src/Install/Operation.antt =====
-- `aept_op_install` of src/install.c: the transaction is shown, downloaded and carried out.
use aept.Base.{
  ℕ, zero, suc, Bool, true, false, not, ◌&&◌, ◌||◌, Option, none, some, List, ◌==◌, if◌then◌else◌,
  any,
}
use aept.Text.Strings.{Bytes, str_eq}
use aept.Text.Lines.{read_lines}
use aept.Files.{FilePath, Files, Faults, success, failure, unlink}
use aept.Fileset.{Fileset, fileset_sort}
use aept.Config.{Config}
use aept.Auto.{mark_auto}
use aept.Trigger.Ctx.{TriggerCtx, collect_dirs, add_fresh, list_buffer}
use aept.Process.{Exit, status, minus_one, is_negative}
use aept.Solver.{StepKind, Step, reinstall, downgrade, upgrade}
use aept.Remove.{list_path}
use aept.Remove.Package as Removal
use aept.Remove.Package.{World, do_remove}
use aept.Install.{Outside}
use aept.Install.Package.{do_install_package}
use aept.Install.Upgrade.{add_listed, do_upgrade_package}
use aept.Install.Display.{Pool}

-- The world, the sets and flags of the loop, and what is outside.
pub record Progress : Type 0 where
  pub world : World
  pub installed : Fileset
  pub fileset_sorted : Bool
  pub tctx : TriggerCtx
  pub had_error : Bool

pub data Course : Type 0 where
  going : Progress → Course
  left : Progress → Course

-- The parts of an operation that do not change: `download` is `aept_download_package`, the path of the
-- package and the files behind it; `mark_faults` and `written` are what becomes of the marking;
-- `requested` says that there are names or local files.
pub record Operation : Type 0 where
  pub out : Outside
  pub removal : Removal.Outside
  pub pool : Pool
  pub download : ℕ → Files → Option FilePath × Files
  pub mark_faults : Bytes → Faults
  pub written : Bytes → ℕ
  pub names : List Bytes
  pub local_ids : List ℕ
  pub requested : Bool

-- `if (!fileset_sorted) { aept_fileset_sort(&installed_files); fileset_sorted = 1; }`.
abbrev pub sort_installed : Progress → Progress
sort_installed s =
    if s.fileset_sorted
    then s
    else record s { installed = fileset_sort s.installed; fileset_sorted = true }

-- A step that removes a package.
unfoldable pub erase_step : Operation → Config → Step → Progress → Course
erase_step op cfg step s =
    let t = sort_installed s in
    let tctx = collect_dirs cfg t.tctx step.name t.world.files in
    let (r, w) = do_remove op.removal cfg step.name none (some t.installed) t.world in
    elim r [
      | success ↦ going (record t { world = w; tctx = tctx })
      | failure ↦
          if not cfg.force_depends && not cfg.keep_going
          then left (record t { world = w; tctx = tctx; had_error = true })
          else going (record t { world = w; tctx = tctx; had_error = true })
    ]

-- A package whose result is 0 adds its directories, and is fresh.
abbrev pub refresh : Config → Bytes → Exit → Files → TriggerCtx → TriggerCtx
refresh cfg name (status zero) fs tctx = add_fresh (collect_dirs cfg tctx name fs) name
refresh cfg name (status (suc n)) fs tctx = tctx
refresh cfg name minus_one fs tctx = tctx

unfoldable pub upgrade_step : Operation → Config → FilePath → Step → Progress → Exit × Progress
upgrade_step op cfg ipk step s =
    let t = sort_installed s in
    let tctx = collect_dirs cfg t.tctx step.name t.world.files in
    let old_version : Option Bytes = elim (op.pool.obs_pkg step.id) [
      | none ↦ none
      | some o ↦ some (op.pool.evr o)
    ] in
    let (r, st) =
      do_upgrade_package op.out cfg ipk (op.pool.solvable step.id) old_version (op.pool.evr step.id)
        (record { world = t.world; installed = some t.installed }) in
    (
      r,
      record t {
        world = st.world;
        installed = elim st.installed [ none ↦ t.installed | some set ↦ set ];
        fileset_sorted = false;
        tctx = refresh cfg step.name r st.world.files tctx;
      },
    )

unfoldable pub fresh_step : Operation → Config → FilePath → Step → Progress → Exit × Progress
fresh_step op cfg ipk step s =
    let (r, w) = do_install_package op.out cfg ipk (op.pool.solvable step.id) none s.world in
    (r, record s { world = w; tctx = refresh cfg step.name r w.files s.tctx })

-- The package was asked for: it came from a local file, or a name is its own or one that it provides.
unfoldable pub is_explicit : Operation → Step → Bool
is_explicit op step =
    elim (op.pool.commandline step.id) [ none ↦ false | some path ↦ true ]
    || any (λ n. str_eq n step.name || any (λ p. p == step.id) (op.pool.providers n)) op.names

abbrev pub replaces_old : StepKind → Bool
replaces_old upgrade = true
replaces_old downgrade = true
replaces_old reinstall = true
replaces_old _ = false

-- A fresh package that was not asked for is marked.
unfoldable pub mark_fresh : Operation → Config → Step → Files → Files
mark_fresh op cfg step fs =
    if op.requested && not (is_explicit op step)
    then (mark_auto cfg.auto_file step.name (op.mark_faults step.name) (op.written step.name) fs).1
    else fs

-- A list that can be read is added to the installed files.
unfoldable pub add_list : Option Bytes → Progress → Progress
add_list none s = s
add_list (some text) s = record s {
  installed = add_listed (read_lines list_buffer text) s.installed;
  fileset_sorted = false;
}

unfoldable pub note_fresh : Operation → Config → Step → Progress → Progress
note_fresh op cfg step s =
    let files = mark_fresh op cfg step s.world.files in
    add_list (files (list_path cfg step.name))
      (record s { world = record { files = files; owners = s.world.owners } })

-- The package is upgraded, or installed.
unfoldable pub place : Operation → Config → FilePath → Step → Progress → Exit × Progress
place op cfg ipk step s =
    if replaces_old step.kind then upgrade_step op cfg ipk step s else fresh_step op cfg ipk step s

-- A package that is not kept in the cache is removed again.
abbrev pub drop_package : Config → Bool → FilePath → Progress → Progress
drop_package cfg is_local ipk s =
    if cfg.no_cache && not is_local
    then record s { world = record { files = unlink ipk s.world.files; owners = s.world.owners } }
    else s

-- A step of the class INSTALL, with the path of its package. Only a negative result is an error.
unfoldable pub install_step : Operation → Config → Bool → FilePath → Step → Progress → Course
install_step op cfg is_local ipk step s =
    let (r, t) = place op cfg ipk step s in
    let u = record t { had_error = t.had_error || is_negative r } in
    if is_negative r && not cfg.keep_going
    then left u
    else going (
        drop_package cfg is_local ipk
          (if replaces_old step.kind then u else note_fresh op cfg step u))

-- The path of a step's package: a local file; or, with `no_cache`, what is downloaded now; or what was
-- downloaded before.
unfoldable pub install_from : Operation → Config → Option FilePath → Step → Progress → Course
install_from op cfg cached step s = elim (op.pool.commandline step.id) [
  | some path ↦ install_step op cfg true path step s
  | none ↦
      if cfg.no_cache
      then (let (got, fs) = op.download step.id s.world.files in
          let t = record s { world = record { files = fs; owners = s.world.owners } } in
          elim got [ none ↦ left t | some path ↦ install_step op cfg false path step t ])
      else (elim cached [ none ↦ going s | some path ↦ install_step op cfg false path step s ])
]
