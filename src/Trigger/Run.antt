-- ===== src/Trigger/Run.antt =====
-- `aept_trigger_run_all` of src/trigger.c: which scripts are run, and for which directories.
use aept.Base.{
  ℕ, zero, suc, Bool, not, ◌&&◌, ◌||◌, Option, none, some, List, [], ◌∷◌, ◌++◌, ltb, ◌==◌,
  if◌then◌else◌, any, keep, length,
}
use aept.Text.Strings.{Bytes, codes, str_eq, strip_prefix}
use aept.Files.{Files}
use aept.Config.{Config}
use aept.Trigger.Ctx.{TriggerCtx, holds, sort_and_dedup}
use aept.Trigger.Entries.{TriggerEntry, load_entries}

unfoldable pub is_fresh : TriggerCtx → Bytes → Bool
is_fresh ctx name = holds name ctx.fresh_pkgs

unfoldable pub has_glob_chars : Bytes → Bool
has_glob_chars = any (λ c. c == b'*' || (c == b'?' || c == b'['))

unfoldable pub strip_offline_root : Config → Bytes → Bytes
strip_offline_root cfg path = elim cfg.offline_root [
  | none ↦ path
  | some root ↦ elim (strip_prefix root path) [ none ↦ path | some rest ↦ rest ]
]

-- What the scripts depend on outside: whether `fnmatch(pattern, path, FNM_PATHNAME)` is 0, whether a
-- path is a directory for `stat`, and whether a file is there.
pub record Outside : Type 0 where
  pub fnmatch : Bytes → Bytes → Bool
  pub is_dir : Bytes → Bool
  pub exists : Bytes → Bool

-- The loop over the collected directories, for one pattern; the array `matched` is returned.
unfoldable pub match_dirs : Outside → Bytes → List Bytes → List Bytes → List Bytes
match_dirs out pat [] matched = matched
match_dirs out pat (d ∷ ds) matched =
    let abs_dir = b'/' ∷ d in
    match_dirs out pat ds (
      if out.fnmatch pat abs_dir
      then (if holds abs_dir matched then matched else matched ++ abs_dir ∷ [])
      else matched)

-- A pattern of a fresh package that is a path of its own: a directory that is there.
unfoldable pub is_concrete : Outside → Config → Bool → TriggerEntry → Bool
is_concrete out cfg fresh e =
    fresh
    && (not e.modify_only
        && (not (has_glob_chars e.pattern)
            && out.is_dir
                (elim cfg.offline_root [ none ↦ e.pattern | some root ↦ root ++ e.pattern ])))

unfoldable pub match_entry :
    Outside → Config → TriggerCtx → Bool → TriggerEntry → List Bytes → List Bytes
match_entry out cfg tctx fresh e matched =
    let m = match_dirs out e.pattern tctx.dirs matched in
    if is_concrete out cfg fresh e
    then (if holds e.pattern m then m else m ++ e.pattern ∷ [])
    else m

-- The entries of one package, in their order.
unfoldable pub match_entries :
    Outside → Config → TriggerCtx → Bool → List TriggerEntry → List Bytes → List Bytes
match_entries out cfg tctx fresh [] matched = matched
match_entries out cfg tctx fresh (e ∷ es) matched =
    match_entries out cfg tctx fresh es (match_entry out cfg tctx fresh e matched)

-- A package and the directories that its script is run for.
pub record Group : Type 0 where
  pub pkg : Bytes
  pub matched : List Bytes

abbrev pub of_package : Bytes → TriggerEntry → Bool
of_package pkg e = str_eq e.pkg_name pkg

-- The loop of `aept_trigger_run_all`: the entries of the package of the first entry are taken together
-- and consumed. Their number is fuel enough (Groups).
unfoldable pub groups : Outside → Config → TriggerCtx → ℕ → List TriggerEntry → List Group
groups out cfg tctx zero es = []
groups out cfg tctx (suc f) [] = []
groups out cfg tctx (suc f) (e ∷ es) =
    let pkg = e.pkg_name in
    let matched =
      match_entries out cfg tctx (is_fresh tctx pkg) (e ∷ keep (of_package pkg) es) [] in
    let rest = groups out cfg tctx f (keep (λ x. not (of_package pkg x)) es) in
    if ltb 0 (length matched) then record { pkg = pkg; matched = matched } ∷ rest else rest

-- `run_trigger_script`: the arguments of the program that is run, if the script is there.
unfoldable pub run_trigger_script : Outside → Config → Group → Option (List Bytes)
run_trigger_script out cfg g =
    let path = cfg.info_dir ++ b'/' ∷ (g.pkg ++ codes ".trigger") in
    if not (out.exists path)
    then none
    else some (codes "/bin/sh" ∷ strip_offline_root cfg path ∷ g.matched)

unfoldable pub run_groups : Outside → Config → List Group → List (List Bytes)
run_groups out cfg [] = []
run_groups out cfg (g ∷ gs) =
    let rest = run_groups out cfg gs in
    elim (run_trigger_script out cfg g) [ none ↦ rest | some argv ↦ argv ∷ rest ]

-- The directories are sorted first; with none, nothing is run.
unfoldable pub groups_of : Outside → Config → TriggerCtx → List Bytes → Files → List Group
groups_of out cfg tctx names fs =
    if length tctx.dirs == 0
    then []
    else let sorted = record tctx { dirs = sort_and_dedup tctx.dirs } in
      let entries = load_entries cfg fs names in groups out cfg sorted (length entries) entries

-- The programs that `aept_trigger_run_all` runs, in their order.
unfoldable pub run_all : Outside → Config → TriggerCtx → List Bytes → Files → List (List Bytes)
run_all out cfg tctx names fs = run_groups out cfg (groups_of out cfg tctx names fs)
