-- ===== src/Trigger/Scripts.antt =====
-- The programs that `aept_trigger_run_all` runs: the scripts that are there, each once, and for all its
-- directories.
use aept.Base.{
  ◌≡◌, refl, ap, ◌∙◌, inl, inr, Bool, false, not, ◌&&◌, List, [], ◌∷◌, ◌++◌, arith, ◌==◌, length,
  any, keep, map, Bool-cases,
}
use aept.Text.Strings.{Bytes, codes, str_eq, str_eq_iff}
use aept.Files.{Files}
use aept.Config.{Config}
use aept.Trigger.Ctx.{TriggerCtx, holds}
use aept.Trigger.Entries.{load_entries}
use aept.Trigger.Run.{
  Outside, strip_offline_root, Group, groups_of, run_trigger_script, run_groups, run_all,
}
use aept.Trigger.Dirs.{IsDistinct}
use aept.Trigger.Groups.{runs_for, calls_for, packages, groups_of_triggers}

-- `<info_dir>/<pkg>.trigger`.
abbrev pub script_of : Config → Bytes → Bytes
script_of cfg pkg = cfg.info_dir ++ b'/' ∷ (pkg ++ codes ".trigger")

-- The package has a script.
abbrev pub has_script : Outside → Config → Group → Bool
has_script out cfg g = out.exists (script_of cfg g.pkg)

-- The program that is run for a package: its script, for the directories.
abbrev pub command : Config → Group → List Bytes
command cfg g = codes "/bin/sh" ∷ strip_offline_root cfg (script_of cfg g.pkg) ∷ g.matched

-- The packages whose scripts are run, with the directories.
abbrev pub called : Outside → Config → TriggerCtx → List Bytes → Files → List Group
called out cfg tctx names fs = keep (has_script out cfg) (groups_of out cfg tctx names fs)

run_groups-keep :
    (out : Outside) (cfg : Config) (gs : List Group)
    → run_groups out cfg gs ≡ map (command cfg) (keep (has_script out cfg) gs)
unfolding run_groups run_trigger_script
run_groups-keep out cfg [] = refl
run_groups-keep out cfg (g ∷ gs) = elim (Bool-cases (has_script out cfg g)) [
  | inl there ↦
      rw (there, run_groups, run_trigger_script)
        (ap (λ rest. command cfg g ∷ rest) (run_groups-keep out cfg gs))
  | inr gone ↦ rw (gone, run_groups, run_trigger_script) (run_groups-keep out cfg gs)
]

runs_for-has_script :
    (out : Outside) (cfg : Config) (pkg x : Bytes) (g : Group)
    → (runs_for pkg x g && has_script out cfg g)
      ≡ (out.exists (script_of cfg pkg) && runs_for pkg x g)
runs_for-has_script out cfg pkg x g = elim (Bool-cases (str_eq g.pkg pkg)) [
  | inl t ↦
      let same = ap (λ p. out.exists (script_of cfg p)) ((str_eq_iff g.pkg pkg).0 t) in
      ground (arith, t, same)
  | inr f ↦ ground (arith, f)
]

any-kept {ℓ} :
    {A : Type ℓ} (q p : A → Bool) (xs : List A) → any q (keep p xs) ≡ any (λ x. q x && p x) xs
any-kept q p [] = refl
any-kept q p (x ∷ xs) = elim (Bool-cases (p x)) [
  | inl t ↦ rw t (ground (arith, any-kept q p xs))
  | inr f ↦ rw f (ground (arith, any-kept q p xs))
]

runs-has_script :
    (out : Outside) (cfg : Config) (pkg x : Bytes) (gs : List Group)
    → any (λ g. runs_for pkg x g && has_script out cfg g) gs
      ≡ (out.exists (script_of cfg pkg) && any (runs_for pkg x) gs)
runs-has_script out cfg pkg x [] = ground arith
runs-has_script out cfg pkg x (g ∷ gs) =
    ground (arith, runs_for-has_script out cfg pkg x g, runs-has_script out cfg pkg x gs)

holds-packages-keep :
    (q : Bytes) (p : Group → Bool) (gs : List Group)
    → holds q (packages gs) ≡ false
    → holds q (packages (keep p gs)) ≡ false
holds-packages-keep q p [] h = h
holds-packages-keep q p (g ∷ gs) h = elim (Bool-cases (p g)) [
  | inl t ↦ rw t (ground (arith, holds-packages-keep q p gs (ground arith)))
  | inr f ↦ rw f (holds-packages-keep q p gs (ground arith))
]

keep-IsDistinct :
    (p : Group → Bool) (gs : List Group)
    → IsDistinct (packages gs)
    → IsDistinct (packages (keep p gs))
keep-IsDistinct p [] h = tt
keep-IsDistinct p (g ∷ gs) h = elim (Bool-cases (p g)) [
  | inl t ↦ rw t (holds-packages-keep g.pkg p gs h.0, keep-IsDistinct p gs h.1)
  | inr f ↦ rw f (keep-IsDistinct p gs h.1)
]

-- `aept_trigger_run_all` runs the commands of the packages in `called`, in their order. Among these a
-- package is called for a directory exactly if its script is there, some directory was collected, and an
-- entry of that package matches the directory and it was collected, or the package is fresh, the
-- entry is not for changes only and the directory is its pattern and is there. No package is called
-- twice.
pub run_all_lem :
    (out : Outside) (cfg : Config) (tctx : TriggerCtx) (names : List Bytes) (fs : Files)
    → (run_all out cfg tctx names fs ≡ map (command cfg) (called out cfg tctx names fs))
      × ((pkg x : Bytes)
          → any (runs_for pkg x) (called out cfg tctx names fs) ≡ (
              out.exists (script_of cfg pkg)
              && (not (length tctx.dirs == 0)
                  && any (calls_for out cfg tctx pkg x) (load_entries cfg fs names))))
      × IsDistinct (packages (called out cfg tctx names fs))
unfolding run_all
run_all_lem out cfg tctx names fs =
    let gs = groups_of out cfg tctx names fs in
    let (triggered, distinct) = groups_of_triggers out cfg tctx names fs in
    (
      run_groups-keep out cfg gs,
      λ pkg x.
          any-kept (runs_for pkg x) (has_script out cfg) gs
          ∙ runs-has_script out cfg pkg x gs
          ∙ ap (λ b. out.exists (script_of cfg pkg) && b) (triggered pkg x),
      keep-IsDistinct (has_script out cfg) gs distinct,
    )
