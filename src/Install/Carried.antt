-- ===== src/Install/Carried.antt =====
-- The download phase of src/install.c, and what it and the loop over the steps have done together.
use mathlib.Core.Path.{subst}
use aept.Base.{
  ℕ, suc, ◌≡◌, refl, sym, ap, ◌∙◌, inl, inr, Bool, true, false, Option, none, some, List, [], ◌∷◌,
  arith, Bool-cases, Option-cases,
}
use aept.Files.{FilePath, Files, success, failure}
use aept.Config.{Config}
use aept.Solver.{Step, is_install}
use aept.Install.Operation.{Operation, Progress, going}
use aept.Install.Transaction.{
  in_front, download_all, finish, Session, Outcome, beginning, carry_through,
  download_and_carry_through,
}
use aept.Install.Completed.{Completed, Supplied, carry_through-Completed}

-- The packages were downloaded in the order of their steps, each into the files that the one before left;
-- a path stands in the place of its step, and is that of the local file, or of what was downloaded.
pub data Fetched (op : Operation)
    : List Step → List (Option FilePath) → Files → Files → Type 0 where
  none_left : {fs : Files} → Fetched op [] [] fs fs
  not_placed :
      {step : Step} {steps : List Step} {paths : List (Option FilePath)} {fs after : Files}
      → is_install step.kind ≡ false
      → Fetched op steps paths fs after
      → Fetched op (step ∷ steps) (none ∷ paths) fs after
  local_file :
      {step : Step} {steps : List Step} {path : FilePath} {paths : List (Option FilePath)}
      {fs after : Files}
      → is_install step.kind ≡ true
      → op.pool.commandline step.id ≡ some path
      → Fetched op steps paths fs after
      → Fetched op (step ∷ steps) (some path ∷ paths) fs after
  downloaded :
      {step : Step} {steps : List Step} {path : FilePath} {paths : List (Option FilePath)}
      {fs after : Files}
      → is_install step.kind ≡ true
      → op.pool.commandline step.id ≡ none
      → (op.download step.id fs).0 ≡ some path
      → Fetched op steps paths (op.download step.id fs).1 after
      → Fetched op (step ∷ steps) (some path ∷ paths) fs after

in_front-some :
    (p : Option FilePath) (got : Option (List (Option FilePath))) (paths : List (Option FilePath))
    → in_front p got ≡ some paths
    → (ps : List (Option FilePath)) × (got ≡ some ps) × (p ∷ ps ≡ paths)
in_front-some p none paths h = cc
in_front-some p (some ps) paths h = (ps, refl, cc)

download_all-Fetched :
    (op : Operation) (cancelled : ℕ → Bool) (i : ℕ) (steps : List Step) (fs : Files)
    (paths : List (Option FilePath))
    → (download_all op cancelled i steps fs).0 ≡ some paths
    → Fetched op steps paths fs (download_all op cancelled i steps fs).1
unfolding download_all
download_all-Fetched op cancelled i [] fs paths =
    λ h. let same : [] ≡ paths = cc in subst (λ ps. Fetched op [] ps fs fs) same none_left
download_all-Fetched op cancelled i (step ∷ steps) fs paths = elim (Bool-cases (cancelled i)) [
  | inl stop ↦ rw (stop, download_all) (λ h. cc)
  | inr on ↦ elim (Bool-cases (is_install step.kind)) [
    | inr other ↦
        rw (on, other, download_all)
          (λ h.
            let (ps, got, same) = in_front-some none _ paths h in
            let after = (download_all op cancelled (suc i) steps fs).1 in
            subst (λ x. Fetched op (step ∷ steps) x fs after) same
              (not_placed other (download_all-Fetched op cancelled (suc i) steps fs ps got)))
    | inl new ↦ elim (Option-cases (op.pool.commandline step.id)) [
      | inr (path, here) ↦
          rw (on, new, here, download_all)
            (λ h.
              let (ps, got, same) = in_front-some (some path) _ paths h in
              let after = (download_all op cancelled (suc i) steps fs).1 in
              subst (λ x. Fetched op (step ∷ steps) x fs after) same
                (local_file new here (download_all-Fetched op cancelled (suc i) steps fs ps got)))
      | inl far ↦ elim (Option-cases (op.download step.id fs).0) [
        | inl gone ↦ rw (on, new, far, gone, download_all) (λ h. cc)
        | inr (path, fetched) ↦
            rw (on, new, far, fetched, download_all)
              (λ h.
                let mid = (op.download step.id fs).1 in
                let (ps, got, same) = in_front-some (some path) _ paths h in
                let after = (download_all op cancelled (suc i) steps mid).1 in
                subst (λ x. Fetched op (step ∷ steps) x fs after) same
                  (downloaded new far fetched
                    (download_all-Fetched op cancelled (suc i) steps mid ps got)))
      ]
    ]
  ]
]

Fetched-Supplied :
    (op : Operation) (cfg : Config) {steps : List Step} {paths : List (Option FilePath)}
    {fs after : Files}
    → Fetched op steps paths fs after
    → Supplied op cfg paths steps
Fetched-Supplied op cfg none_left = tt
Fetched-Supplied op cfg (not_placed other rest) =
    (λ a b c. absurd (let x = sym other ∙ b in cc), Fetched-Supplied op cfg rest)
Fetched-Supplied op cfg (local_file new here rest) =
    (λ a b c. λ e. cc, Fetched-Supplied op cfg rest)
Fetched-Supplied op cfg (downloaded new far got rest) =
    (λ a b c. λ e. cc, Fetched-Supplied op cfg rest)

no_cache-Supplied :
    (op : Operation) (cfg : Config) (paths : List (Option FilePath)) (steps : List Step)
    → cfg.no_cache ≡ true
    → Supplied op cfg paths steps
no_cache-Supplied op cfg paths [] t = tt
no_cache-Supplied op cfg paths (step ∷ steps) t =
    (λ f b c. absurd (let x = sym t ∙ f in cc), no_cache-Supplied op cfg _ steps t)

-- The paths and the files that the loop over the steps starts with: none and those of before where no
-- package is to be kept, and otherwise those of the download phase.
pub data Prepared (op : Operation) (cfg : Config) (steps : List Step) (fs : Files)
    : List (Option FilePath) → Files → Type 0 where
  nothing_kept : cfg.no_cache ≡ true → Prepared op cfg steps fs [] fs
  all_kept :
      {paths : List (Option FilePath)} {after : Files}
      → cfg.no_cache ≡ false
      → Fetched op steps paths fs after
      → Prepared op cfg steps fs paths after

-- The outcome of a transaction whose steps all went well, from the paths and the files that the
-- download phase left.
pub record WasCarriedOut (op : Operation) (ses : Session) (cfg : Config) (steps : List Step)
    (fs : Files) (o : Outcome) : Type 0 where
  pub paths : List (Option FilePath)
  pub after : Files
  pub last : Progress
  pub prepared : Prepared op cfg steps fs paths after
  pub completed : Completed op cfg paths steps (beginning ses cfg after) last
  pub outcome : o ≡ finish op ses cfg steps (going last)

download_and_carry_through-dropped :
    (op : Operation) (ses : Session) (cfg : Config) (steps : List Step) (fs : Files)
    → cfg.no_cache ≡ true
    → download_and_carry_through op ses cfg steps fs ≡ carry_through op ses cfg steps [] fs
unfolding download_and_carry_through
download_and_carry_through-dropped op ses cfg steps fs dropped = ground arith

download_and_carry_through-none :
    (op : Operation) (ses : Session) (cfg : Config) (steps : List Step) (fs : Files)
    → cfg.no_cache ≡ false
    → (download_all op ses.stop_download 0 steps fs).0 ≡ none
    → (download_and_carry_through op ses cfg steps fs).code ≡ failure
unfolding download_and_carry_through
download_and_carry_through-none op ses cfg steps fs kept gone = ground arith

download_and_carry_through-some :
    (op : Operation) (ses : Session) (cfg : Config) (steps : List Step) (fs : Files)
    (paths : List (Option FilePath))
    → cfg.no_cache ≡ false
    → cfg.download_only ≡ false
    → (download_all op ses.stop_download 0 steps fs).0 ≡ some paths
    → download_and_carry_through op ses cfg steps fs
      ≡ carry_through op ses cfg steps paths (download_all op ses.stop_download 0 steps fs).1
unfolding download_and_carry_through
download_and_carry_through-some op ses cfg steps fs paths kept both there = ground arith

-- If a transaction that is not for downloads only reports success, then: unless packages are not to be
-- kept, the package of each step of the class INSTALL that has no local file was downloaded first; it
-- went through all steps in their order; each package that is erased for good was removed; for each step
-- of the class INSTALL the local file, what was downloaded for that very step, or, where packages are
-- not to be kept, what is downloaded in its turn was placed and gave no negative result; and the
-- outcome is that of the triggers and reinstallations behind the last of these steps.
pub download_and_carry_through-WasCarriedOut :
    (op : Operation) (ses : Session) (cfg : Config) (steps : List Step) (fs : Files)
    → cfg.download_only ≡ false
    → (download_and_carry_through op ses cfg steps fs).code ≡ success
    → WasCarriedOut op ses cfg steps fs (download_and_carry_through op ses cfg steps fs)
download_and_carry_through-WasCarriedOut op ses cfg steps fs both h =
    elim (Bool-cases cfg.no_cache) [
      | inl dropped ↦
          let same = download_and_carry_through-dropped op ses cfg steps fs dropped in
          let (t, completed, outcome) =
            carry_through-Completed op ses cfg steps [] fs
              (no_cache-Supplied op cfg [] steps dropped) (sym (ap (λ o. o.code) same) ∙ h) in
          record {
            paths = [];
            after = fs;
            last = t;
            prepared = nothing_kept dropped;
            completed = completed;
            outcome = same ∙ outcome;
          }
      | inr kept ↦
          let got = download_all op ses.stop_download 0 steps fs in
          elim (Option-cases got.0) [
            | inl gone ↦
                let failed = download_and_carry_through-none op ses cfg steps fs kept gone in
                absurd (let x = sym failed ∙ h in cc)
            | inr (ps, there) ↦
                let same = download_and_carry_through-some op ses cfg steps fs ps kept both there in
                let fetched = download_all-Fetched op ses.stop_download 0 steps fs ps there in
                let (t, completed, outcome) =
                  carry_through-Completed op ses cfg steps ps got.1
                    (Fetched-Supplied op cfg fetched) (sym (ap (λ o. o.code) same) ∙ h) in
                record {
                  paths = ps;
                  after = got.1;
                  last = t;
                  prepared = all_kept kept fetched;
                  completed = completed;
                  outcome = same ∙ outcome;
                }
          ]
    ]
