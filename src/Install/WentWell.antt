-- ===== src/Install/WentWell.antt =====
-- What a step of src/install.c has done when it went well.
use mathlib.Core.Path.{subst}
use aept.Base.{
  ◌≡◌, ◌≢◌, refl, ap, sym, ◌∙◌, ◌⊎◌, inl, inr, Bool, true, false, ◌||◌, Option, none, some, arith,
  Bool-cases, Option-cases,
}
use aept.Files.{FilePath, success, Code-cases}
use aept.Config.{Config}
use aept.Process.{is_negative}
use aept.Solver.{Step, is_erase, is_install, is_old_version}
use aept.Remove.Package.{do_remove}
use aept.Install.Operation.{
  Operation, Progress, Course, going, left, place, erase_step, install_step, install_from,
  sort_installed,
}
use aept.Install.Transaction.{take_step}
use aept.Install.Failures.{GoesOn, Stops, install_step-policy}

-- The package of a step of the class INSTALL and what is there when it is placed: a local file; or, with
-- `no_cache`, what is downloaded now; or what was downloaded before for this step.
pub data Taken (op : Operation) (cfg : Config) (cached : Option FilePath) (step : Step)
    (s : Progress) : Bool → FilePath → Progress → Type 0 where
  local_file :
      {ipk : FilePath}
      → op.pool.commandline step.id ≡ some ipk
      → Taken op cfg cached step s true ipk s
  downloaded_now :
      {ipk : FilePath}
      → op.pool.commandline step.id ≡ none
      → cfg.no_cache ≡ true
      → (op.download step.id s.world.files).0 ≡ some ipk
      → Taken op cfg cached step s false ipk (record s {
        world = record { files = (op.download step.id s.world.files).1; owners = s.world.owners };
      })
  downloaded_before :
      {ipk : FilePath}
      → op.pool.commandline step.id ≡ none
      → cfg.no_cache ≡ false
      → cached ≡ some ipk
      → Taken op cfg cached step s false ipk s

-- The step went well: an old version that an upgrade replaces was passed over, a package that is erased
-- for good was removed, the package of a step of the class INSTALL was placed and gave no negative
-- result, and any other step did nothing.
pub data WentWell (op : Operation) (cfg : Config) (cached : Option FilePath) (step : Step)
    (s : Progress) : Progress → Type 0 where
  replaced :
      is_erase step.kind ≡ true → is_old_version step.kind ≡ true → WentWell op cfg cached step s s
  removed :
      {t : Progress}
      → is_erase step.kind ≡ true
      → is_old_version step.kind ≡ false
      → (do_remove op.removal cfg step.name none
          (some (sort_installed s).installed)
          (sort_installed s).world).0
        ≡ success
      → erase_step op cfg step s ≡ going t
      → WentWell op cfg cached step s t
  placed :
      {is_local : Bool} {ipk : FilePath} {ready t : Progress}
      → is_erase step.kind ≡ false
      → is_install step.kind ≡ true
      → Taken op cfg cached step s is_local ipk ready
      → is_negative (place op cfg ipk step ready).0 ≡ false
      → install_step op cfg is_local ipk step ready ≡ going t
      → WentWell op cfg cached step s t
  neither :
      is_erase step.kind ≡ false → is_install step.kind ≡ false → WentWell op cfg cached step s s

pub Course-cases : (c : Course) → ((s : Progress) × (c ≡ going s)) ⊎ ((s : Progress) × (c ≡ left s))
Course-cases (going s) = inl (s, refl)
Course-cases (left s) = inr (s, refl)

erase_step-going :
    (op : Operation) (cfg : Config) (step : Step) (s t : Progress)
    → erase_step op cfg step s ≡ going t
    → t.had_error ≡ false
    → (s.had_error ≡ false)
      × ((do_remove op.removal cfg step.name none
            (some (sort_installed s).installed)
            (sort_installed s).world).0
          ≡ success)
unfolding erase_step
erase_step-going op cfg step s t =
    elim (Code-cases
      (do_remove op.removal cfg step.name none (some (sort_installed s).installed)
        (sort_installed s).world).0) [
          | inl ok ↦ rw (ok, erase_step) (λ h k. (ground arith, refl))
          | inr bad ↦ rw (bad, erase_step) (λ h k. absurd (ground arith))
        ]

install_step-going :
    (op : Operation) (cfg : Config) (is_local : Bool) (ipk : FilePath) (step : Step)
    (s t : Progress)
    → install_step op cfg is_local ipk step s ≡ going t
    → t.had_error ≡ false
    → (s.had_error ≡ false) × (is_negative (place op cfg ipk step s).0 ≡ false)
install_step-going op cfg is_local ipk step s t h k =
    from (install_step-policy op cfg is_local ipk step s)
  where
    from :
        GoesOn op cfg is_local ipk step s ⊎ Stops op cfg is_local ipk step s
        → (s.had_error ≡ false) × (is_negative (place op cfg ipk step s).0 ≡ false)
    from (inl (u, e, flag)) =
        let same : u ≡ t = (let x = sym e ∙ h in cc) in
        let clean : (s.had_error || is_negative (place op cfg ipk step s).0) ≡ false =
          sym flag ∙ ap (λ p. p.had_error) same ∙ k in
        (ground arith, ground arith)
    from (inr (u, e, n, kg)) = absurd (let x = sym e ∙ h in cc)

-- A step of the class INSTALL that is not left places its package, unless it is passed over for want of
-- a path.
install_from-Taken :
    (op : Operation) (cfg : Config) (cached : Option FilePath) (step : Step) (s t : Progress)
    → (cfg.no_cache ≡ false → op.pool.commandline step.id ≡ none → cached ≢ none)
    → install_from op cfg cached step s ≡ going t
    → (is_local : Bool) × (ipk : FilePath) × (ready : Progress) × Taken op cfg cached step s
        is_local ipk ready
      × (install_step op cfg is_local ipk step ready ≡ going t)
      × (ready.had_error ≡ s.had_error)
unfolding install_from
install_from-Taken op cfg cached step s t supplied h =
    elim (Option-cases (op.pool.commandline step.id)) [
      | inr (path, local) ↦
          let run : install_step op cfg true path step s ≡ going t = ground arith in
          (true, path, s, local_file local, run, refl)
      | inl far ↦ elim (Bool-cases cfg.no_cache) [
        | inl fetch ↦
            let ready = record s {
              world = record {
                files = (op.download step.id s.world.files).1;
                owners = s.world.owners;
              };
            } in
            elim (Option-cases (op.download step.id s.world.files).0) [
              | inl gone ↦ absurd (let e : left ready ≡ going t = ground arith in cc)
              | inr (path, got) ↦
                  let run : install_step op cfg false path step ready ≡ going t = ground arith in
                  (false, path, ready, downloaded_now far fetch got, run, refl)
            ]
        | inr kept ↦ elim (Option-cases cached) [
          | inl gone ↦ absurd (supplied kept far gone)
          | inr (path, got) ↦
              let run : install_step op cfg false path step s ≡ going t = ground arith in
              (false, path, s, downloaded_before far kept got, run, refl)
        ]
      ]
    ]

pub take_step-going :
    (op : Operation) (cfg : Config) (cached : Option FilePath) (step : Step) (s t : Progress)
    → (cfg.no_cache ≡ false
        → is_install step.kind ≡ true
        → op.pool.commandline step.id ≡ none
        → cached ≢ none)
    → take_step op cfg cached step s ≡ going t
    → t.had_error ≡ false
    → (s.had_error ≡ false) × WentWell op cfg cached step s t
unfolding take_step
take_step-going op cfg cached step s t supplied = elim (Bool-cases (is_erase step.kind)) [
  | inl erased ↦ elim (Bool-cases (is_old_version step.kind)) [
    | inl old ↦ λ h k.
        let same : s ≡ t = ground arith in
        (
          ap (λ p. p.had_error) same ∙ k,
          subst (WentWell op cfg cached step s) same (replaced erased old),
        )
    | inr gone ↦ λ h k.
        let run : erase_step op cfg step s ≡ going t = ground arith in
        let (clean, ok) = erase_step-going op cfg step s t run k in
        (clean, removed erased gone ok run)
  ]
  | inr kept ↦ elim (Bool-cases (is_install step.kind)) [
    | inl new ↦ λ h k.
        let run : install_from op cfg cached step s ≡ going t = ground arith in
        let (is_local, ipk, ready, taken, put, same) =
          install_from-Taken op cfg cached step s t (λ x. supplied x new) run in
        let (clean, well) = install_step-going op cfg is_local ipk step ready t put k in
        (sym same ∙ clean, placed kept new taken well put)
    | inr other ↦ λ h k.
        let same : s ≡ t = ground arith in
        (
          ap (λ p. p.had_error) same ∙ k,
          subst (WentWell op cfg cached step s) same (neither kept other),
        )
  ]
]
