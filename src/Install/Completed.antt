-- ===== src/Install/Completed.antt =====
-- What a successful run of the loop over the steps of src/install.c has done.
use mathlib.Core.Path.{subst}
use aept.Base.{
  ℕ, suc, ◌≡◌, ◌≢◌, refl, ap, ◌∙◌, inl, inr, Bool, true, false, ◌||◌, Option, none, List, [], ◌∷◌,
  arith, Bool-cases, if◌then◌else◌,
}
use aept.Files.{FilePath, Files, success, failure}
use aept.Config.{Config}
use aept.Solver.{Step, is_install}
use aept.Install.Operation.{Operation, Progress, going, left}
use aept.Install.Transaction.{
  head_path, tail_paths, take_step, execute, finish, Session, beginning, carry_through,
}
use aept.Install.WentWell.{WentWell, Course-cases, take_step-going}

-- One step after the other went well, each with the path in its place.
pub data Completed (op : Operation) (cfg : Config)
    : List (Option FilePath) → List Step → Progress → Progress → Type 0 where
  all_done : {paths : List (Option FilePath)} {s : Progress} → Completed op cfg paths [] s s
  one_step :
      {paths : List (Option FilePath)} {step : Step} {steps : List Step} {s t u : Progress}
      → WentWell op cfg (head_path paths) step s t
      → Completed op cfg (tail_paths paths) steps t u
      → Completed op cfg paths (step ∷ steps) s u

-- Where packages are kept, each step of the class INSTALL that has no local file has a path.
abbrev pub Supplied : Operation → Config → List (Option FilePath) → List Step → Type 0
Supplied op cfg paths [] = Unit
Supplied op cfg paths (step ∷ steps) =
    (cfg.no_cache ≡ false
      → is_install step.kind ≡ true
      → op.pool.commandline step.id ≡ none
      → head_path paths ≢ none)
    × Supplied op cfg (tail_paths paths) steps

execute-Completed :
    (op : Operation) (cfg : Config) (cancelled : ℕ → Bool) (i : ℕ) (paths : List (Option FilePath))
    (steps : List Step) (s t : Progress)
    → Supplied op cfg paths steps
    → execute op cfg cancelled i paths steps s ≡ going t
    → t.had_error ≡ false
    → (s.had_error ≡ false) × Completed op cfg paths steps s t
unfolding execute
execute-Completed op cfg cancelled i paths [] s t supplied = λ h k.
    let same : s ≡ t = ground arith in
    (ap (λ p. p.had_error) same ∙ k, subst (Completed op cfg paths [] s) same all_done)
execute-Completed op cfg cancelled i paths (step ∷ steps) s t supplied =
    elim (Bool-cases (cancelled i)) [
      | inl stop ↦ rw (stop, execute) (λ h k. cc)
      | inr on ↦ elim (Course-cases (take_step op cfg (head_path paths) step s)) [
        | inr (u, e) ↦ rw (on, e, execute) (λ h k. cc)
        | inl (u, e) ↦
            rw (on, e, execute)
              (λ h k.
                let (clean, rest) =
                  execute-Completed op cfg cancelled (suc i) (tail_paths paths) steps u t supplied.1
                    h k in
                let (before, well) =
                  take_step-going op cfg (head_path paths) step s u supplied.0 e clean in
                (before, one_step well rest))
      ]
    ]

finish_left :
    (op : Operation) (ses : Session) (cfg : Config) (steps : List Step) (s : Progress)
    → (finish op ses cfg steps (left s)).code ≡ success
    → ⊥
unfolding finish
finish_left op ses cfg steps s h = cc

if_success : (a b : Bool) → (if a || b then failure else success) ≡ success → a ≡ false
if_success true b h = cc
if_success false b h = refl

finish_going :
    (op : Operation) (ses : Session) (cfg : Config) (steps : List Step) (s : Progress)
    → (finish op ses cfg steps (going s)).code ≡ success
    → s.had_error ≡ false
unfolding finish
finish_going op ses cfg steps s h = if_success s.had_error _ h

pub carry_through-Completed :
    (op : Operation) (ses : Session) (cfg : Config) (steps : List Step)
    (paths : List (Option FilePath)) (fs : Files)
    → Supplied op cfg paths steps
    → (carry_through op ses cfg steps paths fs).code ≡ success
    → (t : Progress) × Completed op cfg paths steps (beginning ses cfg fs) t
      × (carry_through op ses cfg steps paths fs ≡ finish op ses cfg steps (going t))
unfolding carry_through
carry_through-Completed op ses cfg steps paths fs supplied =
    elim (Course-cases (execute op cfg ses.cancelled 0 paths steps (beginning ses cfg fs))) [
      | inr (u, e) ↦ rw (e, carry_through) (λ h. absurd (finish_left op ses cfg steps u h))
      | inl (u, e) ↦
          rw (e, carry_through)
            (λ h. (
              u,
              (execute-Completed op cfg ses.cancelled 0 paths steps (beginning ses cfg fs) u
                  supplied e (finish_going op ses cfg steps u h)).1,
              refl,
            ))
    ]
