-- ===== src/Remove/Attempts.antt =====
-- Which packages the operations of src/remove.c and src/autoremove.c have removed, however they end.
use aept.Base.{
  ℕ, suc, ◌≡◌, refl, ◌⊎◌, inl, inr, Bool, true, false, none, some, List, [], ◌∷◌, arith, Bool-cases,
}
use aept.Text.Strings.{Bytes}
use aept.Files.{success, Code-cases}
use aept.Config.{Config}
use aept.Solver.{Step, is_erase, erase_names}
use aept.Remove.Package.{Outside, World, do_remove}
use aept.Remove.Operation.{
  Progress, Course, going, left, remove_package, remove_steps, remove_candidates, Session, finish,
  beginning, op_remove, remove_unneeded,
}

-- The packages were removed one after the other, and each removal went well.
pub data Removed (out : Outside) (cfg : Config) : List Bytes → World → World → Type 0 where
  nothing : {w : World} → Removed out cfg [] w w
  one_more :
      {name : Bytes} {names : List Bytes} {v w : World}
      → (do_remove out cfg name none none v).0 ≡ success
      → Removed out cfg names (do_remove out cfg name none none v).1 w
      → Removed out cfg (name ∷ names) v w

Course-cases : (c : Course) → ((s : Progress) × (c ≡ going s)) ⊎ ((s : Progress) × (c ≡ left s))
Course-cases (going s) = inl (s, refl)
Course-cases (left s) = inr (s, refl)

-- A package that went on without an error was removed.
remove_package-going :
    (out : Outside) (cfg : Config) (name : Bytes) (s s' : Progress)
    → remove_package out cfg name s ≡ going s'
    → s'.had_error ≡ false
    → (s.had_error ≡ false)
      × ((do_remove out cfg name none none s.world).0 ≡ success)
      × ((do_remove out cfg name none none s.world).1 ≡ s'.world)
unfolding remove_package
remove_package-going out cfg name s s' =
    elim (Code-cases (do_remove out cfg name none none s.world).0) [
      | inl ok ↦ rw (ok, remove_package) (λ h k. (ground arith, refl, ground arith))
      | inr bad ↦ rw (bad, remove_package) (λ h k. absurd (ground arith))
    ]

Removed-more :
    (out : Outside) (cfg : Config) (name : Bytes) (names : List Bytes) (v u w : World)
    → (do_remove out cfg name none none v).0 ≡ success
    → (do_remove out cfg name none none v).1 ≡ u
    → Removed out cfg names u w
    → Removed out cfg (name ∷ names) v w
Removed-more out cfg name names v u w ok e r = one_more ok (rw e r)

-- A loop that ended without an error removed each package in its order.
remove_candidates-Removed :
    (out : Outside) (cfg : Config) (cancelled : ℕ → Bool) (i : ℕ) (names : List Bytes)
    (s s' : Progress)
    → remove_candidates out cfg cancelled i names s ≡ going s'
    → s'.had_error ≡ false
    → (s.had_error ≡ false) × Removed out cfg names s.world s'.world
unfolding remove_candidates
remove_candidates-Removed out cfg cancelled i [] s s' =
    λ h k. let e : s ≡ s' = ground arith in rw e (k, nothing)
remove_candidates-Removed out cfg cancelled i (name ∷ names) s s' =
    elim (Bool-cases (cancelled i)) [
      | inl t ↦ rw (t, remove_candidates) (λ h k. cc)
      | inr f ↦ elim (Course-cases (remove_package out cfg name s)) [
        | inr (u, e) ↦ rw (f, e, remove_candidates) (λ h k. cc)
        | inl (u, e) ↦
            rw (f, e, remove_candidates)
              (λ h k.
                let (clean, rest) =
                  remove_candidates-Removed out cfg cancelled (suc i) names u s' h k in
                let (before, ok, same) = remove_package-going out cfg name s u e clean in
                (before, Removed-more out cfg name names s.world u.world s'.world ok same rest))
      ]
    ]

remove_steps-Removed :
    (out : Outside) (cfg : Config) (cancelled : ℕ → Bool) (i : ℕ) (steps : List Step)
    (s s' : Progress)
    → remove_steps out cfg cancelled i steps s ≡ going s'
    → s'.had_error ≡ false
    → (s.had_error ≡ false) × Removed out cfg (erase_names steps) s.world s'.world
unfolding remove_steps erase_names
remove_steps-Removed out cfg cancelled i [] s s' =
    λ h k. let e : s ≡ s' = ground arith in rw e (k, nothing)
remove_steps-Removed out cfg cancelled i (step ∷ steps) s s' = elim (Bool-cases (cancelled i)) [
  | inl t ↦ rw (t, remove_steps) (λ h k. cc)
  | inr f ↦ elim (Bool-cases (is_erase step.kind)) [
    | inr other ↦
        rw (f, other, remove_steps) (remove_steps-Removed out cfg cancelled (suc i) steps s s')
    | inl erased ↦ elim (Course-cases (remove_package out cfg step.name s)) [
      | inr (u, e) ↦ rw (f, erased, e, remove_steps) (λ h k. cc)
      | inl (u, e) ↦
          rw (f, erased, e, remove_steps)
            (λ h k.
              let (clean, rest) = remove_steps-Removed out cfg cancelled (suc i) steps u s' h k in
              let (before, ok, same) = remove_package-going out cfg step.name s u e clean in
              (
                before,
                Removed-more out cfg step.name (erase_names steps) s.world u.world s'.world ok same
                    rest,
              ))
    ]
  ]
]

-- What becomes of a loop in the outcome.
finish-Removed :
    (out : Outside) (ses : Session) (cfg : Config) (names : List Bytes) (c : Course) (w : World)
    → ((s' : Progress) → c ≡ going s' → s'.had_error ≡ false → Removed out cfg names w s'.world)
    → (finish ses cfg c).code ≡ success
    → Removed out cfg names w (finish ses cfg c).world
unfolding finish
finish-Removed out ses cfg names (left s) w h k = cc
finish-Removed out ses cfg names (going s) w h k = h s refl (ground arith)

op_remove-runs :
    (out : Outside) (ses : Session) (cfg : Config) (s : Step) (ss : List Step) (count : ℕ)
    (w : World)
    → cfg.noaction ≡ false
    → ses.confirmed ≡ true
    → op_remove out ses cfg (some (s ∷ ss)) count w
      ≡ finish ses cfg (remove_steps out cfg ses.cancelled 0 (s ∷ ss) (beginning w))
unfolding op_remove
op_remove-runs out ses cfg s ss count w live confirmed = ground arith

-- A run of `aept_op_remove` that is no dry run, was confirmed, and reports success has removed each
-- package that the transaction erases, one after the other, each removal a success.
pub op_remove-Removed :
    (out : Outside) (ses : Session) (cfg : Config) (steps : List Step) (count : ℕ) (w : World)
    → cfg.noaction ≡ false
    → ses.confirmed ≡ true
    → (op_remove out ses cfg (some steps) count w).code ≡ success
    → Removed out cfg (erase_names steps) w (op_remove out ses cfg (some steps) count w).world
op_remove-Removed out ses cfg [] count w live confirmed =
    unfold op_remove erase_names in (λ h. nothing)
op_remove-Removed out ses cfg (s ∷ ss) count w live confirmed =
    rw (op_remove-runs out ses cfg s ss count w live confirmed) (
      finish-Removed out ses cfg (erase_names (s ∷ ss))
        (remove_steps out cfg ses.cancelled 0 (s ∷ ss) (beginning w)) w
        (λ s' e clean.
          (remove_steps-Removed out cfg ses.cancelled 0 (s ∷ ss) (beginning w) s' e clean).1))

remove_unneeded-runs :
    (out : Outside) (ses : Session) (cfg : Config) (n : Bytes) (ns : List Bytes) (w : World)
    → cfg.noaction ≡ false
    → ses.confirmed ≡ true
    → remove_unneeded out ses cfg (n ∷ ns) w
      ≡ finish ses cfg (remove_candidates out cfg ses.cancelled 0 (n ∷ ns) (beginning w))
unfolding remove_unneeded
remove_unneeded-runs out ses cfg n ns w live confirmed = ground arith

-- So has a run of `aept_op_autoremove` with each of its candidates.
pub remove_unneeded-Removed :
    (out : Outside) (ses : Session) (cfg : Config) (names : List Bytes) (w : World)
    → cfg.noaction ≡ false
    → ses.confirmed ≡ true
    → (remove_unneeded out ses cfg names w).code ≡ success
    → Removed out cfg names w (remove_unneeded out ses cfg names w).world
remove_unneeded-Removed out ses cfg [] w live confirmed = unfold remove_unneeded in (λ h. nothing)
remove_unneeded-Removed out ses cfg (n ∷ ns) w live confirmed =
    rw (remove_unneeded-runs out ses cfg n ns w live confirmed) (
      finish-Removed out ses cfg (n ∷ ns)
        (remove_candidates out cfg ses.cancelled 0 (n ∷ ns) (beginning w)) w
        (λ s' e clean.
          (remove_candidates-Removed out cfg ses.cancelled 0 (n ∷ ns) (beginning w) s' e clean).1))
