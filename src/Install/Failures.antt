-- ===== src/Install/Failures.antt =====
-- How failures of a package become the result of the transaction in src/install.c.
use aept.Base.{
  ◌≡◌, refl, ap, ◌∙◌, ◌⊎◌, inl, inr, Bool, true, false, not, ◌&&◌, ◌||◌, Option, none, some, arith,
  Bool-cases, if◌then◌else◌,
}
use aept.Text.Strings.{Bytes}
use aept.Files.{FilePath}
use aept.Config.{Config}
use aept.Process.{is_negative}
use aept.Solver.{Step}
use aept.Remove.{list_path}
use aept.Install.Operation.{
  add_list, mark_fresh, replaces_old, upgrade_step, Operation, Progress, going, left, place,
  fresh_step, install_step, drop_package, note_fresh,
}

add_list-had_error : (o : Option Bytes) (s : Progress) → (add_list o s).had_error ≡ s.had_error
unfolding add_list
add_list-had_error none s = refl
add_list-had_error (some text) s = refl

-- What follows the placing of a package leaves the flag as it is.
after_place : (op : Operation) → Config → Bool → FilePath → Step → Progress → Progress
after_place op cfg is_local ipk step u =
    drop_package cfg is_local ipk (if replaces_old step.kind then u else note_fresh op cfg step u)

after_place-had_error :
    (op : Operation) (cfg : Config) (is_local : Bool) (ipk : FilePath) (step : Step) (u : Progress)
    → (after_place op cfg is_local ipk step u).had_error ≡ u.had_error
unfolding after_place note_fresh
after_place-had_error op cfg is_local ipk step u =
    elim (Bool-cases (cfg.no_cache && not is_local)) [ inl t ↦ rw t noted | inr f ↦ rw f noted ]
  where
    noted : (if replaces_old step.kind then u else note_fresh op cfg step u).had_error ≡ u.had_error
    noted = elim (Bool-cases (replaces_old step.kind)) [
      | inl t ↦ rw t refl
      | inr f ↦ rw f (
          add_list-had_error (mark_fresh op cfg step u.world.files (list_path cfg step.name))
            (record u {
              world = record {
                files = mark_fresh op cfg step u.world.files;
                owners = u.world.owners;
              };
            }))
    ]

pub place-had_error :
    (op : Operation) (cfg : Config) (ipk : FilePath) (step : Step) (s : Progress)
    → (place op cfg ipk step s).1.had_error ≡ s.had_error
unfolding place upgrade_step fresh_step
place-had_error op cfg ipk step s = elim (Bool-cases (replaces_old step.kind)) [
  | inl t ↦ rw t (ground arith)
  | inr f ↦ rw f refl
]

-- A step goes on exactly if its result is not negative or errors are to be passed over, and the flag
-- then tells whether there was an error so far.
abbrev pub GoesOn : Operation → Config → Bool → FilePath → Step → Progress → Type 0
GoesOn op cfg is_local ipk step s =
    (u : Progress) × (install_step op cfg is_local ipk step s ≡ going u)
    × (u.had_error ≡ (s.had_error || is_negative (place op cfg ipk step s).0))

abbrev pub Stops : Operation → Config → Bool → FilePath → Step → Progress → Type 0
Stops op cfg is_local ipk step s =
    (u : Progress) × (install_step op cfg is_local ipk step s ≡ left u)
    × (is_negative (place op cfg ipk step s).0 ≡ true)
    × (cfg.keep_going ≡ false)

pub install_step-policy :
    (op : Operation) (cfg : Config) (is_local : Bool) (ipk : FilePath) (step : Step) (s : Progress)
    → GoesOn op cfg is_local ipk step s ⊎ Stops op cfg is_local ipk step s
unfolding install_step after_place
install_step-policy op cfg is_local ipk step s =
    let (r, t) = place op cfg ipk step s in
    let u = record t { had_error = t.had_error || is_negative r } in
    let flag : u.had_error ≡ (s.had_error || is_negative r) =
      ap (λ b. b || is_negative r) (place-had_error op cfg ipk step s) in
    elim (Bool-cases (is_negative r && not cfg.keep_going)) [
      | inl t ↦
          let e : install_step op cfg is_local ipk step s ≡ left u = ground arith in
          inr (u, e, ground arith, ground arith)
      | inr f ↦
          let e : install_step op cfg is_local ipk step s
              ≡ going (after_place op cfg is_local ipk step u) =
            ground arith in
          inl (
            after_place op cfg is_local ipk step u,
            e,
            after_place-had_error op cfg is_local ipk step u ∙ flag,
          )
    ]
