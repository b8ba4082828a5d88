-- ===== src/Install/Display.antt =====
-- What libsolv says of the packages, and `display_transaction` of src/install.c.
use aept.Base.{
  ℕ, ◌+◌, Bool, not, ◌&&◌, ◌||◌, Option, none, some, List, [], ◌∷◌, ltb, if◌then◌else◌, length, any,
}
use aept.Text.Strings.{Bytes, str_eq}
use aept.Files.{FilePath}
use aept.Solver.{
  Step, erase, reinstalled, downgraded, upgraded, install, reinstall, downgrade, upgrade, other,
  is_install,
}
use aept.Clash.{Solvable}

-- What libsolv's pool says: the packages of the installed repository with their versions, in their
-- order; the solvables that provide a name; each solvable's name, version and what it replaces; the
-- path of one that came from a local file; the one that a name is found as in the repositories; and
-- the package that a step replaces.
pub record Pool : Type 0 where
  pub installed : List (Bytes × Bytes)
  pub providers : Bytes → List ℕ
  pub is_installed : ℕ → Bool
  pub solvable : ℕ → Solvable
  pub evr : ℕ → Bytes
  pub commandline : ℕ → Option FilePath
  pub find_available : Bytes → Option ℕ
  pub obs_pkg : ℕ → Option ℕ

-- `installed_version`: the version of the first installed package of the name.
unfoldable pub installed_version : List (Bytes × Bytes) → Bytes → Option Bytes
installed_version [] name = none
installed_version ((n, evr) ∷ ps) name =
    let rest = installed_version ps name in if str_eq n name then some evr else rest

unfoldable pub name_in_transaction : Bytes → List Step → Bool
name_in_transaction name = any (λ s. is_install s.kind && str_eq s.name name)

-- The names that are shown, by what is done to them.
pub record Shown : Type 0 where
  pub installs : List Bytes
  pub upgrades : List Bytes
  pub erases : List Bytes
  pub reinstalls : List Bytes

unfoldable pub show_step : Step → Shown → Shown
show_step s t = elim s.kind [
  | reinstall ↦ record t { reinstalls = s.name ∷ t.reinstalls }
  | upgrade ↦ record t { upgrades = s.name ∷ t.upgrades }
  | downgrade ↦ record t { upgrades = s.name ∷ t.upgrades }
  | install ↦ record t { installs = s.name ∷ t.installs }
  | erase ↦ record t { erases = s.name ∷ t.erases }
  | reinstalled ↦ t
  | downgraded ↦ t
  | upgraded ↦ t
  | other ↦ t
]

-- The loop over the steps.
unfoldable pub show_steps : List Step → Shown
show_steps [] = record { installs = []; upgrades = []; erases = []; reinstalls = [] }
show_steps (s ∷ ss) = show_step s (show_steps ss)

-- The results 1, 0 and -1 of `display_transaction`.
pub data Display : Type 0 where
  nothing_to_do accepted declined : Display

-- Whether the user is asked.
abbrev pub must_confirm : Shown → ℕ → Bool
must_confirm t user_count =
    ltb 0 (length t.erases)
    || (ltb 0 user_count && ltb user_count (length t.installs + length t.upgrades))

-- `confirmed` is the answer of `aept_confirm_continue`; the names to reinstall are shown too.
unfoldable pub display_transaction : Bool → List Step → List Bytes → ℕ → Display
display_transaction confirmed [] [] user_count = nothing_to_do
display_transaction confirmed [] (n ∷ ns) user_count = accepted
display_transaction confirmed (s ∷ ss) ri_names user_count =
    if must_confirm (show_steps (s ∷ ss)) user_count && not confirmed then declined else accepted
