-- ===== src/Solver/Jobs.antt =====
-- What src/solver.c asks libsolv for: the jobs of an installation and of a removal, and the newest
-- version of a package that a repository has.
use aept.Base.{
  ℕ, Bool, true, false, ◌&&◌, Option, none, some, List, [], ◌∷◌, ◌++◌, if◌then◌else◌, map,
}
use aept.Text.Strings.{Bytes}
use aept.Pin.{PinEntry, find_pin_version}

-- What libsolv's pool says: the id of a string that it holds; the id of a string, which is entered if
-- need be; the solvables that provide a name; whether one is installed; its version; and the comparison
-- of versions: whether the first is older than the second, and whether they are the same.
pub record Pool : Type 0 where
  pub str2id : Bytes → Option ℕ
  pub make_id : Bytes → ℕ
  pub providers : ℕ → List ℕ
  pub is_installed : ℕ → Bool
  pub evr : ℕ → Bytes
  pub older : Bytes → Bytes → Bool
  pub same : Bytes → Bytes → Bool

pub data Job : Type 0 where
  update_all : Job
  lock_name install_solvable install_provides erase_provides : ℕ → Job

-- The pinned packages whose names the pool holds are locked.
unfoldable pub lock_jobs : Pool → List PinEntry → List Job
lock_jobs pool [] = []
lock_jobs pool (pin ∷ pins) =
    let rest = lock_jobs pool pins in
    elim (pool.str2id pin.name) [ none ↦ rest | some id ↦ lock_name id ∷ rest ]

-- The first solvable of a repository that has the pinned version.
unfoldable pub find_target : Pool → Bytes → List ℕ → Option ℕ
find_target pool version [] = none
find_target pool version (p ∷ ps) =
    let rest = find_target pool version ps in
    if pool.is_installed p then rest else if pool.same (pool.evr p) version then some p else rest

unfoldable pub pinned_target : Pool → Bytes → Bytes → Option ℕ
pinned_target pool name version = elim (pool.str2id name) [
  | none ↦ none
  | some id ↦ find_target pool version (pool.providers id)
]

-- The job for a name.
unfoldable pub name_job : Pool → List PinEntry → Bytes → Job
name_job pool pins name = elim (find_pin_version pins name) [
  | none ↦ install_provides (pool.make_id name)
  | some version ↦ elim (pinned_target pool name version) [
    | none ↦ install_provides (pool.make_id name)
    | some target ↦ install_solvable target
  ]
]

abbrev pub is_nil {ℓ} : {A : Type ℓ} → List A → Bool
is_nil [] = true
is_nil (x ∷ xs) = false

-- The queue that `aept_solver_resolve_install` fills.
unfoldable pub install_jobs : Pool → List PinEntry → List Bytes → List ℕ → List Job
install_jobs pool pins names local_ids =
    if is_nil names && is_nil local_ids
    then update_all ∷ lock_jobs pool pins
    else map (name_job pool pins) names ++ map install_solvable local_ids

-- The queue that `aept_solver_resolve_remove` fills.
abbrev pub remove_jobs : Pool → List Bytes → List Job
remove_jobs pool names = map (λ name. erase_provides (pool.make_id name)) names

-- One round of the loop of `aept_solver_find_available`.
abbrev pub better : Pool → ℕ → Option ℕ → Option ℕ
better pool p none = if pool.is_installed p then none else some p
better pool p (some best) =
    if pool.is_installed p
    then some best
    else if pool.older (pool.evr best) (pool.evr p)
    then some p
    else some best

unfoldable pub newest : Pool → List ℕ → Option ℕ → Option ℕ
newest pool [] best = best
newest pool (p ∷ ps) best = newest pool ps (better pool p best)

unfoldable pub find_available : Pool → Bytes → Option ℕ
find_available pool name = elim (pool.str2id name) [
  | none ↦ none
  | some id ↦ newest pool (pool.providers id) none
]
