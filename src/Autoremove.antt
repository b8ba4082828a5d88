-- ===== src/Autoremove.antt =====
-- src/autoremove.c: which of the automatically installed packages nothing needs. What libsolv's pool
-- says of the installed packages is a parameter.
pub mod Marks
pub mod Closed
pub mod Reachable
pub mod Candidates
pub mod Proposed
mod Tests
use aept.Base.{
  ℕ, zero, suc, ◌+◌, ◌-◌, Bool, true, false, ◌&&◌, ◌||◌, List, [], ◌∷◌, ◌++◌, ltb, leb, ◌==◌,
  if◌then◌else◌, keep,
}
use aept.Text.Strings.{Bytes}
use aept.Fileset.{Fileset, fileset_contains}

-- The pool: the ids of the installed repository's solvables lie between `start` and `end`; what each
-- solvable requires, up to the 0 behind the array and empty where there is none; the solvables that
-- provide a dependency; the test `s->repo == pool->installed`; and the names.
pub record Pool : Type 0 where
  pub start : ℕ
  pub end : ℕ
  pub requires : ℕ → List ℕ
  pub prereq_marker : ℕ
  pub providers : ℕ → List ℕ
  pub is_installed : ℕ → Bool
  pub name : ℕ → Bytes

-- `char *needed`: one flag for each id of the installed repository.
abbrev pub Marks : Type 0
Marks = List Bool

-- `needed[idx]`.
abbrev pub flag : Marks → ℕ → Bool
flag [] i = false
flag (b ∷ bs) zero = b
flag (b ∷ bs) (suc i) = flag bs i

-- `needed[idx] = 1`.
abbrev pub mark_at : ℕ → Marks → Marks
mark_at i [] = []
mark_at zero (b ∷ bs) = true ∷ bs
mark_at (suc i) (b ∷ bs) = b ∷ mark_at i bs

unfoldable pub providers_of : Pool → List ℕ → List ℕ
providers_of pool [] = []
providers_of pool (req ∷ reqs) =
    let rest = providers_of pool reqs in
    if req == pool.prereq_marker then rest else pool.providers req ++ rest

-- The solvables that the two loops of `mark_needed` call it for, in this order.
unfoldable pub dependencies : Pool → ℕ → List ℕ
dependencies pool p = keep pool.is_installed (providers_of pool (pool.requires p))

abbrev pub each : (ℕ → Marks → Marks) → List ℕ → Marks → Marks
each f [] needed = needed
each f (p ∷ ps) needed = each f ps (f p needed)

-- The depth of the recursion is bounded by the number of packages that are not marked yet, so that
-- `ninstalled` is fuel enough (Closed).
unfoldable pub mark_needed : Pool → ℕ → ℕ → ℕ → Marks → Marks
mark_needed pool ninstalled zero p needed = needed
mark_needed pool ninstalled (suc fuel) p needed =
    let marked =
      each (mark_needed pool ninstalled fuel) (dependencies pool p)
        (mark_at (p - pool.start) needed) in
    if ltb p pool.start || leb pool.end p
    then needed
    else if leb ninstalled (p - pool.start)
    then needed
    else if flag needed (p - pool.start)
    then needed
    else marked

-- The ids from `p` on, `n` of them.
abbrev pub ids_from : ℕ → ℕ → List ℕ
ids_from p zero = []
ids_from p (suc n) = p ∷ ids_from (suc p) n

abbrev pub count_of : Pool → ℕ
count_of pool = pool.end - pool.start

-- `FOR_REPO_SOLVABLES(installed, p, s)`.
abbrev pub installed_ids : Pool → List ℕ
installed_ids pool = keep pool.is_installed (ids_from pool.start (count_of pool))

abbrev pub unmarked_flags : ℕ → Marks
unmarked_flags zero = []
unmarked_flags (suc n) = false ∷ unmarked_flags n

-- The first loop of `aept_op_autoremove`: the packages that were installed by hand.
unfoldable pub mark_manual : Pool → List ℕ → Fileset → Marks → Fileset × Marks
mark_manual pool [] auto_set needed = (auto_set, needed)
mark_manual pool (p ∷ ps) auto_set needed =
    let (auto, searched) = fileset_contains auto_set (pool.name p) in
    mark_manual pool ps searched
      (if auto then needed else mark_needed pool (count_of pool) (count_of pool) p needed)

-- The second loop: the packages that were installed automatically and are not marked.
unfoldable pub collect : Pool → Marks → List ℕ → Fileset → List ℕ
collect pool needed [] auto_set = []
collect pool needed (p ∷ ps) auto_set =
    let (auto, searched) = fileset_contains auto_set (pool.name p) in
    let skipped = collect pool needed ps auto_set in
    let rest = collect pool needed ps searched in
    if leb (count_of pool) (p - pool.start)
    then skipped
    else if flag needed (p - pool.start)
    then skipped
    else if auto
    then p ∷ rest
    else rest

-- The packages that `aept_op_autoremove` proposes to remove.
unfoldable pub candidates : Pool → Fileset → List ℕ
candidates pool auto_set =
    let (searched, needed) =
      mark_manual pool (installed_ids pool) auto_set (unmarked_flags (count_of pool)) in
    collect pool needed (installed_ids pool) searched
