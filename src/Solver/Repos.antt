-- ===== src/Solver/Repos.antt =====
-- The repositories and the local packages that src/solver.c loads, and `load_repos` of src/install.c.
use aept.Base.{
  ◌≡◌, refl, inl, inr, ℕ, suc, ◌+◌, ◌≤◌, ◌<◌, Bool, Option, none, some, List, [], ◌∷◌, ◌++◌, arith,
  leb, le→leb, All-append, ◌==◌, if◌then◌else◌, length, Bool-cases, Option-cases, All,
}
use mathlib.Core.Path.{subst}
use aept.Text.Strings.{Bytes}
use aept.Files.{FilePath, Files}
use aept.Config.{Source, Config}

abbrev pub max_repos : ℕ
max_repos = 64

abbrev pub max_cmdline : ℕ
max_cmdline = 256

-- The arrays `repos` and `repo_source_index`: a repository and the index of its source.
abbrev pub Repos : Type 0
Repos = List (ℕ × ℕ)

-- `aept_solver_load_repo`: `created` is the new repository, `parsed` whether libsolv can read the list;
-- `none` for -1.
unfoldable pub load_repo : Option ℕ → Bool → ℕ → Repos → Option Repos
load_repo created parsed source_index repos =
    if leb max_repos (length repos) then none else elim created [
      | none ↦ none
      | some repo ↦ if parsed then some (repos ++ (repo, source_index) ∷ []) else none
    ]

-- `aept_solver_solvable_source_index` of a solvable in the repository; `none` for -1.
unfoldable pub source_index_of : Repos → ℕ → Option ℕ
source_index_of [] repo = none
source_index_of ((r, i) ∷ rs) repo =
    let rest = source_index_of rs repo in if repo == r then some i else rest

-- The loop of `load_repos` from the source of index `i` on.
unfoldable pub load_sources :
    (Bytes → Option ℕ) → (Bytes → Bool) → Config → ℕ → List Source → Files → Repos → Option Repos
load_sources create parses cfg i [] fs repos = some repos
load_sources create parses cfg i (src ∷ srcs) fs repos =
    elim (fs (cfg.lists_dir ++ b'/' ∷ src.name)) [
      | none ↦ none
      | some text ↦ elim (load_repo (create src.name) (parses text) i repos) [
        | none ↦ none
        | some more ↦ load_sources create parses cfg (suc i) srcs fs more
      ]
    ]

abbrev pub load_repos : (Bytes → Option ℕ) → (Bytes → Bool) → Config → Files → Option Repos
load_repos create parses cfg fs = load_sources create parses cfg 0 cfg.sources fs []

-- `aept_solver_load_local`: the package and its path are entered; `added` is the new solvable.
unfoldable pub load_local : Option ℕ → FilePath → List (ℕ × FilePath) → Option (List (ℕ × FilePath))
load_local added path entries =
    if leb max_cmdline (length entries)
    then none
    else elim added [ none ↦ none | some p ↦ some (entries ++ (p, path) ∷ []) ]

unfoldable pub commandline_path : List (ℕ × FilePath) → ℕ → Option FilePath
commandline_path [] p = none
commandline_path ((q, path) ∷ es) p =
    let rest = commandline_path es p in if q == p then some path else rest

-- The indices are those of sources, all different from those that come.
abbrev IsBelow : ℕ → ℕ × ℕ → Type 0
IsBelow n (r, i) = i < n

source_index_of-IsBelow :
    (n : ℕ) (repos : Repos) (repo i : ℕ)
    → All (IsBelow n) repos
    → source_index_of repos repo ≡ some i
    → i < n
unfolding source_index_of
source_index_of-IsBelow n [] repo i h = λ k. cc
source_index_of-IsBelow n ((r, j) ∷ rs) repo i h = elim (Bool-cases (repo == r)) [
  | inl here ↦ rw (here, source_index_of) (λ k. let e : j ≡ i = cc in rw (← e) h.0)
  | inr there ↦ rw (there, source_index_of) (λ k. source_index_of-IsBelow n rs repo i h.1 k)
]

-- What is loaded has its place in the arrays, and the index of a source below `n`.
pub record IsLoaded (n : ℕ) (repos : Repos) : Type 0 where
  pub fits : length repos ≤ max_repos
  pub below : All (IsBelow n) repos

below_weaken : (n m : ℕ) (repos : Repos) → n ≤ m → All (IsBelow n) repos → All (IsBelow m) repos
below_weaken n m [] h k = tt
below_weaken n m ((r, i) ∷ rs) h k = (omega arith, below_weaken n m rs h k.1)

length-snoc : (repos : Repos) (x : ℕ × ℕ) → length (repos ++ x ∷ []) ≡ length repos + 1
length-snoc [] x = refl
length-snoc (r ∷ rs) x = omega (arith, length-snoc rs x)

load_repo-IsLoaded :
    (created : Option ℕ) (parsed : Bool) (i : ℕ) (repos more : Repos)
    → IsLoaded i repos
    → load_repo created parsed i repos ≡ some more
    → IsLoaded (suc i) more
unfolding load_repo
load_repo-IsLoaded created parsed i repos more h =
    elim (Bool-cases (leb max_repos (length repos))) [
      | inl full ↦ rw (full, load_repo) (λ k. cc)
      | inr room ↦ elim (Option-cases created) [
        | inl failed ↦ rw (room, failed, load_repo) (λ k. cc)
        | inr (repo, new) ↦ elim (Bool-cases parsed) [
          | inr bad ↦ rw (room, new, bad, load_repo) (λ k. cc)
          | inl good ↦
              rw (room, new, good, load_repo)
                (λ k.
                  let e : repos ++ (repo, i) ∷ [] ≡ more = cc in
                  rw (← e) (record {
                    fits =
                        ground
                          (arith, length-snoc repos (repo, i), le→leb max_repos (length repos));
                    below =
                        All-append (IsBelow (suc i)) repos ((repo, i) ∷ [])
                          (below_weaken i (suc i) repos (omega arith) h.below) (omega arith, tt);
                  }))
        ]
      ]
    ]

load_sources-IsLoaded :
    (create : Bytes → Option ℕ) (parses : Bytes → Bool) (cfg : Config) (i : ℕ) (srcs : List Source)
    (fs : Files) (repos last : Repos)
    → IsLoaded i repos
    → load_sources create parses cfg i srcs fs repos ≡ some last
    → IsLoaded (length srcs + i) last
unfolding load_sources
load_sources-IsLoaded create parses cfg i [] fs repos last h = λ k.
    let e : repos ≡ last = cc in
    let z : i ≡ 0 + i = omega arith in
    subst (λ rs. IsLoaded (0 + i) rs) e (subst (λ n. IsLoaded n repos) z h)
load_sources-IsLoaded create parses cfg i (src ∷ srcs) fs repos last h =
    elim (Option-cases (fs (cfg.lists_dir ++ b'/' ∷ src.name))) [
      | inl gone ↦ rw (gone, load_sources) (λ k. cc)
      | inr (text, there) ↦
          elim (Option-cases (load_repo (create src.name) (parses text) i repos)) [
            | inl bad ↦ rw (there, bad, load_sources) (λ k. cc)
            | inr (more, got) ↦
                rw (there, got, load_sources)
                  (λ k.
                    let l = load_repo-IsLoaded (create src.name) (parses text) i repos more h got in
                    let t = load_sources-IsLoaded create parses cfg (suc i) srcs fs more last l k in
                    let e : length srcs + suc i ≡ suc (length srcs) + i = omega arith in rw (← e) t)
          ]
    ]

-- If `load_repos` succeeds, there are at most 64 repositories, as many as the arrays hold, and the index
-- that `aept_solver_solvable_source_index` gives for a repository is that of a configured source.
pub load_repos-InRange :
    (create : Bytes → Option ℕ) (parses : Bytes → Bool) (cfg : Config) (fs : Files) (repos : Repos)
    → load_repos create parses cfg fs ≡ some repos
    → (length repos ≤ max_repos)
      × ((repo i : ℕ) → source_index_of repos repo ≡ some i → i < length cfg.sources)
load_repos-InRange create parses cfg fs repos h =
    let l =
      load_sources-IsLoaded create parses cfg 0 cfg.sources fs [] repos
        (record { fits = omega arith; below = tt }) h in
    let below : All (IsBelow (length cfg.sources)) repos =
      below_weaken (length cfg.sources + 0) (length cfg.sources) repos (omega arith) l.below in
    (l.fits, λ repo i k. source_index_of-IsBelow (length cfg.sources) repos repo i below k)
