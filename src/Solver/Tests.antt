-- ===== src/Solver/Tests.antt =====
-- Tests of src/solver.c, and instances of its theorems.
use aept.Base.{
  ◌≡◌, ◌≤◌, ◌<◌, refl, ℕ, Bool, true, none, some, List, [], ◌∷◌, if◌then◌else◌, length, All, arith,
  ltb, ◌==◌,
}
use aept.Text.Strings.{Bytes, codes, str_eq}
use aept.Files.{Files}
use aept.Config.{Config, config_defaults}
use aept.Pin.{PinEntry, find_pin_version}
use aept.Solver.Repos.{
  Repos, max_repos, load_repo, load_sources, load_repos, source_index_of, load_repos-InRange,
}
use aept.Solver.Jobs.{
  Pool, update_all, lock_name, install_solvable, lock_jobs, name_job, install_jobs, newest,
  find_available,
}
use aept.Solver.Newest.{IsOrder, IsNewest, find_available-IsNewest}
use aept.Solver.Pinned.{IsLocked, install_jobs-IsLocked, IsTarget, name_job-IsTarget}

-- Versions of one byte each.
abbrev shorter : Bytes → Bytes → Bool
shorter a b = ltb (length a) (length b)

-- `app` is installed as 2; the repositories have 3 and 4 of it, of which 4 is the newer one.
abbrev pool : Pool
pool = record {
  str2id = λ name. if str_eq name (codes "app") then some 9 else none;
  make_id = λ name. 9;
  providers = λ id. 2 ∷ 3 ∷ 4 ∷ [];
  is_installed = λ p. p == 2;
  evr = λ p. if p == 4 then codes "11" else codes "1";
  older = shorter;
  same = str_eq;
}

shorter-IsOrder : IsOrder shorter
shorter-IsOrder = record { irreflexive = λ a. ground arith; transitive = λ a b c h k. ground arith }

known : pool.str2id (codes "app") ≡ some 9
unfolding str_eq
known = refl

find_available-IsNewest_example : IsNewest pool (2 ∷ 3 ∷ 4 ∷ []) (find_available pool (codes "app"))
find_available-IsNewest_example = find_available-IsNewest pool shorter-IsOrder (codes "app") 9 known

found : find_available pool (codes "app") ≡ some 4
unfolding find_available newest str_eq
found = refl

abbrev pins : List PinEntry
pins =
    record { name = codes "app"; version = codes "1" }
    ∷ record { name = codes "gone"; version = codes "1" }
    ∷ []

install_jobs-IsLocked_example : All (IsLocked pool (install_jobs pool pins [] [])) pins
install_jobs-IsLocked_example = install_jobs-IsLocked pool pins

locked : install_jobs pool pins [] [] ≡ update_all ∷ lock_name 9 ∷ []
unfolding install_jobs lock_jobs str_eq
locked = refl

pinned : find_pin_version pins (codes "app") ≡ some (codes "1")
unfolding find_pin_version str_eq
pinned = refl

three : IsTarget pool (codes "1") (pool.providers 9) 3
unfolding str_eq
three = (refl, refl, refl)

name_job-IsTarget_example :
    (p : ℕ) × (name_job pool pins (codes "app") ≡ install_solvable p)
    × IsTarget pool (codes "1") (pool.providers 9) p
name_job-IsTarget_example =
    name_job-IsTarget pool pins (codes "app") (codes "1") 9 3 pinned known three

abbrev two : Config
two = record config_defaults {
  sources =
      record { name = codes "a"; url = codes "https://a"; gzip = true }
      ∷ record { name = codes "b"; url = codes "https://b"; gzip = true }
      ∷ [];
}

abbrev lists : Files
lists q = some []

abbrev loaded : Repos
loaded = (1, 0) ∷ (1, 1) ∷ []

loads : load_repos (λ name. some (length name)) (λ text. true) two lists ≡ some loaded
unfolding load_sources load_repo
loads = refl

load_repos-InRange_example :
    (length loaded ≤ max_repos)
    × ((repo i : ℕ) → source_index_of loaded repo ≡ some i → i < length two.sources)
load_repos-InRange_example =
    load_repos-InRange (λ name. some (length name)) (λ text. true) two lists loaded loads
