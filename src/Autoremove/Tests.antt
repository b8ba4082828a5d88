-- ===== src/Autoremove/Tests.antt =====
-- Tests of src/autoremove.c, and an instance of its theorem.
use mathlib.Core.List.{Memᴰ}
use aept.Base.{◌≡◌, ◌↔◌, refl, true, not, [], ◌∷◌, ◌==◌, if◌then◌else◌}
use aept.Text.Strings.{codes}
use aept.Text.Order.{strcmp}
use aept.Text.Search.{bsearch}
use aept.Util.{normalize_path, strip_slashes, strip_dot_slashes}
use aept.Fileset.{fileset_sort, Fileset, fileset_contains}
use aept.Autoremove.{
  Pool, providers_of, dependencies, mark_needed, installed_ids, mark_manual, collect, candidates,
}
use aept.Autoremove.Candidates.{Needed}
use aept.Autoremove.Proposed.{IsAuto, candidates_iff}

-- 10 is `app`, which needs 11 through 1; 11 and 12 need each other; nothing needs 13, which needs 12;
-- 14 is not installed.
abbrev pool : Pool
pool = record {
  start = 10;
  end = 15;
  requires = λ p.
      if p == 10
      then 9 ∷ 1 ∷ []
      else if p == 11
      then 2 ∷ []
      else if p == 12
      then 1 ∷ []
      else if p == 13
      then 2 ∷ []
      else [];
  prereq_marker = 9;
  providers = λ d. if d == 1 then 14 ∷ 11 ∷ [] else 12 ∷ [];
  is_installed = λ p. not (p == 14);
  name = λ p.
      if p == 10
      then codes "app"
      else if p == 11
      then codes "liba"
      else if p == 12
      then codes "libb"
      else codes "old";
}

abbrev auto_set : Fileset
auto_set = record { paths = codes "liba" ∷ codes "libb" ∷ codes "old" ∷ []; sorted = true }

proposed : candidates pool auto_set ≡ 13 ∷ []
unfolding candidates mark_manual collect mark_needed dependencies providers_of fileset_contains
    fileset_sort bsearch strcmp normalize_path strip_slashes strip_dot_slashes
proposed = refl

candidates_iff_example :
    Memᴰ 13 (candidates pool auto_set)
    ↔ (Memᴰ 13 (installed_ids pool) × IsAuto pool auto_set 13 × (Needed pool auto_set 13 → ⊥))
unfolding strcmp
candidates_iff_example =
    candidates_iff pool auto_set 13 (λ h. ((refl, (refl, tt)), ((refl, tt), (tt, tt))))
