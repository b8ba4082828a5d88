-- ===== src/Autoremove/Candidates.antt =====
-- The packages that are proposed for removal.
use mathlib.Core.Path.{subst}
use mathlib.Core.List.{Memᴰ}
use mathlib.Core.List.Memᴰ
use aept.Base.{
  ℕ, zero, suc, ◌↔◌, refl, sym, ◌∙◌, inl, inr, Bool, ◌+◌, ◌-◌, ◌≤◌, ◌<◌, List, [], ◌∷◌, arith,
  if◌then◌else◌, Bool-cases, keep,
}
use aept.Fileset.{Fileset}
use aept.Fileset.Contains.{IsValid}
use aept.Autoremove.{Pool, Marks, count_of, ids_from, installed_ids, unmarked_flags, mark_manual}
use aept.Autoremove.Marks.{length-unmarked_flags, unmarked-unmarked_flags, flag-unmarked_flags}
use aept.Autoremove.Closed.{InRange, IsMarked, IsSettled}
use aept.Autoremove.Reachable.{Reach, here, through, IsManual, mark_manual-Marked}

module _ (pool : Pool) where
  ids_from-InRange : (p q n : ℕ) → Memᴰ q (ids_from p n) → (p ≤ q) × (q < p + n)
  ids_from-InRange p q zero m = absurd (Memᴰ.not-nil m)
  ids_from-InRange p q (suc n) m = elim (Memᴰ.cases_cons m) [
    | inl e ↦ (omega arith, omega arith)
    | inr rest ↦ let h = ids_from-InRange (suc p) q n rest in (omega arith, omega arith)
  ]

  mem-keep : (t : ℕ → Bool) (q : ℕ) (xs : List ℕ) → Memᴰ q (keep t xs) → Memᴰ q xs
  mem-keep t q [] m = m
  mem-keep t q (x ∷ xs) m = elim (Bool-cases (t x)) [
    | inl yes_ ↦
        elim (Memᴰ.cases_cons
          (subst (λ b. Memᴰ q (if b then x ∷ keep t xs else keep t xs)) yes_ m)) [
            | inl e ↦ Memᴰ.head e
            | inr rest ↦ Memᴰ.tail (mem-keep t q xs rest)
          ]
    | inr no_ ↦
        Memᴰ.tail
          (mem-keep t q xs (subst (λ b. Memᴰ q (if b then x ∷ keep t xs else keep t xs)) no_ m))
  ]

  pub installed-InRange : (q : ℕ) → Memᴰ q (installed_ids pool) → InRange pool q
  installed-InRange q m =
      let h = ids_from-InRange pool.start q (count_of pool) (mem-keep pool.is_installed q _ m) in
      (h.0, omega arith)

  -- Some package that was installed by hand needs it, or it was installed by hand.
  abbrev pub Needed : Fileset → ℕ → Type 0
  Needed auto_set x =
      (p : ℕ) × Memᴰ p (installed_ids pool) × IsManual pool auto_set p × Reach pool p x

  Reach-IsMarked :
      (needed : Marks) (p x : ℕ)
      → ((q : ℕ) → InRange pool q → IsMarked pool needed q → IsSettled pool needed q)
      → InRange pool p
      → IsMarked pool needed p
      → Reach pool p x
      → IsMarked pool needed x
  Reach-IsMarked needed p x settled r m here = m
  Reach-IsMarked needed p x settled r m (through mem rq reach) =
      Reach-IsMarked needed _ x settled rq (settled p r m _ mem rq) reach

  abbrev pub marks_of : Fileset → Fileset × Marks
  marks_of auto_set =
      mark_manual pool (installed_ids pool) auto_set (unmarked_flags (count_of pool))

  pub marks-Needed :
      (auto_set : Fileset) (x : ℕ)
      → IsValid auto_set
      → InRange pool x
      → (IsMarked pool (marks_of auto_set).1 x) ↔ Needed auto_set x
  marks-Needed auto_set x v r =
      let n = count_of pool in
      let k =
        mark_manual-Marked pool auto_set (installed_ids pool) auto_set (unmarked_flags n)
          (v, λ q. refl) (length-unmarked_flags n)
          (let e = unmarked-unmarked_flags n in omega arith) in
      let settled : (q : ℕ)
          → InRange pool q
          → IsMarked pool (marks_of auto_set).1 q
          → IsSettled pool (marks_of auto_set).1 q =
        λ q rq m. elim (k.grown.1 q rq m) [
          | inl old ↦ absurd (let e = sym old ∙ flag-unmarked_flags n (q - pool.start) in cc)
          | inr s ↦ s
        ] in
      (
        λ m. elim (k.from x r m) [
          | inl old ↦ absurd (let e = sym old ∙ flag-unmarked_flags n (x - pool.start) in cc)
          | inr (p, mem, manual, reach) ↦ (p, mem, manual, reach)
        ],
        λ (p, mem, manual, reach).
            let rp = installed-InRange p mem in
            Reach-IsMarked (marks_of auto_set).1 p x settled rp (k.roots p mem manual rp) reach,
      )
