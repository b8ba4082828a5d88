-- ===== src/Autoremove/Proposed.antt =====
-- The second loop of `aept_op_autoremove`, and what it proposes.
use mathlib.Core.Path.{subst}
use mathlib.Core.List.{Memᴰ}
use mathlib.Core.List.Memᴰ
use aept.Base.{
  ℕ, ◌≡◌, ◌↔◌, refl, sym, ◌∙◌, inl, inr, true, false, ◌-◌, leb, List, [], ◌∷◌, arith, Bool-cases,
}
use aept.Fileset.{Fileset, fileset_contains}
use aept.Fileset.Contains.{IsValid}
use aept.Autoremove.{
  Pool, Marks, flag, count_of, installed_ids, unmarked_flags, collect, candidates,
}
use aept.Autoremove.Marks.{length-unmarked_flags, unmarked-unmarked_flags}
use aept.Autoremove.Closed.{InRange}
use aept.Autoremove.Reachable.{SameAnswers, searched-SameAnswers, mark_manual-Marked}
use aept.Autoremove.Candidates.{installed-InRange, Needed, marks_of, marks-Needed}

module _ (pool : Pool) where
  -- Installed automatically: the set holds its name.
  abbrev pub IsAuto : Fileset → ℕ → Type 0
  IsAuto auto_set p = (fileset_contains auto_set (pool.name p)).0 ≡ true

  abbrev Proposed : Fileset → Marks → List ℕ → ℕ → Type 0
  Proposed auto_set needed ps x =
      Memᴰ x ps × (flag needed (x - pool.start) ≡ false) × IsAuto auto_set x

  grow :
      (auto_set : Fileset) (needed : Marks) (p : ℕ) (ps : List ℕ) (x : ℕ)
      → Proposed auto_set needed ps x
      → Proposed auto_set needed (p ∷ ps) x
  grow auto_set needed p ps x (m, f, a) = (Memᴰ.tail m, f, a)

  -- Nothing but `p` is lost where `p` is not proposed.
  shrink :
      (auto_set : Fileset) (needed : Marks) (p : ℕ) (ps : List ℕ) (x : ℕ)
      → (Proposed auto_set needed (p ∷ []) p → ⊥)
      → Proposed auto_set needed (p ∷ ps) x
      → Proposed auto_set needed ps x
  shrink auto_set needed p ps x never (m, f, a) = elim (Memᴰ.cases_cons m) [
    | inr rest ↦ (rest, f, a)
    | inl e ↦ absurd (
        never (
          Memᴰ.head refl,
          subst (λ y. flag needed (y - pool.start) ≡ false) e f,
          subst (IsAuto auto_set) e a,
        ))
  ]

  collect_iff :
      (auto_set s : Fileset) (needed : Marks) (ps : List ℕ) (x : ℕ)
      → SameAnswers pool auto_set s
      → ((p : ℕ) → Memᴰ p ps → InRange pool p)
      → Memᴰ x (collect pool needed ps s) ↔ Proposed auto_set needed ps x
  unfolding collect
  collect_iff auto_set s needed [] x same ranges = (λ m. absurd (Memᴰ.not-nil m), λ h. h.0)
  collect_iff auto_set s needed (p ∷ ps) x same ranges =
      let r = ranges p (Memᴰ.head refl) in
      let below : leb (count_of pool) (p - pool.start) ≡ false = ground arith in
      let later : (q : ℕ) → Memᴰ q ps → InRange pool q = λ q m. ranges q (Memᴰ.tail m) in
      let searched = searched-SameAnswers pool auto_set s (pool.name p) same in
      let answer = same.1 (pool.name p) in
      let skipped = collect_iff auto_set s needed ps x same later in
      let rest =
        collect_iff auto_set (fileset_contains s (pool.name p)).1 needed ps x searched later in
      elim (Bool-cases (flag needed (p - pool.start))) [
        | inl set ↦
            rw (below, set)
              (
                λ m. grow auto_set needed p ps x (skipped.0 m),
                λ h. skipped.1 (shrink auto_set needed p ps x (λ n. let e = sym set ∙ n.1 in cc) h),
              )
        | inr clear ↦ elim (Bool-cases (fileset_contains s (pool.name p)).0) [
          | inr manual ↦
              rw (below, clear, manual)
                (
                  λ m. grow auto_set needed p ps x (rest.0 m),
                  λ h. rest.1 (
                      shrink auto_set needed p ps x (λ n. let e = sym manual ∙ answer ∙ n.2 in cc)
                        h),
                )
          | inl auto ↦
              rw (below, clear, auto)
                (
                  λ m. elim (Memᴰ.cases_cons m) [
                    | inl e ↦ (
                      Memᴰ.head e,
                      subst (λ y. flag needed (y - pool.start) ≡ false) (sym e) clear,
                      subst (IsAuto auto_set) (sym e) (sym answer ∙ auto),
                    )
                    | inr t ↦ grow auto_set needed p ps x (rest.0 t)
                  ],
                  λ h. elim (Memᴰ.cases_cons h.0) [
                    | inl e ↦ Memᴰ.head e
                    | inr t ↦ Memᴰ.tail (rest.1 (t, h.1, h.2))
                  ],
                )
        ]
      ]

  -- `aept_op_autoremove` proposes to remove exactly the installed packages that were installed
  -- automatically and that no package which was installed by hand needs, directly or through others.
  pub candidates_iff :
      (auto_set : Fileset) (x : ℕ)
      → IsValid auto_set
      → Memᴰ x (candidates pool auto_set)
        ↔ (Memᴰ x (installed_ids pool) × IsAuto auto_set x × (Needed pool auto_set x → ⊥))
  unfolding candidates
  candidates_iff auto_set x v =
      let n = count_of pool in
      let k =
        mark_manual-Marked pool auto_set (installed_ids pool) auto_set (unmarked_flags n)
          (v, λ q. refl) (length-unmarked_flags n)
          (let e = unmarked-unmarked_flags n in omega arith) in
      let c =
        collect_iff auto_set (marks_of pool auto_set).0 (marks_of pool auto_set).1
          (installed_ids pool) x k.same (installed-InRange pool) in
      (
        λ m.
            let (mem, clear, auto) = c.0 m in
            (
              mem,
              auto,
              λ needed.
                  let set =
                    (marks-Needed pool auto_set x v (installed-InRange pool x mem)).1 needed in
                  let e = sym set ∙ clear in cc,
            ),
        λ (mem, auto, free). c.1 (
          mem,
          elim (Bool-cases (flag (marks_of pool auto_set).1 (x - pool.start))) [
            | inl set ↦
                absurd
                  (free ((marks-Needed pool auto_set x v (installed-InRange pool x mem)).0 set))
            | inr clear ↦ clear
          ],
          auto,
        ),
      )
