-- ===== src/Autoremove/Reachable.antt =====
-- What `mark_needed` marks is what can be reached.
use mathlib.Core.Path.{subst}
use mathlib.Core.List.{Memᴰ}
use mathlib.Core.List.Memᴰ
use aept.Base.{
  ℕ, zero, suc, ◌≡◌, refl, sym, ◌∙◌, ◌⊎◌, inl, inr, false, ◌-◌, ◌≤◌, List, [], ◌∷◌, arith, length,
  if◌then◌else◌, Bool-cases,
}
use aept.Text.Strings.{Bytes}
use aept.Fileset.{Fileset, fileset_contains}
use aept.Fileset.Contains.{IsValid, searched-IsValid, contains-contains}
use aept.Autoremove.{Pool, Marks, mark_at, dependencies, each, mark_needed, count_of, mark_manual}
use aept.Autoremove.Marks.{unmarked, flag-mark_at, Within-unmarked}
use aept.Autoremove.Closed.{
  InRange, IsMarked, Grown, Grown-refl, Grown-trans, mark_needed_lem, guards, mark_needed_marks,
}

-- One package needs another, directly or through others.
pub data Reach (pool : Pool) : ℕ → ℕ → Type 0 where
  here : {p : ℕ} → Reach pool p p
  through :
      {p q r : ℕ} → Memᴰ q (dependencies pool p) → InRange pool q → Reach pool q r → Reach pool p r

module _ (pool : Pool) where
  -- Marks were added only for what can be reached from one of `ps`.
  abbrev pub From : List ℕ → Marks → Marks → Type 0
  From ps a b =
      (x : ℕ)
      → InRange pool x
      → IsMarked pool b x
      → IsMarked pool a x ⊎ ((p : ℕ) × Memᴰ p ps × InRange pool p × Reach pool p x)

  each-From :
      (f : ℕ → Marks → Marks)
      → ((p : ℕ) (needed : Marks) → From (p ∷ []) needed (f p needed))
      → (ps : List ℕ) (needed : Marks) → From ps needed (each f ps needed)
  each-From f h [] needed x r m = inl m
  each-From f h (p ∷ ps) needed x r m = elim (each-From f h ps (f p needed) x r m) [
    | inr (q, mem, rq, reach) ↦ inr (q, Memᴰ.tail mem, rq, reach)
    | inl early ↦ elim (h p needed x r early) [
      | inl old ↦ inl old
      | inr (q, mem, rq, reach) ↦ inr (q, Memᴰ.head (Memᴰ.eq_of_singleton mem), rq, reach)
    ]
  ]

  pub mark_needed-From :
      (fuel p : ℕ) (needed : Marks)
      → From (p ∷ []) needed (mark_needed pool (count_of pool) fuel p needed)
  mark_needed-From zero p needed x r m = inl (unfold mark_needed in m)
  mark_needed-From (suc fuel) p needed x r m = elim (guards pool fuel p needed) [
    | inr (marked, same) ↦ inl (subst (λ n. IsMarked pool n x) same m)
    | inl (rp, clear) ↦
        let i = p - pool.start in
        let made =
          subst (λ n. IsMarked pool n x) (mark_needed_marks pool fuel p needed rp clear) m in
        elim (each-From (mark_needed pool (count_of pool) fuel) (λ q n. mark_needed-From fuel q n)
          (dependencies pool p) (mark_at i needed) x r made) [
            | inr (q, mem, rq, reach) ↦ inr (p, Memᴰ.head refl, rp, through mem rq reach)
            | inl early ↦ elim (flag-mark_at i (x - pool.start) needed early) [
              | inr old ↦ inl old
              | inl e ↦
                  let same : p ≡ x = omega arith in
                  inr (p, Memᴰ.head refl, rp, subst (Reach pool p) same here)
            ]
          ]
  ]

  -- Installed by hand: the set of automatic packages does not hold its name.
  abbrev pub IsManual : Fileset → ℕ → Type 0
  IsManual auto_set p = (fileset_contains auto_set (pool.name p)).0 ≡ false

  -- A set that answers as another one does.
  abbrev pub SameAnswers : Fileset → Fileset → Type 0
  SameAnswers a b =
      IsValid b × ((path : Bytes) → (fileset_contains b path).0 ≡ (fileset_contains a path).0)

  pub searched-SameAnswers :
      (a b : Fileset) (path : Bytes) → SameAnswers a b → SameAnswers a (fileset_contains b path).1
  searched-SameAnswers a b path s =
      (searched-IsValid b path s.0, λ q. contains-contains b path q s.0 ∙ s.1 q)

  -- What the first loop has done after `ps`.
  pub record Marked (auto_set : Fileset) (ps : List ℕ) (before : Marks) (r : Fileset × Marks)
      : Type 0 where
    pub same : SameAnswers auto_set r.0
    pub grown : Grown pool before r.1
    pub roots : (p : ℕ) → Memᴰ p ps → IsManual auto_set p → InRange pool p → IsMarked pool r.1 p
    pub from :
        (x : ℕ)
        → InRange pool x
        → IsMarked pool r.1 x
        → IsMarked pool before x ⊎ ((p : ℕ) × Memᴰ p ps × IsManual auto_set p × Reach pool p x)

  -- One round of the loop.
  record Round (auto_set : Fileset) (p : ℕ) (a b : Marks) : Type 0 where
    grown : Grown pool a b
    root : IsManual auto_set p → InRange pool p → IsMarked pool b p
    from :
        (x : ℕ)
        → InRange pool x
        → IsMarked pool b x
        → IsMarked pool a x ⊎ (IsManual auto_set p × Reach pool p x)

  round :
      (auto_set s : Fileset) (p : ℕ) (needed : Marks)
      → SameAnswers auto_set s
      → length needed ≡ count_of pool
      → unmarked needed ≤ count_of pool
      → Round auto_set p needed (
          if (fileset_contains s (pool.name p)).0
          then needed
          else mark_needed pool (count_of pool) (count_of pool) p needed)
  round auto_set s p needed same l u =
      let answer = same.1 (pool.name p) in
      elim (Bool-cases (fileset_contains s (pool.name p)).0) [
        | inl t ↦ rw (t) (record {
          grown = Grown-refl pool needed;
          root = λ k r. absurd (let e = sym t ∙ answer ∙ k in cc);
          from = λ x r m. inl m;
        })
        | inr f ↦
            let (grown, root) = mark_needed_lem pool (count_of pool) p needed l u in
            rw (f) (record {
              grown = grown;
              root = λ k r. root r;
              from = λ x r m. elim (mark_needed-From (count_of pool) p needed x r m) [
                | inl old ↦ inl old
                | inr (q, mem, rq, reach) ↦
                    inr
                      (sym answer ∙ f, subst (λ y. Reach pool y x) (Memᴰ.eq_of_singleton mem) reach)
              ];
            })
      ]

  pub mark_manual-Marked :
      (auto_set : Fileset) (ps : List ℕ) (s : Fileset) (needed : Marks)
      → SameAnswers auto_set s
      → length needed ≡ count_of pool
      → unmarked needed ≤ count_of pool
      → Marked auto_set ps needed (mark_manual pool ps s needed)
  unfolding mark_manual
  mark_manual-Marked auto_set [] s needed same l u = record {
    same = same;
    grown = Grown-refl pool needed;
    roots = λ p m k r. absurd (Memᴰ.not-nil m);
    from = λ x r m. inl m;
  }
  mark_manual-Marked auto_set (p ∷ ps) s needed same l u =
      let one = round auto_set s p needed same l u in
      let nd =
        if (fileset_contains s (pool.name p)).0
        then needed
        else mark_needed pool (count_of pool) (count_of pool) p needed in
      let k =
        mark_manual-Marked auto_set ps (fileset_contains s (pool.name p)).1 nd
          (searched-SameAnswers auto_set s (pool.name p) same) (sym one.grown.0.0 ∙ l)
          (let less = Within-unmarked needed nd one.grown.0 in omega arith) in
      record {
        same = k.same;
        grown = Grown-trans pool needed nd _ one.grown k.grown;
        roots = λ q m manual r. elim (Memᴰ.cases_cons m) [
          | inl e ↦ k.grown.0.1 (q - pool.start) (
              subst (λ y. IsMarked pool nd y) (sym e)
                (one.root (subst (IsManual auto_set) e manual) (subst (InRange pool) e r)))
          | inr rest ↦ k.roots q rest manual r
        ];
        from = λ x r m. elim (k.from x r m) [
          | inr (q, mem, manual, reach) ↦ inr (q, Memᴰ.tail mem, manual, reach)
          | inl early ↦ elim (one.from x r early) [
            | inl old ↦ inl old
            | inr (manual, reach) ↦ inr (p, Memᴰ.head refl, manual, reach)
          ]
        ];
      }
