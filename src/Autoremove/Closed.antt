-- ===== src/Autoremove/Closed.antt =====
-- The recursion of `mark_needed` reaches everything: what it marks, and what that depends on.
use mathlib.Core.Path.{subst}
use mathlib.Core.List.{Memᴰ}
use mathlib.Core.List.Memᴰ
use aept.Base.{
  ℕ, zero, suc, ◌≡◌, refl, sym, ◌∙◌, ◌⊎◌, inl, inr, true, false, ◌||◌, ◌-◌, ◌≤◌, ◌<◌, ltb, leb,
  List, [], ◌∷◌, arith, length, Bool-cases,
}
use aept.Autoremove.{Pool, Marks, flag, mark_at, dependencies, each, mark_needed, count_of}
use aept.Autoremove.Marks.{
  unmarked, Within, Within-refl, Within-trans, length-mark_at, flag-mark_at_self, flag-mark_at,
  mark_at-Within, unmarked-mark_at, Within-unmarked, all_marked,
}

module _ (pool : Pool) where
  -- An id of the installed repository.
  abbrev pub InRange : ℕ → Type 0
  InRange p = (pool.start ≤ p) × (p < pool.end)

  abbrev pub IsMarked : Marks → ℕ → Type 0
  IsMarked needed p = flag needed (p - pool.start) ≡ true

  -- All that `p` depends on is marked.
  abbrev pub IsSettled : Marks → ℕ → Type 0
  IsSettled needed p = (q : ℕ) → Memᴰ q (dependencies pool p) → InRange q → IsMarked needed q

  -- Marks were added, and all that the new ones depend on is marked too.
  abbrev pub Grown : Marks → Marks → Type 0
  Grown a b = Within a b × ((p : ℕ) → InRange p → IsMarked b p → IsMarked a p ⊎ IsSettled b p)

  pub Grown-refl : (a : Marks) → Grown a a
  Grown-refl a = (Within-refl a, λ p r m. inl m)

  IsSettled-Within : (a b : Marks) (p : ℕ) → Within a b → IsSettled a p → IsSettled b p
  IsSettled-Within a b p w s q m r = w.1 (q - pool.start) (s q m r)

  pub Grown-trans : (a b c : Marks) → Grown a b → Grown b c → Grown a c
  Grown-trans a b c g h = (
    Within-trans a b c g.0 h.0,
    λ p r m. elim (h.1 p r m) [
      | inr s ↦ inr s
      | inl earlier ↦ elim (g.1 p r earlier) [
        | inl e ↦ inl e
        | inr s ↦ inr (IsSettled-Within b c p h.0 s)
      ]
    ],
  )

  -- A call that marks `p` and all that follows from it.
  abbrev IsMarking : Marks → ℕ → Marks → Type 0
  IsMarking needed p after = Grown needed after × (InRange p → IsMarked after p)

  each-IsMarking :
      (f : ℕ → Marks → Marks) (fuel : ℕ)
      → ((p : ℕ) (needed : Marks)
          → length needed ≡ count_of pool
          → unmarked needed ≤ fuel
          → IsMarking needed p (f p needed))
      → (ps : List ℕ) (needed : Marks) → length needed ≡ count_of pool
      → unmarked needed ≤ fuel
      → Grown needed (each f ps needed)
        × ((q : ℕ) → Memᴰ q ps → InRange q → IsMarked (each f ps needed) q)
  each-IsMarking f fuel h [] needed l u = (Grown-refl needed, λ q m r. absurd (Memᴰ.not-nil m))
  each-IsMarking f fuel h (p ∷ ps) needed l u =
      let (grown, here) = h p needed l u in
      let (later, all) =
        each-IsMarking f fuel h ps (f p needed) (sym grown.0.0 ∙ l)
          (let less = Within-unmarked needed (f p needed) grown.0 in omega arith) in
      (
        Grown-trans needed (f p needed) (each f ps (f p needed)) grown later,
        λ q m r. elim (Memᴰ.cases_cons m) [
          | inl e ↦
              later.0.1 (q - pool.start)
                (subst (λ x. IsMarked (f p needed) x) (sym e) (here (subst InRange e r)))
          | inr rest ↦ all q rest r
        ],
      )

  -- The guards: the call marks its package, or changes nothing, since there is nothing to mark.
  pub guards :
      (fuel p : ℕ) (needed : Marks)
      → (InRange p × (flag needed (p - pool.start) ≡ false))
        ⊎ ((InRange p → IsMarked needed p)
            × (mark_needed pool (count_of pool) (suc fuel) p needed ≡ needed))
  unfolding mark_needed
  guards fuel p needed = elim (Bool-cases (ltb p pool.start || leb pool.end p)) [
    | inl t ↦ inr (λ r. absurd (ground arith), rw t refl)
    | inr f ↦
        let r : InRange p = ground arith in
        elim (Bool-cases (flag needed (p - pool.start))) [
          | inr clear ↦ inl (r, clear)
          | inl set ↦ inr (λ x. set, ground arith)
        ]
  ]

  pub mark_needed_marks :
      (fuel p : ℕ) (needed : Marks)
      → InRange p
      → flag needed (p - pool.start) ≡ false
      → mark_needed pool (count_of pool) (suc fuel) p needed
        ≡ each
            (mark_needed pool (count_of pool) fuel)
            (dependencies pool p)
            (mark_at (p - pool.start) needed)
  unfolding mark_needed
  mark_needed_marks fuel p needed r h = ground arith

  -- With fuel for every package that is not marked yet, the call marks `p` and all that follows.
  pub mark_needed_lem :
      (fuel p : ℕ) (needed : Marks)
      → length needed ≡ count_of pool
      → unmarked needed ≤ fuel
      → Grown needed (mark_needed pool (count_of pool) fuel p needed)
        × (InRange p → IsMarked (mark_needed pool (count_of pool) fuel p needed) p)
  mark_needed_lem zero p needed l u =
      unfold mark_needed in
      (Grown-refl needed, λ r. all_marked needed (p - pool.start) (omega arith) (omega arith))
  mark_needed_lem (suc fuel) p needed l u = elim (guards fuel p needed) [
    | inr (marked, same) ↦ rw (same) (Grown-refl needed, marked)
    | inl (r, clear) ↦
        let i = p - pool.start in
        let inside : i < length needed = omega arith in
        let nd = mark_at i needed in
        let less : unmarked nd < unmarked needed = unmarked-mark_at i needed inside clear in
        let (grown, all) =
          each-IsMarking (mark_needed pool (count_of pool) fuel) fuel
            (λ q n l' u'. mark_needed_lem fuel q n l' u') (dependencies pool p) nd
            (length-mark_at i needed ∙ l) (omega arith) in
        rw (mark_needed_marks fuel p needed r clear) (
          (
            Within-trans needed nd _ (mark_at-Within i needed) grown.0,
            λ q rq m. elim (grown.1 q rq m) [
              | inr s ↦ inr s
              | inl early ↦ elim (flag-mark_at i (q - pool.start) needed early) [
                | inr old ↦ inl old
                | inl e ↦ let same : p ≡ q = omega arith in inr (subst (IsSettled _) same all)
              ]
            ],
          ),
          λ rp. grown.0.1 i (flag-mark_at_self i needed inside),
        )
  ]
