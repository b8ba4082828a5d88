-- ===== src/Solver/Newest.antt =====
-- `aept_solver_find_available` finds the newest version that a repository has.
use aept.Base.{
  ◌≡◌, refl, ◌⊎◌, inl, inr, ℕ, Bool, true, false, Option, none, some, List, [], ◌∷◌, arith, ◌==◌,
  ==_iff, any, Bool-cases,
}
use mathlib.Core.Path.{subst}
use aept.Text.Strings.{Bytes}
use aept.Solver.Jobs.{Pool, better, newest, find_available}

-- What the comparison of versions is good for.
pub record IsOrder (older : Bytes → Bytes → Bool) : Type 0 where
  pub irreflexive : (a : Bytes) → older a a ≡ false
  pub transitive : (a b c : Bytes) → older a b ≡ true → older b c ≡ true → older a c ≡ true

abbrev pub is_among : ℕ → List ℕ → Bool
is_among p ps = any (λ q. q == p) ps

-- A solvable of a repository, of which there is no newer one.
abbrev pub IsNewest : Pool → List ℕ → Option ℕ → Type 0
IsNewest pool ps none = (q : ℕ) → is_among q ps ≡ true → pool.is_installed q ≡ true
IsNewest pool ps (some p) =
    (is_among p ps ≡ true)
    × (pool.is_installed p ≡ false)
    × ((q : ℕ)
        → is_among q ps ≡ true
        → pool.is_installed q ≡ false
        → pool.older (pool.evr p) (pool.evr q) ≡ false)

module _ (pool : Pool) (order : IsOrder pool.older) where
  -- The best one so far is not older than `q`.
  abbrev Covers : ℕ → Option ℕ → Type 0
  Covers q none = ⊥
  Covers q (some b) = pool.older (pool.evr b) (pool.evr q) ≡ false

  keeps :
      (b p q : ℕ)
      → pool.older (pool.evr b) (pool.evr p) ≡ true
      → pool.older (pool.evr b) (pool.evr q) ≡ false
      → pool.older (pool.evr p) (pool.evr q) ≡ false
  keeps b p q h k = elim (Bool-cases (pool.older (pool.evr p) (pool.evr q))) [
    | inr f ↦ f
    | inl t ↦ let u = order.transitive (pool.evr b) (pool.evr p) (pool.evr q) h t in absurd (cc)
  ]

  better-Covers : (p q : ℕ) (best : Option ℕ) → Covers q best → Covers q (better pool p best)
  better-Covers p q none h = absurd h
  better-Covers p q (some b) h = elim (Bool-cases (pool.is_installed p)) [
    | inl t ↦ rw t h
    | inr f ↦ elim (Bool-cases (pool.older (pool.evr b) (pool.evr p))) [
      | inl newer ↦ rw (f, newer) (keeps b p q newer h)
      | inr other ↦ rw (f, other) h
    ]
  ]

  better-Covers_self :
      (p : ℕ) (best : Option ℕ) → pool.is_installed p ≡ false → Covers p (better pool p best)
  better-Covers_self p none h = rw h (order.irreflexive (pool.evr p))
  better-Covers_self p (some b) h = elim (Bool-cases (pool.older (pool.evr b) (pool.evr p))) [
    | inl newer ↦ rw (h, newer) (order.irreflexive (pool.evr p))
    | inr other ↦ rw (h, other) other
  ]

  newest-Covers :
      (q : ℕ) (ps : List ℕ) (best : Option ℕ) → Covers q best → Covers q (newest pool ps best)
  unfolding newest
  newest-Covers q [] best h = h
  newest-Covers q (p ∷ ps) best h =
      newest-Covers q ps (better pool p best) (better-Covers p q best h)

  newest-Covers_among :
      (q : ℕ) (ps : List ℕ) (best : Option ℕ)
      → is_among q ps ≡ true
      → pool.is_installed q ≡ false
      → Covers q (newest pool ps best)
  unfolding newest
  newest-Covers_among q [] best h k = cc
  newest-Covers_among q (p ∷ ps) best h k = elim (Bool-cases (p == q)) [
    | inl same ↦
        let e = (==_iff p q).0 same in
        newest-Covers q ps (better pool p best) (rw e (better-Covers_self q best k))
    | inr other ↦ newest-Covers_among q ps (better pool p best) (ground arith) k
  ]

  -- Where the best one comes from.
  abbrev IsFrom : List ℕ → Option ℕ → ℕ → Type 0
  IsFrom ps best c = (best ≡ some c) ⊎ ((is_among c ps ≡ true) × (pool.is_installed c ≡ false))

  better-IsFrom :
      (p : ℕ) (best : Option ℕ) (c : ℕ) → better pool p best ≡ some c → IsFrom (p ∷ []) best c
  better-IsFrom p none c = elim (Bool-cases (pool.is_installed p)) [
    | inl t ↦ rw t (λ h. cc)
    | inr f ↦ rw f (λ h. let e : p ≡ c = cc in inr (rw (← e, (==_iff p p).1 refl) (refl, f)))
  ]
  better-IsFrom p (some b) c = elim (Bool-cases (pool.is_installed p)) [
    | inl t ↦ rw t (λ h. inl h)
    | inr f ↦ elim (Bool-cases (pool.older (pool.evr b) (pool.evr p))) [
      | inl newer ↦
          rw (f, newer) (λ h. let e : p ≡ c = cc in inr (rw (← e, (==_iff p p).1 refl) (refl, f)))
      | inr other ↦ rw (f, other) (λ h. inl h)
    ]
  ]

  newest-IsFrom :
      (ps : List ℕ) (best : Option ℕ) (c : ℕ) → newest pool ps best ≡ some c → IsFrom ps best c
  unfolding newest
  newest-IsFrom [] best c h = inl h
  newest-IsFrom (p ∷ ps) best c h = elim (newest-IsFrom ps (better pool p best) c h) [
    | inr (m, f) ↦ inr (ground arith, f)
    | inl e ↦ elim (better-IsFrom p best c e) [
      | inl start ↦ inl start
      | inr (m, f) ↦ inr (ground arith, f)
    ]
  ]

  newest-IsNewest : (ps : List ℕ) (o : Option ℕ) → newest pool ps none ≡ o → IsNewest pool ps o
  newest-IsNewest ps none e = λ q m. elim (Bool-cases (pool.is_installed q)) [
    | inl t ↦ t
    | inr f ↦ absurd (subst (Covers q) e (newest-Covers_among q ps none m f))
  ]
  newest-IsNewest ps (some p) e = elim (newest-IsFrom ps none p e) [
    | inl h ↦ cc
    | inr (m, f) ↦ (m, f, λ q k g. subst (Covers q) e (newest-Covers_among q ps none k g))
  ]

  -- Where versions are ordered, `aept_solver_find_available` gives a solvable of a repository that provides
  -- the name, and no other one of these is newer; if it gives none, all that provide it are installed.
  pub find_available-IsNewest :
      (name : Bytes) (id : ℕ)
      → pool.str2id name ≡ some id
      → IsNewest pool (pool.providers id) (find_available pool name)
  unfolding find_available
  find_available-IsNewest name id h =
      rw (h, find_available)
        (newest-IsNewest (pool.providers id) (newest pool (pool.providers id) none) refl)
