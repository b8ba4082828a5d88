-- ===== src/Trigger/Groups.antt =====
-- The scripts that are run: each package once, and for all its directories.
use aept.Base.{
  ℕ, zero, suc, ◌≤◌, ◌≡◌, refl, ap, ◌∙◌, inl, inr, Bool, true, false, not, ◌&&◌, ◌||◌, List, [],
  ◌∷◌, arith, ltb, ◌==◌, length, any, keep, Bool-cases, if◌then◌else◌,
}
use aept.Text.Strings.{Bytes, str_eq, str_eq_iff}
use aept.Files.{Files}
use aept.Config.{Config}
use aept.Trigger.Ctx.{TriggerCtx, holds, sort_and_dedup}
use aept.Trigger.Entries.{TriggerEntry, load_entries}
use aept.Trigger.Run.{Outside, is_fresh, match_entries, of_package, Group, groups, groups_of}
use aept.Trigger.Dirs.{IsDistinct, any-sort_and_dedup}
use aept.Trigger.Matching.{triggers, holds-match_entries}

length-keep-le {ℓ} : {A : Type ℓ} (p : A → Bool) (xs : List A) → length (keep p xs) ≤ length xs
length-keep-le p [] = omega arith
length-keep-le p (x ∷ xs) = elim (Bool-cases (p x)) [
  | inl t ↦ rw t (omega (arith, length-keep-le p xs))
  | inr f ↦ rw f (omega (arith, length-keep-le p xs))
]

any-keep {ℓ} :
    {A : Type ℓ} (q p : A → Bool) (xs : List A)
    → any q xs ≡ (any q (keep p xs) || any q (keep (λ x. not (p x)) xs))
any-keep q p [] = refl
any-keep q p (x ∷ xs) = elim (Bool-cases (p x)) [
  | inl t ↦ rw t (ground (arith, any-keep q p xs))
  | inr f ↦ rw f (ground (arith, any-keep q p xs))
]

-- The script of `pkg` is run for `x`.
abbrev pub runs_for : Bytes → Bytes → Group → Bool
runs_for pkg x g = str_eq g.pkg pkg && holds x g.matched

abbrev pub packages : List Group → List Bytes
packages [] = []
packages (g ∷ gs) = g.pkg ∷ packages gs

module _ (out : Outside) (cfg : Config) (tctx : TriggerCtx) where
  -- The entry is one of `pkg`, and triggers it for `x`.
  abbrev pub calls_for : Bytes → Bytes → TriggerEntry → Bool
  calls_for pkg x e = str_eq e.pkg_name pkg && triggers out cfg tctx (is_fresh tctx e.pkg_name) e x

  -- Entries of one package.
  calls-keep :
      (p pkg x : Bytes) (es : List TriggerEntry)
      → any (calls_for pkg x) (keep (of_package p) es) ≡ (
          str_eq p pkg
          && any (λ e. triggers out cfg tctx (is_fresh tctx p) e x) (keep (of_package p) es))
  calls-keep p pkg x [] = ground arith
  calls-keep p pkg x (e ∷ es) = elim (Bool-cases (of_package p e)) [
    | inr f ↦ rw f (calls-keep p pkg x es)
    | inl t ↦
        let same : e.pkg_name ≡ p = (str_eq_iff e.pkg_name p).0 t in
        let first = ap (λ q. str_eq q pkg && triggers out cfg tctx (is_fresh tctx q) e x) same in
        rw t (ground (arith, first, calls-keep p pkg x es))
  ]

  -- The group of the first entry, where it has directories.
  one_group :
      (p pkg x : Bytes) (m : List Bytes) (rest : List Group)
      → any
          (runs_for pkg x)
          (if ltb 0 (length m) then record { pkg = p; matched = m } ∷ rest else rest)
        ≡ ((str_eq p pkg && holds x m) || any (runs_for pkg x) rest)
  one_group p pkg x [] rest = ground arith
  one_group p pkg x (y ∷ ys) rest = ground arith

  runs-groups :
      (f : ℕ) (es : List TriggerEntry) (pkg x : Bytes)
      → length es ≤ f
      → any (runs_for pkg x) (groups out cfg tctx f es) ≡ any (calls_for pkg x) es
  unfolding groups
  runs-groups zero [] pkg x h = refl
  runs-groups zero (e ∷ es) pkg x h = absurd (omega arith)
  runs-groups (suc f) [] pkg x h = refl
  runs-groups (suc f) (e ∷ es) pkg x h =
      let p = e.pkg_name in
      let mine = keep (of_package p) es in
      let others = keep (λ y. not (of_package p y)) es in
      let m = match_entries out cfg tctx (is_fresh tctx p) (e ∷ mine) [] in
      let shorter = length-keep-le (λ y. not (of_package p y)) es in
      let ih = runs-groups f others pkg x (omega (arith, shorter)) in
      one_group p pkg x m (groups out cfg tctx f others)
      ∙ ground (
        arith,
        ih,
        holds-match_entries out cfg tctx (is_fresh tctx p) (e ∷ mine) [] x,
        calls-keep p pkg x es,
        any-keep (calls_for pkg x) (of_package p) es,
      )

  holds-one_group :
      (p q : Bytes) (m : List Bytes) (rest : List Group)
      → holds q (packages rest) ≡ false
      → str_eq p q ≡ false
      → holds q
          (packages (if ltb 0 (length m) then record { pkg = p; matched = m } ∷ rest else rest))
        ≡ false
  holds-one_group p q [] rest h k = h
  holds-one_group p q (y ∷ ys) rest h k = ground arith

  -- A package that no entry has gets no group.
  groups_absent :
      (f : ℕ) (es : List TriggerEntry) (p : Bytes)
      → any (of_package p) es ≡ false
      → holds p (packages (groups out cfg tctx f es)) ≡ false
  unfolding groups
  groups_absent zero es p h = refl
  groups_absent (suc f) [] p h = refl
  groups_absent (suc f) (e ∷ es) p h =
      let others = keep (λ y. not (of_package e.pkg_name y)) es in
      let split = any-keep (of_package p) (of_package e.pkg_name) es in
      holds-one_group e.pkg_name p _ (groups out cfg tctx f others)
        (groups_absent f others p (ground arith)) (ground arith)

  one_group-IsDistinct :
      (p : Bytes) (m : List Bytes) (rest : List Group)
      → holds p (packages rest) ≡ false
      → IsDistinct (packages rest)
      → IsDistinct
          (packages (if ltb 0 (length m) then record { pkg = p; matched = m } ∷ rest else rest))
  one_group-IsDistinct p [] rest h k = k
  one_group-IsDistinct p (y ∷ ys) rest h k =
      let some_match : ltb 0 (suc (length ys)) ≡ true = ground arith in rw (some_match) (h, k)

  any-others :
      (p : Bytes) (es : List TriggerEntry)
      → any (of_package p) (keep (λ y. not (of_package p y)) es) ≡ false
  any-others p [] = refl
  any-others p (e ∷ es) = elim (Bool-cases (of_package p e)) [
    | inl t ↦ rw t (any-others p es)
    | inr f ↦ rw f (ground (arith, f, any-others p es))
  ]

  pub groups-IsDistinct :
      (f : ℕ) (es : List TriggerEntry) → IsDistinct (packages (groups out cfg tctx f es))
  unfolding groups
  groups-IsDistinct zero es = tt
  groups-IsDistinct (suc f) [] = tt
  groups-IsDistinct (suc f) (e ∷ es) =
      let others = keep (λ y. not (of_package e.pkg_name y)) es in
      one_group-IsDistinct e.pkg_name _ (groups out cfg tctx f others)
        (groups_absent f others e.pkg_name (any-others e.pkg_name es)) (groups-IsDistinct f others)

any-same {ℓ} :
    {A : Type ℓ} (p q : A → Bool) (xs : List A) → ((x : A) → p x ≡ q x) → any p xs ≡ any q xs
any-same p q [] h = refl
any-same p q (x ∷ xs) h = ground (arith, h x, any-same p q xs h)

calls-sort :
    (out : Outside) (cfg : Config) (tctx : TriggerCtx) (pkg x : Bytes) (e : TriggerEntry)
    → calls_for out cfg (record tctx { dirs = sort_and_dedup tctx.dirs }) pkg x e
      ≡ calls_for out cfg tctx pkg x e
unfolding is_fresh
calls-sort out cfg tctx pkg x e =
    let dirs =
      any-sort_and_dedup (λ d. out.fnmatch e.pattern (b'/' ∷ d) && str_eq (b'/' ∷ d) x) tctx.dirs in
    ground (arith, dirs)

pub groups_of_triggers :
    (out : Outside) (cfg : Config) (tctx : TriggerCtx) (names : List Bytes) (fs : Files)
    → ((pkg x : Bytes)
        → any (runs_for pkg x) (groups_of out cfg tctx names fs) ≡ (
            not (length tctx.dirs == 0)
            && any (calls_for out cfg tctx pkg x) (load_entries cfg fs names)))
      × IsDistinct (packages (groups_of out cfg tctx names fs))
unfolding groups_of
groups_of_triggers out cfg tctx names fs =
    let sorted : TriggerCtx = record tctx { dirs = sort_and_dedup tctx.dirs } in
    let es = load_entries cfg fs names in
    elim (Bool-cases (length tctx.dirs == 0)) [
      | inl t ↦ rw t (λ pkg x. refl, tt)
      | inr f ↦ rw f (
        λ pkg x.
            runs-groups out cfg sorted (length es) es pkg x (omega arith)
            ∙ any-same (calls_for out cfg sorted pkg x) (calls_for out cfg tctx pkg x) es
                (calls-sort out cfg tctx pkg x),
        groups-IsDistinct out cfg sorted (length es) es,
      )
    ]
