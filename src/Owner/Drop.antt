-- ===== src/Owner/Drop.antt =====
-- What the loop of `aept_owner_index_drop_owner` does to the owners and the dead.
use mathlib.Core.List.{Memᴰ}
use mathlib.Core.List.Memᴰ
use aept.Base.{
  ℕ, zero, suc, ◌≤◌, ◌≡◌, ◌≢◌, ◌↔◌, refl, ap, sym, ◌∙◌, ◌⊎◌, inl, inr, Bool, true, false, List, [],
  ◌∷◌, ◌++◌, arith, ◌==◌, Bool-cases, any, any-append, length,
}
use aept.Text.Strings.{Bytes, str_eq, str_eq_iff}
use aept.Owner.{OwnerName, split_last, drop_loop}

-- The pointer is among the dead.
abbrev pub buried : ℕ → List OwnerName → Bool
buried p = any (λ d. d.pointer == p)

module _ {ℓ} {A : Type ℓ} where
  length-split_last : (x : A) (xs : List A) → length (split_last x xs).0 ≡ length xs
  unfolding split_last
  length-split_last x [] = refl
  length-split_last x (y ∷ ys) = ap suc (length-split_last y ys)

  -- Moving the last element to the front loses none and adds none.
  mem-split_last :
      (a x : A) (xs : List A) → Memᴰ a (x ∷ xs) ↔ Memᴰ a ((split_last x xs).1 ∷ (split_last x xs).0)
  unfolding split_last
  mem-split_last a x [] = (λ m. m, λ m. m)
  mem-split_last a x (y ∷ ys) = (
    λ m. elim (Memᴰ.cases_cons m) [
      | inl e ↦ Memᴰ.tail (Memᴰ.head e)
      | inr t ↦ elim (Memᴰ.cases_cons ((mem-split_last a y ys).0 t)) [
        | inl e ↦ Memᴰ.head e
        | inr t' ↦ Memᴰ.tail (Memᴰ.tail t')
      ]
    ],
    λ m. elim (Memᴰ.cases_cons m) [
      | inl e ↦ Memᴰ.tail ((mem-split_last a y ys).1 (Memᴰ.head e))
      | inr t ↦ elim (Memᴰ.cases_cons t) [
        | inl e ↦ Memᴰ.head e
        | inr t' ↦ Memᴰ.tail ((mem-split_last a y ys).1 (Memᴰ.tail t'))
      ]
    ],
  )

buried_append :
    (p : ℕ) (ds : List OwnerName) (o : OwnerName)
    → buried p ds ≡ true
    → buried p (ds ++ o ∷ []) ≡ true
buried_append p ds o h = rw (any-append (λ d. d.pointer == p) ds (o ∷ [])) (rw h)

buried_last : (ds : List OwnerName) (o : OwnerName) → buried o.pointer (ds ++ o ∷ []) ≡ true
buried_last ds o = rw (any-append (λ d. d.pointer == o.pointer) ds (o ∷ [])) (ground arith)

-- What the loop leaves: only owners that it was given, none of them of the name; and what it takes
-- away is of the name, and buried.
pub record Dropped (n : Bytes) (os ds os' ds' : List OwnerName) : Type 0 where
  pub kept : (o : OwnerName) → Memᴰ o os' → Memᴰ o os × (o.name ≢ n)
  pub split :
      (o : OwnerName) → Memᴰ o os → Memᴰ o os' ⊎ ((o.name ≡ n) × (buried o.pointer ds' ≡ true))
  pub older : (p : ℕ) → buried p ds ≡ true → buried p ds' ≡ true
  pub newer :
      (p : ℕ)
      → buried p ds' ≡ true
      → (buried p ds ≡ true) ⊎ ((o : OwnerName) × Memᴰ o os × (o.name ≡ n) × (o.pointer ≡ p))

Dropped-nil : (n : Bytes) (ds : List OwnerName) → Dropped n [] ds [] ds
Dropped-nil n ds = record {
  kept = λ o m. absurd (Memᴰ.not-nil m);
  split = λ o m. absurd (Memᴰ.not-nil m);
  older = λ p h. h;
  newer = λ p h. inl h;
}

Dropped-skip :
    (n : Bytes) (o : OwnerName) (os ds os' ds' : List OwnerName)
    → o.name ≢ n
    → Dropped n os ds os' ds'
    → Dropped n (o ∷ os) ds (o ∷ os') ds'
Dropped-skip n o os ds os' ds' ne d = record {
  kept = λ x m. elim (Memᴰ.cases_cons m) [
    | inl e ↦ (Memᴰ.head e, λ k. ne (ap (λ (y : OwnerName). y.name) (sym e) ∙ k))
    | inr t ↦ (Memᴰ.tail (d.kept x t).0, (d.kept x t).1)
  ];
  split = λ x m. elim (Memᴰ.cases_cons m) [
    | inl e ↦ inl (Memᴰ.head e)
    | inr t ↦ elim (d.split x t) [ inl l ↦ inl (Memᴰ.tail l) | inr r ↦ inr r ]
  ];
  older = d.older;
  newer = λ p h. elim (d.newer p h) [
    | inl old ↦ inl old
    | inr (x, m, e, q) ↦ inr (x, Memᴰ.tail m, e, q)
  ];
}

buried_append_cases :
    (p : ℕ) (ds : List OwnerName) (o : OwnerName)
    → buried p (ds ++ o ∷ []) ≡ true
    → (buried p ds ≡ true) ⊎ (o.pointer ≡ p)
buried_append_cases p ds o h = ground (arith, any-append (λ d. d.pointer == p) ds (o ∷ []))

-- The owner in front is of the name: it is buried, and the loop goes on with the others.
Dropped-take :
    (n : Bytes) (o : OwnerName) (os rest ds os' ds' : List OwnerName)
    → o.name ≡ n
    → ((x : OwnerName) → Memᴰ x os ↔ Memᴰ x rest)
    → Dropped n rest (ds ++ o ∷ []) os' ds'
    → Dropped n (o ∷ os) ds os' ds'
Dropped-take n o os rest ds os' ds' e same d = record {
  kept = λ x m. (Memᴰ.tail ((same x).1 (d.kept x m).0), (d.kept x m).1);
  split = λ x m. elim (Memᴰ.cases_cons m) [
    | inl k ↦ inr (
      ap (λ (y : OwnerName). y.name) k ∙ e,
      rw (ap (λ (y : OwnerName). y.pointer) k) (d.older o.pointer (buried_last ds o)),
    )
    | inr t ↦ d.split x ((same x).0 t)
  ];
  older = λ p h. d.older p (buried_append p ds o h);
  newer = λ p h. elim (d.newer p h) [
    | inl old ↦ elim (buried_append_cases p ds o old) [
      | inl h' ↦ inl h'
      | inr q ↦ inr (o, Memᴰ.head refl, e, q)
    ]
    | inr (x, m, k, q) ↦ inr (x, Memᴰ.tail ((same x).1 m), k, q)
  ];
}

drop_loop_skip :
    (f : ℕ) (n : Bytes) (o : OwnerName) (os ds : List OwnerName)
    → str_eq o.name n ≡ false
    → drop_loop (suc f) n (o ∷ os) ds ≡ (o ∷ (drop_loop f n os ds).0, (drop_loop f n os ds).1)
unfolding drop_loop
drop_loop_skip f n o os ds e = rw (e, drop_loop)

drop_loop_last :
    (f : ℕ) (n : Bytes) (o : OwnerName) (ds : List OwnerName)
    → str_eq o.name n ≡ true
    → drop_loop (suc f) n (o ∷ []) ds ≡ ([], ds ++ o ∷ [])
unfolding drop_loop
drop_loop_last f n o ds e = rw (e, drop_loop)

abbrev moved : OwnerName → List OwnerName → List OwnerName
moved p ps = (split_last p ps).1 ∷ (split_last p ps).0

drop_loop_take :
    (f : ℕ) (n : Bytes) (o p : OwnerName) (ps ds : List OwnerName)
    → str_eq o.name n ≡ true
    → drop_loop (suc f) n (o ∷ p ∷ ps) ds ≡ drop_loop f n (moved p ps) (ds ++ o ∷ [])
unfolding drop_loop
drop_loop_take f n o p ps ds e = rw (e, drop_loop)

-- The number of owners left is fuel enough.
pub drop_loop-Dropped :
    (f : ℕ) (n : Bytes) (os ds : List OwnerName)
    → length os ≤ f
    → Dropped n os ds (drop_loop f n os ds).0 (drop_loop f n os ds).1
drop_loop-Dropped zero n [] ds h = unfold drop_loop in Dropped-nil n ds
drop_loop-Dropped zero n (o ∷ os) ds h = absurd (omega arith)
drop_loop-Dropped (suc f) n [] ds h = unfold drop_loop in Dropped-nil n ds
drop_loop-Dropped (suc f) n (o ∷ []) ds h = elim (Bool-cases (str_eq o.name n)) [
  | inl t ↦ rw (drop_loop_last f n o ds t) (
      Dropped-take n o [] [] ds [] (ds ++ o ∷ []) ((str_eq_iff o.name n).0 t)
        (λ x. (λ m. m, λ m. m)) (Dropped-nil n (ds ++ o ∷ [])))
  | inr k ↦ rw (drop_loop_skip f n o [] ds k) (
      Dropped-skip n o [] ds (drop_loop f n [] ds).0 (drop_loop f n [] ds).1
        (λ e. cc (k, (str_eq_iff o.name n).1 e)) (drop_loop-Dropped f n [] ds (omega arith)))
]
drop_loop-Dropped (suc f) n (o ∷ p ∷ ps) ds h = elim (Bool-cases (str_eq o.name n)) [
  | inl t ↦ rw (drop_loop_take f n o p ps ds t) (
      Dropped-take n o (p ∷ ps) (moved p ps) ds (drop_loop f n (moved p ps) (ds ++ o ∷ [])).0
        (drop_loop f n (moved p ps) (ds ++ o ∷ [])).1 ((str_eq_iff o.name n).0 t)
        (λ x. mem-split_last x p ps)
        (drop_loop-Dropped f n (moved p ps) (ds ++ o ∷ []) (omega (arith, length-split_last p ps))))
  | inr k ↦ rw (drop_loop_skip f n o (p ∷ ps) ds k) (
      Dropped-skip n o (p ∷ ps) ds (drop_loop f n (p ∷ ps) ds).0 (drop_loop f n (p ∷ ps) ds).1
        (λ e. cc (k, (str_eq_iff o.name n).1 e)) (drop_loop-Dropped f n (p ∷ ps) ds (omega arith)))
]
