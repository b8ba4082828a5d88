-- ===== src/Text/Search/Finding.antt =====
-- `bsearch` over a sorted array finds an element with the key exactly if there is one.
use mathlib.Core.List.{Memᴰ}
use mathlib.Core.List.Memᴰ
use mathlib.Core.Path.{subst}
use aept.Base.{
  ℕ, zero, suc, ◌-◌, ◌/◌, ◌≤◌, ◌≡◌, refl, ap, sym, inl, inr, true, false, Option, none, some, List,
  [], ◌∷◌, ◌++◌, arith, Ordering, Bool-cases, List-cases, length, length-take-le, take, drop,
  any-append, All,
}
use aept.Text.Strings.{Bytes, str_eq, str_eq_iff}
use aept.Text.Order.{strcmp, str_le, strcmp_eq_iff, strcmp_swap}
use aept.Text.Search.{bsearch_in, bsearch, IsSorted, has_key}

module _ {ℓ} {A : Type ℓ} where
  take-append-drop : (n : ℕ) (xs : List A) → take n xs ++ drop n xs ≡ xs
  take-append-drop zero xs = refl
  take-append-drop (suc n) [] = refl
  take-append-drop (suc n) (x ∷ xs) = rw (take-append-drop n xs)

  length-drop : (n : ℕ) (xs : List A) → length (drop n xs) ≡ length xs - n
  length-drop zero xs = omega arith
  length-drop (suc n) [] = omega arith
  length-drop (suc n) (x ∷ xs) = omega (arith, length-drop n xs)

module _ {A : Type 0} (key : A → Bytes) where
  -- What `bsearch` promises of its result.
  abbrev pub Finds : Bytes → List A → Option A → Type 0
  Finds k xs none = has_key key k xs ≡ false
  Finds k xs (some a) = Memᴰ a xs × (key a ≡ k)

  -- The parts of a sorted array around one element.
  record Around (l : List A) (m : A) (r : List A) : Type 0 where
    below : All (λ y. str_le (key y) (key m) ≡ true) l
    above : All (λ y. str_le (key m) (key y) ≡ true) r
    left : IsSorted key l
    right : IsSorted key r

  All-left {κ} : (P : A → Type κ) (l r : List A) → All P (l ++ r) → All P l
  All-left P [] r h = tt
  All-left P (x ∷ l) r h = (h.0, All-left P l r h.1)

  All-middle {κ} : (P : A → Type κ) (l : List A) (m : A) (r : List A) → All P (l ++ m ∷ r) → P m
  All-middle P [] m r h = h.0
  All-middle P (x ∷ l) m r h = All-middle P l m r h.1

  split_sorted : (l : List A) (m : A) (r : List A) → IsSorted key (l ++ m ∷ r) → Around l m r
  split_sorted [] m r h = record { below = tt; above = h.0; left = tt; right = h.1 }
  split_sorted (x ∷ l) m r h =
      let rest = split_sorted l m r h.1 in
      record {
        below = (All-middle (λ y. str_le (key x) (key y) ≡ true) l m r h.0, rest.below);
        above = rest.above;
        left = (All-left (λ y. str_le (key x) (key y) ≡ true) l (m ∷ r) h.0, rest.left);
        right = rest.right;
      }

  lt_of_lt_of_le :
      (k a b : Bytes) → strcmp k a ≡ Ordering.lt → str_le a b ≡ true → str_eq k b ≡ false
  lt_of_lt_of_le k a b h e = elim (Bool-cases (str_eq k b)) [
    | inl t ↦ ground (arith, strcmp_swap a b, (str_eq_iff k b).0 t)
    | inr f ↦ f
  ]

  gt_of_le_of_gt :
      (k a b : Bytes) → strcmp k b ≡ Ordering.gt → str_le a b ≡ true → str_eq k a ≡ false
  gt_of_le_of_gt k a b h e = elim (Bool-cases (str_eq k a)) [
    | inl t ↦ ground (arith, (str_eq_iff k a).0 t)
    | inr f ↦ f
  ]

  none_above :
      (k : Bytes) (m : A) (r : List A)
      → strcmp k (key m) ≡ Ordering.lt
      → All (λ y. str_le (key m) (key y) ≡ true) r
      → has_key key k r ≡ false
  none_above k m [] h a = refl
  none_above k m (y ∷ r) h a =
      ground (arith, lt_of_lt_of_le k (key m) (key y) h a.0, none_above k m r h a.1)

  none_below :
      (k : Bytes) (m : A) (l : List A)
      → strcmp k (key m) ≡ Ordering.gt
      → All (λ y. str_le (key y) (key m) ≡ true) l
      → has_key key k l ≡ false
  none_below k m [] h a = refl
  none_below k m (y ∷ l) h a =
      ground (arith, gt_of_le_of_gt k (key y) (key m) h a.0, none_below k m l h a.1)

  Finds-left :
      (k : Bytes) (l : List A) (m : A) (r : List A) (o : Option A)
      → strcmp k (key m) ≡ Ordering.lt
      → All (λ y. str_le (key m) (key y) ≡ true) r
      → Finds k l o
      → Finds k (l ++ m ∷ r) o
  Finds-left k l m r none h a f =
      rw (any-append (λ x. str_eq k (key x)) l (m ∷ r))
        (ground (arith, none_above k m r h a, str_eq_iff k (key m), strcmp_eq_iff k (key m)))
  Finds-left k l m r (some x) h a f = (Memᴰ.append_left (m ∷ r) f.0, f.1)

  Finds-right :
      (k : Bytes) (l : List A) (m : A) (r : List A) (o : Option A)
      → strcmp k (key m) ≡ Ordering.gt
      → All (λ y. str_le (key y) (key m) ≡ true) l
      → Finds k r o
      → Finds k (l ++ m ∷ r) o
  Finds-right k l m r none h a f =
      rw (any-append (λ x. str_eq k (key x)) l (m ∷ r))
        (ground (arith, none_below k m l h a, str_eq_iff k (key m), strcmp_eq_iff k (key m)))
  Finds-right k l m r (some x) h a f = (Memᴰ.append_right l (Memᴰ.tail f.0), f.1)

  -- One round, at the element in the middle.
  bsearch_round :
      (f : ℕ) (k : Bytes) (l : List A) (m : A) (r : List A)
      → Around l m r
      → Finds k l (bsearch_in key f k l)
      → Finds k r (bsearch_in key f k r)
      → Finds k (l ++ m ∷ r) (elim (strcmp k (key m)) [
        | Ordering.eq ↦ some m
        | Ordering.lt ↦ bsearch_in key f k l
        | Ordering.gt ↦ bsearch_in key f k r
      ])
  bsearch_round f k l m r s hl hr = go (strcmp k (key m)) refl
    where
      go :
          (o : Ordering)
          → strcmp k (key m) ≡ o
          → Finds k (l ++ m ∷ r) (elim o [
            | Ordering.eq ↦ some m
            | Ordering.lt ↦ bsearch_in key f k l
            | Ordering.gt ↦ bsearch_in key f k r
          ])
      go Ordering.eq e = (Memᴰ.append_right l (Memᴰ.head refl), sym ((strcmp_eq_iff k (key m)).0 e))
      go Ordering.lt e = Finds-left k l m r (bsearch_in key f k l) e s.above hl
      go Ordering.gt e = Finds-right k l m r (bsearch_in key f k r) e s.below hr

  has_key_empty : (k : Bytes) (xs : List A) → length xs ≡ 0 → has_key key k xs ≡ false
  has_key_empty k [] h = refl
  has_key_empty k (x ∷ xs) h = absurd (omega arith)

  -- What one round of the search computes.
  abbrev round : ℕ → Bytes → List A → A → List A → Option A
  round f k l m r = elim (strcmp k (key m)) [
    | Ordering.eq ↦ some m
    | Ordering.lt ↦ bsearch_in key f k l
    | Ordering.gt ↦ bsearch_in key f k r
  ]

  bsearch_in_empty :
      (f : ℕ) (k : Bytes) (xs : List A)
      → drop (length xs / 2) xs ≡ []
      → bsearch_in key (suc f) k xs ≡ none
  unfolding bsearch_in
  bsearch_in_empty f k xs e = rw (e, bsearch_in)

  bsearch_in_at :
      (f : ℕ) (k : Bytes) (xs : List A) (m : A) (r : List A)
      → drop (length xs / 2) xs ≡ m ∷ r
      → bsearch_in key (suc f) k xs ≡ round f k (take (length xs / 2) xs) m r
  unfolding bsearch_in
  bsearch_in_at f k xs m r e = rw (e, bsearch_in)

  bsearch_in-Finds :
      (f : ℕ) (k : Bytes) (xs : List A)
      → IsSorted key xs
      → length xs ≤ f
      → Finds k xs (bsearch_in key f k xs)
  bsearch_in-Finds zero k xs s h = unfold bsearch_in in has_key_empty k xs (omega arith)
  bsearch_in-Finds (suc f) k xs s h =
      let n = length xs / 2 in
      let left = take n xs in
      elim (List-cases (drop n xs)) [
        | inl e ↦
            rw (bsearch_in_empty f k xs e)
              (has_key_empty k xs (omega (arith, length-drop n xs, ap length e)))
        | inr (m, r, e) ↦
            let whole : left ++ m ∷ r ≡ xs = rw e at (take-append-drop n xs) in
            let parts = split_sorted left m r (subst (IsSorted key) (sym whole) s) in
            rw (bsearch_in_at f k xs m r e) (
              subst (λ ys. Finds k ys (round f k left m r)) whole
                (bsearch_round f k left m r parts
                  (bsearch_in-Finds f k left parts.left (omega (arith, length-take-le n xs)))
                  (bsearch_in-Finds f k r parts.right
                    (omega (arith, length-drop n xs, ap length e)))))
      ]

  -- On a sorted array `bsearch` returns an element of the array with the key that it is asked for,
  -- and nothing only if no element has that key.
  pub bsearch-Finds : (k : Bytes) (xs : List A) → IsSorted key xs → Finds k xs (bsearch key k xs)
  unfolding bsearch
  bsearch-Finds k xs s = bsearch_in-Finds (length xs) k xs s (omega arith)
