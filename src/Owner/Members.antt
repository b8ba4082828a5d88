-- ===== src/Owner/Members.antt =====
-- What is in the arrays of the index after sorting, reading a list and looking an owner up.
use mathlib.Core.List.{Memᴰ}
use mathlib.Core.List.Memᴰ
use aept.Base.{
  ◌≡◌, ◌≢◌, ap, sym, ◌∙◌, ◌⊎◌, inl, inr, Bool, true, false, Option, none, some, List, [], ◌∷◌, ◌++◌,
  arith, if◌then◌else◌, Bool-cases,
}
use aept.Text.Strings.{Bytes, str_eq, str_eq_iff}
use aept.Text.Order.{str_le}
use aept.Text.Lines.{read_lines}
use aept.Text.Search.{insert_by, qsort}
use aept.Owner.{
  OwnerName, OwnerEntry, find_owner, list_path_of, append_entry, append_entries, list_buffer,
  read_list_into,
}

mem-insert_by :
    {A : Type 0} (key : A → Bytes) (a x : A) (ys : List A)
    → Memᴰ a (insert_by key x ys)
    → (a ≡ x) ⊎ Memᴰ a ys
unfolding insert_by
mem-insert_by key a x [] m = Memᴰ.cases_cons m
mem-insert_by key a x (y ∷ ys) m = go (str_le (key x) (key y)) (mem-insert_by key a x ys) m
  where
    go :
        (b : Bool)
        → (Memᴰ a (insert_by key x ys) → (a ≡ x) ⊎ Memᴰ a ys)
        → Memᴰ a (if b then x ∷ y ∷ ys else y ∷ insert_by key x ys)
        → (a ≡ x) ⊎ Memᴰ a (y ∷ ys)
    go true ih m = Memᴰ.cases_cons m
    go false ih m = elim (Memᴰ.cases_cons m) [
      | inl e ↦ inr (Memᴰ.head e)
      | inr t ↦ elim (ih t) [ inl e ↦ inl e | inr t' ↦ inr (Memᴰ.tail t') ]
    ]

-- `qsort` brings no new element.
pub mem-qsort :
    {A : Type 0} (key : A → Bytes) (a : A) (xs : List A) → Memᴰ a (qsort key xs) → Memᴰ a xs
unfolding qsort
mem-qsort key a [] m = m
mem-qsort key a (x ∷ xs) m = elim (mem-insert_by key a x (qsort key xs) m) [
  | inl e ↦ Memᴰ.head e
  | inr t ↦ Memᴰ.tail (mem-qsort key a xs t)
]

pub mem_concat : {A : Type 0} (a x : A) (xs : List A) → Memᴰ a (xs ++ x ∷ []) → Memᴰ a xs ⊎ (a ≡ x)
mem_concat a x xs m = elim (Memᴰ.append_cases xs m) [
  | inl l ↦ inl l
  | inr r ↦ inr (Memᴰ.eq_of_singleton r)
]

mem-append_entry :
    (o : OwnerName) (p : Bytes) (arr : List OwnerEntry) (e : OwnerEntry)
    → Memᴰ e (append_entry o p arr)
    → Memᴰ e arr ⊎ (e.owner ≡ o)
unfolding append_entry
mem-append_entry o [] arr e m = inl m
mem-append_entry o (c ∷ cs) arr e m = elim (mem_concat e _ arr m) [
  | inl l ↦ inl l
  | inr k ↦ inr (ap (λ (x : OwnerEntry). x.owner) k)
]

mem-append_entries :
    (o : OwnerName) (ls : List Bytes) (arr : List OwnerEntry) (e : OwnerEntry)
    → Memᴰ e (append_entries o ls arr)
    → Memᴰ e arr ⊎ (e.owner ≡ o)
unfolding append_entries
mem-append_entries o [] arr e m = inl m
mem-append_entries o (l ∷ ls) arr e m =
    elim (mem-append_entries o ls (append_entry o (list_path_of l) arr) e m) [
      | inl k ↦ mem-append_entry o (list_path_of l) arr e k
      | inr k ↦ inr k
    ]

-- `read_list_into` adds entries of the owner that it is given, and no others.
pub mem-read_list_into :
    (file : Option Bytes) (o : OwnerName) (arr : List OwnerEntry) (e : OwnerEntry)
    → Memᴰ e (read_list_into file o arr)
    → Memᴰ e arr ⊎ (e.owner ≡ o)
unfolding read_list_into
mem-read_list_into none o arr e m = inl m
mem-read_list_into (some s) o arr e m = mem-append_entries o (read_lines list_buffer s) arr e m

pub find_owner-some :
    (name : Bytes) (os : List OwnerName) (o : OwnerName)
    → find_owner name os ≡ some o
    → Memᴰ o os × (o.name ≡ name)
unfolding find_owner
find_owner-some name [] o h = cc
find_owner-some name (x ∷ os) o h = elim (Bool-cases (str_eq x.name name)) [
  | inl t ↦
      let e : x ≡ o = ground arith in
      (Memᴰ.head (sym e), ap (λ (y : OwnerName). y.name) (sym e) ∙ (str_eq_iff x.name name).0 t)
  | inr f ↦ let (m, k) = find_owner-some name os o (ground arith) in (Memᴰ.tail m, k)
]

pub find_owner-none :
    (name : Bytes) (os : List OwnerName) (o : OwnerName)
    → find_owner name os ≡ none
    → Memᴰ o os
    → o.name ≢ name
unfolding find_owner
find_owner-none name [] o h m k = absurd (Memᴰ.not-nil m)
find_owner-none name (x ∷ os) o h m k = elim (Bool-cases (str_eq x.name name)) [
  | inl t ↦ ground arith
  | inr f ↦ elim (Memᴰ.cases_cons m) [
    | inl e ↦ cc (f, (str_eq_iff x.name name).1 (ap (λ (y : OwnerName). y.name) (sym e) ∙ k))
    | inr m' ↦ find_owner-none name os o (ground arith) m' k
  ]
]
