-- ===== src/Fileset/Contains.antt =====
-- A search in the file set answers for the paths that were added.
use mathlib.Core.List.{Perm, Memᴰ}
use mathlib.Core.List.Perm
use mathlib.Core.List.Memᴰ
use aept.Base.{
  ◌≡◌, refl, ap, sym, ◌∙◌, inl, inr, Bool, true, false, not, ◌&&◌, ◌||◌, Option, none, some, List,
  [], ◌∷◌, arith, leb, ◌≤◌, ◌==◌, length, Bool-cases, any, any-append,
}
use aept.Text.Strings.{Bytes, str_eq, str_eq_iff, is_empty}
use aept.Text.Search.{bsearch, IsSorted, has_key}
use aept.Text.Search.Sorting.{qsort-perm, qsort-IsSorted, any-qsort}
use aept.Text.Search.Finding.{Finds, bsearch-Finds}
use aept.Util.{normalize_path}
use aept.Fileset.{Fileset, fileset_init, path_key, fileset_add, fileset_sort, fileset_contains}

-- The flag tells the truth.
abbrev pub IsValid : Fileset → Type 0
IsValid fs = fs.sorted ≡ true → IsSorted path_key fs.paths

pub fileset_init-IsValid : IsValid fileset_init
fileset_init-IsValid h = tt

pub fileset_add-IsValid : (fs : Fileset) (path : Bytes) → IsValid fs → IsValid (fileset_add fs path)
unfolding fileset_add
fileset_add-IsValid fs path v = elim (Bool-cases (is_empty (normalize_path path))) [
  | inl t ↦ rw t v
  | inr f ↦ rw f (λ h. cc)
]

short-IsSorted : (ps : List Bytes) → length ps ≤ 1 → IsSorted path_key ps
short-IsSorted [] h = tt
short-IsSorted (p ∷ []) h = (tt, tt)
short-IsSorted (p ∷ q ∷ ps) h = absurd (omega arith)

-- Sorting a set keeps its paths, and puts them in order.
pub fileset_sort-IsSorted :
    (fs : Fileset)
    → IsValid fs
    → IsSorted path_key (fileset_sort fs).paths × Perm (fileset_sort fs).paths fs.paths
unfolding fileset_sort
fileset_sort-IsSorted fs v = elim (Bool-cases fs.sorted) [
  | inl t ↦ rw t (v t, Perm.refl fs.paths)
  | inr f ↦ elim (Bool-cases (leb (length fs.paths) 1)) [
    | inl short ↦ rw (f, short) (short-IsSorted fs.paths (ground arith), Perm.refl fs.paths)
    | inr long ↦ rw (f, long) (qsort-IsSorted path_key fs.paths, qsort-perm path_key fs.paths)
  ]
]

any-sort : (p : Bytes → Bool) (fs : Fileset) → any p (fileset_sort fs).paths ≡ any p fs.paths
unfolding fileset_sort
any-sort p fs = ground (arith, any-qsort path_key p fs.paths)

pub fileset_sort-IsValid : (fs : Fileset) → IsValid fs → IsValid (fileset_sort fs)
fileset_sort-IsValid fs v h = (fileset_sort-IsSorted fs v).0

has_key_of_mem : (k a : Bytes) (ps : List Bytes) → Memᴰ a ps → a ≡ k → has_key path_key k ps ≡ true
has_key_of_mem k a [] m e = absurd (Memᴰ.not-nil m)
has_key_of_mem k a (p ∷ ps) m e = elim (Memᴰ.cases_cons m) [
  | inl here ↦ rw ((str_eq_iff k p).1 (sym e ∙ here)) refl
  | inr later ↦ rw (has_key_of_mem k a ps later e) (ground arith)
]

found : Option Bytes → Bool
found o = elim o [ none ↦ false | some hit ↦ true ]

bsearch-has_key :
    (k : Bytes) (ps : List Bytes)
    → IsSorted path_key ps
    → found (bsearch path_key k ps) ≡ has_key path_key k ps
unfolding found
bsearch-has_key k ps s = go (bsearch path_key k ps) (bsearch-Finds path_key k ps s)
  where
    go : (o : Option Bytes) → Finds path_key k ps o → found o ≡ has_key path_key k ps
    go none h = sym h
    go (some a) h = sym (has_key_of_mem k a ps h.0 h.1)

any_empty : (p : Bytes → Bool) (ps : List Bytes) → length ps ≡ 0 → any p ps ≡ false
any_empty p [] h = refl
any_empty p (q ∷ ps) h = absurd (omega arith)

str_eq_empty : (p q : Bytes) → is_empty p ≡ false → is_empty q ≡ true → str_eq p q ≡ false
unfolding str_eq
str_eq_empty [] q h k = cc
str_eq_empty (c ∷ p) [] h k = refl
str_eq_empty (c ∷ p) (d ∷ q) h k = cc

-- The answer of `aept_fileset_contains`: some stored path is the normal form of the path asked for,
-- which is not empty.
pub fileset_contains_lem :
    (fs : Fileset) (path : Bytes)
    → IsValid fs
    → (fileset_contains fs path).0
      ≡ (not (is_empty (normalize_path path)) && any (str_eq (normalize_path path)) fs.paths)
unfolding fileset_contains found
fileset_contains_lem fs path v =
    let p = normalize_path path in
    ground (
      arith,
      any_empty (str_eq p) fs.paths,
      bsearch-has_key p (fileset_sort fs).paths (fileset_sort-IsSorted fs v).0,
      any-sort (str_eq p) fs,
    )

paths-add :
    (fs : Fileset) (added path : Bytes)
    → (not (is_empty (normalize_path path))
        && any (str_eq (normalize_path path)) (fileset_add fs added).paths)
      ≡ ((not (is_empty (normalize_path path)) && any (str_eq (normalize_path path)) fs.paths)
          || (not (is_empty (normalize_path path))
              && str_eq (normalize_path path) (normalize_path added)))
unfolding fileset_add
paths-add fs added path =
    let p = normalize_path path in
    let q = normalize_path added in
    ground (arith, any-append (str_eq p) fs.paths (q ∷ []), str_eq_empty p q)

pub searched-IsValid :
    (fs : Fileset) (path : Bytes) → IsValid fs → IsValid (fileset_contains fs path).1
unfolding fileset_contains
searched-IsValid fs path v =
    elim (Bool-cases (length fs.paths == 0 || is_empty (normalize_path path))) [
      | inl t ↦ rw t v
      | inr f ↦ rw f (fileset_sort-IsValid fs v)
    ]

paths_searched :
    (fs : Fileset) (first path : Bytes)
    → (not (is_empty (normalize_path path))
        && any (str_eq (normalize_path path)) (fileset_contains fs first).1.paths)
      ≡ (not (is_empty (normalize_path path)) && any (str_eq (normalize_path path)) fs.paths)
unfolding fileset_contains
paths_searched fs first path = ground (arith, any-sort (str_eq (normalize_path path)) fs)

-- Adding a path to a set whose flag tells the truth: the set then answers for the paths with the
-- same normal form, unless that is empty, and for all others as before.
pub contains-add :
    (fs : Fileset) (added path : Bytes)
    → IsValid fs
    → (fileset_contains (fileset_add fs added) path).0 ≡ (
        (fileset_contains fs path).0
        || (not (is_empty (normalize_path path))
            && str_eq (normalize_path path) (normalize_path added)))
contains-add fs added path v =
    fileset_contains_lem (fileset_add fs added) path (fileset_add-IsValid fs added v)
    ∙ paths-add fs added path
    ∙ rw (fileset_contains_lem fs path v)

-- A search changes no later answer: it leaves a set whose flag tells the truth, and that answers
-- every question as before.
pub contains-contains :
    (fs : Fileset) (first path : Bytes)
    → IsValid fs
    → (fileset_contains (fileset_contains fs first).1 path).0 ≡ (fileset_contains fs path).0
contains-contains fs first path v =
    fileset_contains_lem (fileset_contains fs first).1 path (searched-IsValid fs first v)
    ∙ paths_searched fs first path
    ∙ sym (fileset_contains_lem fs path v)

-- Sorting a set changes no answer.
pub contains-sort :
    (fs : Fileset) (path : Bytes)
    → IsValid fs
    → (fileset_contains (fileset_sort fs) path).0 ≡ (fileset_contains fs path).0
contains-sort fs path v =
    fileset_contains_lem (fileset_sort fs) path (fileset_sort-IsValid fs v)
    ∙ ap (λ b. not (is_empty (normalize_path path)) && b)
        (any-sort (str_eq (normalize_path path)) fs)
    ∙ sym (fileset_contains_lem fs path v)
