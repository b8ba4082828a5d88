-- ===== src/Pin/Abstract.antt =====
-- The pins as a list of entries, with no file, no line and no buffer: the specification of src/pin.c.
use aept.Base.{
  ◌≡◌, refl, Bool, false, Option, none, some, List, [], ◌∷◌, ◌++◌, arith, if◌then◌else◌, Bool-cases,
  inl, inr, any, All,
}
use aept.Text.Strings.{Bytes, str_eq, str_eq_iff}
use aept.Pin.{PinEntry}

abbrev pub named : Bytes → List PinEntry → Bool
named name = any (λ e. str_eq e.name name)

abbrev pub entry : Bytes → Bytes → PinEntry
entry name version = record { name = name; version = version }

-- Every entry of that name gets the version.
abbrev pub replace : Bytes → Bytes → List PinEntry → List PinEntry
replace name version [] = []
replace name version (e ∷ es) =
    (if str_eq e.name name then entry name version else e) ∷ replace name version es

-- The abstract operations: on the list of entries, no file, no line and no buffer.
abbrev pub set_pin : Bytes → Bytes → List PinEntry → List PinEntry
set_pin name version es =
    if named name es then replace name version es else es ++ entry name version ∷ []

abbrev pub drop_pin : Bytes → List PinEntry → List PinEntry
drop_pin name [] = []
drop_pin name (e ∷ es) =
    let rest = drop_pin name es in if str_eq e.name name then rest else e ∷ rest

abbrev pub lookup_pin : Bytes → List PinEntry → Option Bytes
lookup_pin name [] = none
lookup_pin name (e ∷ es) =
    let rest = lookup_pin name es in if str_eq e.name name then some e.version else rest

pub replace_unnamed :
    (name version : Bytes) (es : List PinEntry)
    → named name es ≡ false
    → replace name version es ≡ es
replace_unnamed name version [] h = refl
replace_unnamed name version (e ∷ es) h = ground (arith, replace_unnamed name version es)

lookup_unnamed : (q : Bytes) (es : List PinEntry) → named q es ≡ false → lookup_pin q es ≡ none
lookup_unnamed q [] h = refl
lookup_unnamed q (e ∷ es) h = ground (arith, lookup_unnamed q es)

lookup-append :
    (q : Bytes) (es : List PinEntry) (e : PinEntry)
    → lookup_pin q (es ++ e ∷ []) ≡ (if named q es then lookup_pin q es else lookup_pin q (e ∷ []))
lookup-append q [] e = refl
lookup-append q (d ∷ es) e = ground (arith, lookup-append q es e)

lookup-replace :
    (name version q : Bytes) (es : List PinEntry)
    → lookup_pin q (replace name version es)
      ≡ (if str_eq name q then (if named name es then some version else none) else lookup_pin q es)
lookup-replace name version q [] = ground arith
lookup-replace name version q (e ∷ es) = ground (
  arith,
  lookup-replace name version q es,
  str_eq_iff e.name name,
  str_eq_iff e.name q,
  str_eq_iff name q,
)

-- What is looked up after a pin is set.
pub lookup-set_pin :
    (name version q : Bytes) (es : List PinEntry)
    → lookup_pin q (set_pin name version es)
      ≡ (if str_eq name q then some version else lookup_pin q es)
lookup-set_pin name version q es = elim (Bool-cases (named name es)) [
  | inl t ↦ ground (arith, lookup-replace name version q es)
  | inr f ↦
      ground
        (arith, lookup-append q es (entry name version), lookup_unnamed q es, str_eq_iff name q)
]

-- What is looked up after a pin is dropped.
pub lookup-drop_pin :
    (name q : Bytes) (es : List PinEntry)
    → lookup_pin q (drop_pin name es) ≡ (if str_eq name q then none else lookup_pin q es)
lookup-drop_pin name q [] = ground arith
lookup-drop_pin name q (e ∷ es) = ground (
  arith,
  lookup-drop_pin name q es,
  str_eq_iff e.name name,
  str_eq_iff e.name q,
  str_eq_iff name q,
)

pub drop_unnamed :
    (name : Bytes) (es : List PinEntry) → named name es ≡ false → drop_pin name es ≡ es
drop_unnamed name [] h = refl
drop_unnamed name (e ∷ es) h = ground (arith, drop_unnamed name es)

module _ {κ} (P : PinEntry → Type κ) where
  All-replace :
      (name version : Bytes) (es : List PinEntry)
      → P (entry name version)
      → All P es
      → All P (replace name version es)
  All-replace name version [] p h = tt
  All-replace name version (e ∷ es) p h = elim (Bool-cases (str_eq e.name name)) [
    | inl t ↦ rw t (p, All-replace name version es p h.1)
    | inr f ↦ rw f (h.0, All-replace name version es p h.1)
  ]

  All-concat : (es : List PinEntry) (e : PinEntry) → P e → All P es → All P (es ++ e ∷ [])
  All-concat [] e p h = (p, tt)
  All-concat (d ∷ es) e p h = (h.0, All-concat es e p h.1)

  pub All-set_pin :
      (name version : Bytes) (es : List PinEntry)
      → P (entry name version)
      → All P es
      → All P (set_pin name version es)
  All-set_pin name version es p h = elim (Bool-cases (named name es)) [
    | inl t ↦ rw t (All-replace name version es p h)
    | inr f ↦ rw f (All-concat es (entry name version) p h)
  ]

  pub All-drop_pin : (name : Bytes) (es : List PinEntry) → All P es → All P (drop_pin name es)
  All-drop_pin name [] h = tt
  All-drop_pin name (e ∷ es) h = elim (Bool-cases (str_eq e.name name)) [
    | inl t ↦ rw t (All-drop_pin name es h.1)
    | inr f ↦ rw f (h.0, All-drop_pin name es h.1)
  ]
