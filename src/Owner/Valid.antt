-- ===== src/Owner/Valid.antt =====
-- The invariant of the index, and that its operations keep it.
use mathlib.Core.List.{Memᴰ}
use mathlib.Core.List.Memᴰ
use aept.Base.{
  ℕ, suc, ◌<◌, ◌≡◌, refl, ap, sym, ◌∙◌, ◌⊎◌, inl, inr, true, false, none, some, [], ◌∷◌, ◌++◌,
  arith, Bool-cases, Option-cases,
}
use aept.Text.Strings.{Bytes}
use aept.Text.Search.{IsSorted}
use aept.Owner.{
  OwnerName, OwnerEntry, OwnerIndex, owner_index_init, find_owner, intern_owner, entry_key,
}
use aept.Owner.Members.{mem_concat, find_owner-some, find_owner-none}
use aept.Owner.Drop.{buried}

-- The owner of an entry is live, or its pointer is buried.
abbrev pub Known : OwnerIndex → OwnerName → Type 0
Known idx o = Memᴰ o idx.owners ⊎ (buried o.pointer idx.dead ≡ true)

-- Live owners have their own pointers and names, none of them buried; a pointer that `strdup` will
-- return is new; every entry has a known owner.
pub record IsKept (idx : OwnerIndex) : Type 0 where
  pub live : (o : OwnerName) → Memᴰ o idx.owners → buried o.pointer idx.dead ≡ false
  pub pointers :
      (o p : OwnerName) → Memᴰ o idx.owners → Memᴰ p idx.owners → o.pointer ≡ p.pointer → o ≡ p
  pub names : (o p : OwnerName) → Memᴰ o idx.owners → Memᴰ p idx.owners → o.name ≡ p.name → o ≡ p
  pub fresh : (o : OwnerName) → Memᴰ o idx.owners → o.pointer < idx.next
  pub buried_fresh : (p : ℕ) → buried p idx.dead ≡ true → p < idx.next
  pub entries_known : (e : OwnerEntry) → Memᴰ e idx.entries → Known idx e.owner
  pub recent_known : (e : OwnerEntry) → Memᴰ e idx.recent → Known idx e.owner

-- In addition, both arrays are sorted, as `bsearch` wants them.
pub record IsValid (idx : OwnerIndex) : Type 0 where
  pub keeps : IsKept idx
  pub entries_sorted : IsSorted entry_key idx.entries
  pub recent_sorted : IsSorted entry_key idx.recent

pub owner_index_init-IsValid : IsValid owner_index_init
owner_index_init-IsValid = record {
  keeps = record {
    live = λ o m. absurd (Memᴰ.not-nil m);
    pointers = λ o p m k e. absurd (Memᴰ.not-nil m);
    names = λ o p m k e. absurd (Memᴰ.not-nil m);
    fresh = λ o m. absurd (Memᴰ.not-nil m);
    buried_fresh = λ p h. cc;
    entries_known = λ e m. absurd (Memᴰ.not-nil m);
    recent_known = λ e m. absurd (Memᴰ.not-nil m);
  };
  entries_sorted = tt;
  recent_sorted = tt;
}

-- The index with one more live owner, behind a new pointer.
abbrev with_owner : OwnerIndex → Bytes → OwnerIndex
with_owner idx name = record idx {
  owners = idx.owners ++ record { pointer = idx.next; name = name } ∷ [];
  next = suc idx.next;
}

abbrev pointer_of : {x y : OwnerName} → x ≡ y → x.pointer ≡ y.pointer
pointer_of e = ap (λ (o : OwnerName). o.pointer) e

abbrev name_of : {x y : OwnerName} → x ≡ y → x.name ≡ y.name
name_of e = ap (λ (o : OwnerName). o.name) e

intern_new :
    (idx : OwnerIndex) (name : Bytes)
    → find_owner name idx.owners ≡ none
    → IsKept idx
    → IsKept (with_owner idx name)
intern_new idx name gone k = record {
  live = λ o m. elim (owner_cases o m) [
    | inl l ↦ k.live o l
    | inr e ↦ elim (Bool-cases (buried o.pointer idx.dead)) [
      | inl b ↦ absurd (omega (arith, k.buried_fresh o.pointer b, pointer_of e))
      | inr f ↦ f
    ]
  ];
  pointers = λ o p m m' e. elim (owner_cases o m) [
    | inl l ↦ elim (owner_cases p m') [
      | inl l' ↦ k.pointers o p l l' e
      | inr n ↦ absurd (omega (arith, k.fresh o l, pointer_of n))
    ]
    | inr n ↦ elim (owner_cases p m') [
      | inl l' ↦ absurd (omega (arith, k.fresh p l', pointer_of n))
      | inr n' ↦ n ∙ sym n'
    ]
  ];
  names = λ o p m m' e. elim (owner_cases o m) [
    | inl l ↦ elim (owner_cases p m') [
      | inl l' ↦ k.names o p l l' e
      | inr n ↦ absurd (find_owner-none name idx.owners o gone l (e ∙ name_of n))
    ]
    | inr n ↦ elim (owner_cases p m') [
      | inl l' ↦ absurd (find_owner-none name idx.owners p gone l' (sym e ∙ name_of n))
      | inr n' ↦ n ∙ sym n'
    ]
  ];
  fresh = λ o m. elim (owner_cases o m) [
    | inl l ↦ omega (arith, k.fresh o l)
    | inr n ↦ omega (arith, pointer_of n)
  ];
  buried_fresh = λ p h. omega (arith, k.buried_fresh p h);
  entries_known =
      λ e m. elim (k.entries_known e m) [ inl l ↦ inl (Memᴰ.append_left _ l) | inr b ↦ inr b ];
  recent_known =
      λ e m. elim (k.recent_known e m) [ inl l ↦ inl (Memᴰ.append_left _ l) | inr b ↦ inr b ];
}
  where
    owner_cases :
        (o : OwnerName)
        → Memᴰ o (with_owner idx name).owners
        → Memᴰ o idx.owners ⊎ (o ≡ record { pointer = idx.next; name = name })
    owner_cases o m = mem_concat o _ idx.owners m

intern_owner-none :
    (idx : OwnerIndex) (name : Bytes)
    → find_owner name idx.owners ≡ none
    → intern_owner idx name ≡ (record { pointer = idx.next; name = name }, with_owner idx name)
unfolding intern_owner
intern_owner-none idx name h = rw (h, intern_owner)

intern_owner-some :
    (idx : OwnerIndex) (name : Bytes) (o : OwnerName)
    → find_owner name idx.owners ≡ some o
    → intern_owner idx name ≡ (o, idx)
unfolding intern_owner
intern_owner-some idx name o h = rw (h, intern_owner)

-- Interning leaves the arrays, and returns a live owner of the name.
pub record Interned (idx : OwnerIndex) (name : Bytes) (o : OwnerName) (idx' : OwnerIndex)
    : Type 0 where
  pub keeps : IsKept idx'
  pub is_live : Memᴰ o idx'.owners
  pub named : o.name ≡ name
  pub same_entries : idx'.entries ≡ idx.entries
  pub same_recent : idx'.recent ≡ idx.recent

pub intern_owner-Interned :
    (idx : OwnerIndex) (name : Bytes)
    → IsKept idx
    → Interned idx name (intern_owner idx name).0 (intern_owner idx name).1
intern_owner-Interned idx name k = elim (Option-cases (find_owner name idx.owners)) [
  | inl gone ↦ rw (intern_owner-none idx name gone) (record {
    keeps = intern_new idx name gone k;
    is_live = Memᴰ.append_right idx.owners (Memᴰ.head refl);
    named = refl;
    same_entries = refl;
    same_recent = refl;
  })
  | inr (o, there) ↦
      let (m, e) = find_owner-some name idx.owners o there in
      rw (intern_owner-some idx name o there)
        (record { keeps = k; is_live = m; named = e; same_entries = refl; same_recent = refl })
]
