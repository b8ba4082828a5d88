-- ===== src/Owner/Keeps.antt =====
-- Building the index, adding the files of a package and dropping a package keep the invariant.
use mathlib.Core.List.{Memᴰ}
use aept.Base.{
  ℕ, ◌<◌, ◌≡◌, ◌≢◌, refl, ap, sym, ◌∙◌, inl, inr, true, false, Option, none, some, List, [], ◌∷◌,
  ◌++◌, arith, Bool-cases, Option-cases, length,
}
use aept.Text.Strings.{Bytes, codes, str_eq}
use aept.Text.Search.{qsort}
use aept.Text.Search.Sorting.{qsort-IsSorted}
use aept.Files.{FilePath, Files}
use aept.Owner.{
  OwnerName, OwnerEntry, OwnerIndex, intern_owner, entry_key, read_list_into, split_last_dot,
  add_list, build_entry, build_loop, owner_index_build, drop_owner,
}
use aept.Owner.Members.{mem-qsort, mem-read_list_into}
use aept.Owner.Drop.{buried, Dropped, drop_loop-Dropped}
use aept.Owner.Valid.{Known, IsKept, IsValid, intern_owner-Interned}

-- Replacing the entries by ones with known owners.
with_entries :
    (idx : OwnerIndex) (arr : List OwnerEntry)
    → IsKept idx
    → ((e : OwnerEntry) → Memᴰ e arr → Known idx e.owner)
    → IsKept (record idx { entries = arr })
with_entries idx arr k h = record {
  live = k.live;
  pointers = k.pointers;
  names = k.names;
  fresh = k.fresh;
  buried_fresh = k.buried_fresh;
  entries_known = h;
  recent_known = k.recent_known;
}

Known-of_read :
    (idx : OwnerIndex) (file : Option Bytes) (o : OwnerName) (arr : List OwnerEntry)
    → Memᴰ o idx.owners
    → ((e : OwnerEntry) → Memᴰ e arr → Known idx e.owner)
    → (e : OwnerEntry) → Memᴰ e (read_list_into file o arr)
    → Known idx e.owner
Known-of_read idx file o arr live h e m = elim (mem-read_list_into file o arr e m) [
  | inl old ↦ h e old
  | inr k ↦ inl (rw k live)
]

-- What building keeps: the invariant, and the recent entries.
abbrev Builds : OwnerIndex → OwnerIndex → Type 0
Builds idx idx' = IsKept idx' × (idx'.recent ≡ idx.recent)

add_list-Builds :
    (info_dir : FilePath) (fs : Files) (idx : OwnerIndex) (d name : Bytes)
    → IsKept idx
    → Builds idx (add_list info_dir fs idx d name)
unfolding add_list
add_list-Builds info_dir fs idx d name k =
    let (owner, idx') = intern_owner idx name in
    let i = intern_owner-Interned idx name k in
    let file = fs (info_dir ++ b'/' ∷ d) in
    (
      with_entries idx' (read_list_into file owner idx'.entries) i.keeps
          (Known-of_read idx' file owner idx'.entries i.is_live i.keeps.entries_known),
      i.same_recent,
    )

build_entry-Builds :
    (info_dir : FilePath) (fs : Files) (idx : OwnerIndex) (d : Bytes)
    → IsKept idx
    → Builds idx (build_entry info_dir fs idx d)
unfolding build_entry
build_entry-Builds info_dir fs idx d k = elim (Option-cases (split_last_dot d)) [
  | inl e ↦ rw (e, build_entry) (k, refl)
  | inr ((name, ext), e) ↦ elim (Bool-cases (str_eq ext (codes ".list"))) [
    | inl t ↦ rw (e, build_entry) (rw t (add_list-Builds info_dir fs idx d name k))
    | inr f ↦ rw (e, build_entry) (rw f (k, refl))
  ]
]

build_loop-Builds :
    (info_dir : FilePath) (fs : Files) (ds : List Bytes) (idx : OwnerIndex)
    → IsKept idx
    → Builds idx (build_loop info_dir fs idx ds)
unfolding build_loop
build_loop-Builds info_dir fs [] idx k = (k, refl)
build_loop-Builds info_dir fs (d ∷ ds) idx k =
    let (k', e) = build_entry-Builds info_dir fs idx d k in
    let (k'', e') = build_loop-Builds info_dir fs ds (build_entry info_dir fs idx d) k' in
    (k'', e' ∙ e)

-- `aept_owner_index_build` keeps the index valid.
pub owner_index_build-IsValid :
    (info_dir : FilePath) (fs : Files) (dir : Option (List Bytes)) (idx : OwnerIndex)
    → IsValid idx
    → IsValid (owner_index_build info_dir fs dir idx)
unfolding owner_index_build
owner_index_build-IsValid info_dir fs none idx v = v
owner_index_build-IsValid info_dir fs (some ds) idx v =
    let built = build_loop info_dir fs idx ds in
    let (k, e) = build_loop-Builds info_dir fs ds idx v.keeps in
    record {
      keeps =
          with_entries built (qsort entry_key built.entries) k
            (λ x m. k.entries_known x (mem-qsort entry_key x built.entries m));
      entries_sorted = qsort-IsSorted entry_key built.entries;
      recent_sorted = rw e v.recent_sorted;
    }

module _ (idx : OwnerIndex) (n : Bytes) (k : IsKept idx) where
  abbrev after : OwnerIndex
  after = drop_owner idx n

  pub drop_owner-Dropped : Dropped n idx.owners idx.dead after.owners after.dead
  unfolding drop_owner
  drop_owner-Dropped = drop_loop-Dropped (length idx.owners) n idx.owners idx.dead (omega arith)

  -- An owner of another name that was live is not buried.
  pub still_live :
      (o : OwnerName) → Memᴰ o idx.owners → o.name ≢ n → buried o.pointer after.dead ≡ false
  still_live o m ne = elim (Bool-cases (buried o.pointer after.dead)) [
    | inr f ↦ f
    | inl b ↦ elim (drop_owner-Dropped.newer o.pointer b) [
      | inl old ↦ cc (old, k.live o m)
      | inr (x, mx, e, q) ↦
          absurd (ne (ap (λ (y : OwnerName). y.name) (k.pointers o x m mx (sym q)) ∙ e))
    ]
  ]

  still-Known : (o : OwnerName) → Known idx o → Known after o
  still-Known o h = elim h [
    | inl m ↦ elim (drop_owner-Dropped.split o m) [ inl l ↦ inl l | inr r ↦ inr r.1 ]
    | inr b ↦ inr (drop_owner-Dropped.older o.pointer b)
  ]

  buried_still_fresh : (p : ℕ) → buried p after.dead ≡ true → p < idx.next
  buried_still_fresh p b = elim (drop_owner-Dropped.newer p b) [
    | inl old ↦ k.buried_fresh p old
    | inr (x, m, e, q) ↦ rw (sym q) (k.fresh x m)
  ]

  pub same_arrays :
      (after.entries ≡ idx.entries) × (after.recent ≡ idx.recent) × (after.next ≡ idx.next)
  unfolding drop_owner
  same_arrays = (refl, refl, refl)

  -- `aept_owner_index_drop_owner` keeps the invariant.
  pub drop_owner-IsKept : IsKept after
  drop_owner-IsKept = record {
    live = λ o m. let (m', ne) = drop_owner-Dropped.kept o m in still_live o m' ne;
    pointers =
        λ o p m m'. k.pointers o p (drop_owner-Dropped.kept o m).0 (drop_owner-Dropped.kept p m').0;
    names =
        λ o p m m'. k.names o p (drop_owner-Dropped.kept o m).0 (drop_owner-Dropped.kept p m').0;
    fresh = λ o m. rw same_arrays.2 (k.fresh o (drop_owner-Dropped.kept o m).0);
    buried_fresh = λ p b. rw same_arrays.2 (buried_still_fresh p b);
    entries_known = λ e m. still-Known e.owner (k.entries_known e (rw same_arrays.0 at m));
    recent_known = λ e m. still-Known e.owner (k.recent_known e (rw same_arrays.1 at m));
  }

pub drop_owner-IsValid : (idx : OwnerIndex) (n : Bytes) → IsValid idx → IsValid (drop_owner idx n)
drop_owner-IsValid idx n v = record {
  keeps = drop_owner-IsKept idx n v.keeps;
  entries_sorted = rw (same_arrays idx n v.keeps).0 v.entries_sorted;
  recent_sorted = rw (same_arrays idx n v.keeps).1 v.recent_sorted;
}
