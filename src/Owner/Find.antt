-- ===== src/Owner/Find.antt =====
-- What `aept_owner_index_find` answers, and how dropping a package changes its answers.
use mathlib.Core.List.{Memᴰ}
use mathlib.Core.Path.{subst}
use aept.Base.{
  ◌≡◌, ◌≢◌, ap, sym, ◌∙◌, ◌⊎◌, inl, inr, false, Option, none, some, List, arith, if◌then◌else◌,
  Bool-cases, Option-cases,
}
use aept.Text.Strings.{Bytes, is_empty}
use aept.Text.Search.{bsearch, IsSorted}
use aept.Text.Search.Finding.{bsearch-Finds}
use aept.Util.{normalize_path}
use aept.Owner.{
  OwnerName, OwnerEntry, OwnerIndex, entry_key, is_dead, live_hit, owner_index_find, drop_owner,
}
use aept.Owner.Drop.{buried}
use aept.Owner.Valid.{Known, IsValid}
use aept.Owner.Keeps.{drop_owner-Dropped, still_live, same_arrays, drop_owner-IsValid}

bsearch-some :
    (p : Bytes) (arr : List OwnerEntry) (e : OwnerEntry)
    → IsSorted entry_key arr
    → bsearch entry_key p arr ≡ some e
    → Memᴰ e arr × (e.path ≡ p)
bsearch-some p arr e s h = rw h at (bsearch-Finds entry_key p arr s)

live_hit_gone :
    (idx : OwnerIndex) (p : Bytes) (arr : List OwnerEntry)
    → bsearch entry_key p arr ≡ none
    → live_hit idx p arr ≡ none
unfolding live_hit
live_hit_gone idx p arr h = rw (h, live_hit)

live_hit_at :
    (idx : OwnerIndex) (p : Bytes) (arr : List OwnerEntry) (e : OwnerEntry)
    → bsearch entry_key p arr ≡ some e
    → live_hit idx p arr ≡ (if buried e.owner.pointer idx.dead then none else some e.owner)
unfolding live_hit is_dead
live_hit_at idx p arr e h = rw (h, live_hit)

-- A hit: an entry of the array for the path, whose owner is not buried.
record Hit (idx : OwnerIndex) (p : Bytes) (arr : List OwnerEntry) (o : OwnerName) : Type 0 where
  at : OwnerEntry
  found : bsearch entry_key p arr ≡ some at
  member : Memᴰ at arr
  path : at.path ≡ p
  owner : at.owner ≡ o
  alive : buried o.pointer idx.dead ≡ false

live_hit-some :
    (idx : OwnerIndex) (p : Bytes) (arr : List OwnerEntry) (o : OwnerName)
    → IsSorted entry_key arr
    → live_hit idx p arr ≡ some o
    → Hit idx p arr o
live_hit-some idx p arr o s h = elim (Option-cases (bsearch entry_key p arr)) [
  | inl gone ↦ absurd (ground (arith, live_hit_gone idx p arr gone))
  | inr (e, there) ↦
      let test = live_hit_at idx p arr e there in
      let (m, q) = bsearch-some p arr e s there in
      elim (Bool-cases (buried e.owner.pointer idx.dead)) [
        | inl b ↦ absurd (ground arith)
        | inr f ↦
            let same : e.owner ≡ o = ground arith in
            record {
              at = e;
              found = there;
              member = m;
              path = q;
              owner = same;
              alive = rw (ap (λ (x : OwnerName). x.pointer) (sym same)) f;
            }
      ]
]

abbrev name_of_hit : Option OwnerName → Option Bytes
name_of_hit none = none
name_of_hit (some o) = some o.name

-- The two searches, the recent entries first.
abbrev first_name : Option OwnerName → Option OwnerName → Option Bytes
first_name (some o) later = some o.name
first_name none later = name_of_hit later

find_searches :
    (idx : OwnerIndex) (path : Bytes)
    → owner_index_find idx path ≡ (
        if is_empty (normalize_path path)
        then none
        else first_name
            (live_hit idx (normalize_path path) idx.recent)
            (live_hit idx (normalize_path path) idx.entries))
unfolding owner_index_find
find_searches idx path = ground arith

live_owner :
    (idx : OwnerIndex) (o : OwnerName)
    → Known idx o
    → buried o.pointer idx.dead ≡ false
    → Memᴰ o idx.owners
live_owner idx o h f = elim h [ inl m ↦ m | inr b ↦ absurd (cc (b, f)) ]

hit_owner :
    (idx : OwnerIndex) (p : Bytes) (arr : List OwnerEntry) (o : OwnerName)
    → ((e : OwnerEntry) → Memᴰ e arr → Known idx e.owner)
    → Hit idx p arr o
    → Memᴰ o idx.owners
hit_owner idx p arr o known h =
    live_owner idx o (subst (Known idx) h.owner (known h.at h.member)) h.alive

-- What stands behind an answer: an entry of the index for the path asked for, and its owner, which
-- is live and has the name.
pub record Owns (idx : OwnerIndex) (path name : Bytes) : Type 0 where
  pub entry : OwnerEntry
  pub stored : Memᴰ entry idx.recent ⊎ Memᴰ entry idx.entries
  pub same_path : entry.path ≡ normalize_path path
  pub live : Memᴰ entry.owner idx.owners
  pub same_name : entry.owner.name ≡ name

Owns-Hit :
    (idx : OwnerIndex) (path name : Bytes) (arr : List OwnerEntry) (o : OwnerName)
    → ((e : OwnerEntry) → Memᴰ e arr → Memᴰ e idx.recent ⊎ Memᴰ e idx.entries)
    → ((e : OwnerEntry) → Memᴰ e arr → Known idx e.owner)
    → o.name ≡ name
    → Hit idx (normalize_path path) arr o
    → Owns idx path name
Owns-Hit idx path name arr o place known e h = record {
  entry = h.at;
  stored = place h.at h.member;
  same_path = h.path;
  live =
      subst (λ x. Memᴰ x idx.owners) (sym h.owner)
        (hit_owner idx (normalize_path path) arr o known h);
  same_name = ap (λ (x : OwnerName). x.name) h.owner ∙ e;
}

-- The answers of a valid index are true: if `aept_owner_index_find` names a package, the index has
-- an entry for the path, in its normal form, whose owner is live and has that name.
pub owner_index_find-Owns :
    (idx : OwnerIndex) (path name : Bytes)
    → IsValid idx
    → owner_index_find idx path ≡ some name
    → Owns idx path name
owner_index_find-Owns idx path name v h =
    let p = normalize_path path in
    let searches = find_searches idx path in
    elim (Option-cases (live_hit idx p idx.recent)) [
      | inr (o, r) ↦
          Owns-Hit idx path name idx.recent o (λ e m. inl m) v.keeps.recent_known (ground arith)
            (live_hit-some idx p idx.recent o v.recent_sorted r)
      | inl r ↦ elim (Option-cases (live_hit idx p idx.entries)) [
        | inr (o, s) ↦
            Owns-Hit idx path name idx.entries o (λ e m. inr m) v.keeps.entries_known (ground arith)
              (live_hit-some idx p idx.entries o v.entries_sorted s)
        | inl s ↦ absurd (ground arith)
      ]
    ]

-- After a package is dropped from a valid index, no path is answered by its name.
pub find-drop_owner :
    (idx : OwnerIndex) (dropped path : Bytes)
    → IsValid idx
    → owner_index_find (drop_owner idx dropped) path ≢ some dropped
find-drop_owner idx dropped path v h =
    let owns =
      owner_index_find-Owns (drop_owner idx dropped) path dropped (drop_owner-IsValid idx dropped v)
        h in
    ((drop_owner-Dropped idx dropped v.keeps).kept owns.entry.owner owns.live).1 owns.same_name

module _ (idx : OwnerIndex) (n : Bytes) (v : IsValid idx) where
  Hit-stays :
      (p : Bytes) (arr : List OwnerEntry) (o : OwnerName)
      → ((e : OwnerEntry) → Memᴰ e arr → Known idx e.owner)
      → o.name ≢ n
      → Hit idx p arr o
      → live_hit (drop_owner idx n) p arr ≡ some o
  Hit-stays p arr o known ne h =
      let alive = still_live idx n v.keeps o (hit_owner idx p arr o known h) ne in
      live_hit_at (drop_owner idx n) p arr h.at h.found ∙ rw h.owner (rw alive)

  miss_stays :
      (p : Bytes) (arr : List OwnerEntry)
      → live_hit idx p arr ≡ none
      → live_hit (drop_owner idx n) p arr ≡ none
  miss_stays p arr h = elim (Option-cases (bsearch entry_key p arr)) [
    | inl gone ↦ live_hit_gone (drop_owner idx n) p arr gone
    | inr (e, there) ↦ ground (
      arith,
      live_hit_at idx p arr e there,
      live_hit_at (drop_owner idx n) p arr e there,
      (drop_owner-Dropped idx n v.keeps).older e.owner.pointer,
    )
  ]

  stays :
      (path m : Bytes)
      → m ≢ n
      → owner_index_find idx path ≡ some m
      → owner_index_find (drop_owner idx n) path ≡ some m
  stays path m ne h =
      let p = normalize_path path in
      let (same_entries, same_recent, _) = same_arrays idx n v.keeps in
      let before = find_searches idx path in
      let later = find_searches (drop_owner idx n) path in
      elim (Option-cases (live_hit idx p idx.recent)) [
        | inr (o, r) ↦
            let named : o.name ≡ m = ground arith in
            let again =
              Hit-stays p idx.recent o v.keeps.recent_known (λ e. ne (sym named ∙ e))
                (live_hit-some idx p idx.recent o v.recent_sorted r) in
            ground arith
        | inl r ↦ elim (Option-cases (live_hit idx p idx.entries)) [
          | inr (o, s) ↦
              let named : o.name ≡ m = ground arith in
              let missed = miss_stays p idx.recent r in
              let again =
                Hit-stays p idx.entries o v.keeps.entries_known (λ e. ne (sym named ∙ e))
                  (live_hit-some idx p idx.entries o v.entries_sorted s) in
              ground arith
          | inl s ↦ absurd (ground arith)
        ]
      ]
