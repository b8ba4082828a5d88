-- ===== src/Owner.antt =====
-- src/owner_index.c: which package owns a path. Owner names are interned: an index entry holds the
-- pointer of its owner's string, and a dropped owner's pointer is kept among the dead. A pointer is
-- a number here, `next` the one that the next `strdup` returns; strings behind pointers are never
-- changed, and the dead are not freed before the index is. Array capacities are left out.
pub mod Drop
pub mod Members
pub mod Valid
pub mod Keeps
pub mod Find
mod Tests
use aept.Base.{
  ℕ, zero, suc, Bool, true, false, not, ◌&&◌, ◌||◌, Option, none, some, List, [], ◌∷◌, ◌++◌, map,
  any, ◌==◌, if◌then◌else◌, length, take, ◌-◌,
}
use aept.Text.Strings.{Bytes, codes, before, str_eq, is_empty}
use aept.Text.Lines.{read_lines}
use aept.Text.Search.{qsort, bsearch}
use aept.Files.{FilePath, Files}
use aept.Util.{normalize_path}

-- A pointer to an interned name, with the name that it points to.
pub record OwnerName : Type 0 where
  pub pointer : ℕ
  pub name : Bytes

pub record OwnerEntry : Type 0 where
  pub path : Bytes
  pub owner : OwnerName

pub record OwnerIndex : Type 0 where
  pub entries : List OwnerEntry
  pub recent : List OwnerEntry
  pub owners : List OwnerName
  pub dead : List OwnerName
  pub next : ℕ

abbrev pub owner_index_init : OwnerIndex
owner_index_init = record { entries = []; recent = []; owners = []; dead = []; next = 0 }

-- The first live pointer for the name.
unfoldable pub find_owner : Bytes → List OwnerName → Option OwnerName
find_owner name [] = none
find_owner name (o ∷ os) =
    let rest = find_owner name os in if str_eq o.name name then some o else rest

unfoldable pub intern_owner : OwnerIndex → Bytes → OwnerName × OwnerIndex
intern_owner idx name = elim (find_owner name idx.owners) [
  | some o ↦ (o, idx)
  | none ↦
      let o : OwnerName = record { pointer = idx.next; name = name } in
      (o, record idx { owners = idx.owners ++ o ∷ []; next = suc idx.next })
]

abbrev pub entry_key : OwnerEntry → Bytes
entry_key e = e.path

-- `is_dead` compares pointers.
unfoldable pub is_dead : OwnerIndex → OwnerName → Bool
is_dead idx o = any (λ d. d.pointer == o.pointer) idx.dead

-- The path of one line of a `.list` file, behind its newline, tab and leading `./` and `/`.
unfoldable pub list_path_of : Bytes → Bytes
list_path_of line = normalize_path (before b'\t' (before b'\n' line))

-- `array_append`, unless the path is empty.
unfoldable pub append_entry : OwnerName → Bytes → List OwnerEntry → List OwnerEntry
append_entry owner [] arr = arr
append_entry owner (c ∷ cs) arr = arr ++ record { path = c ∷ cs; owner = owner } ∷ []

-- The loop of `read_list_into`.
unfoldable pub append_entries : OwnerName → List Bytes → List OwnerEntry → List OwnerEntry
append_entries owner [] arr = arr
append_entries owner (l ∷ ls) arr =
    append_entries owner ls (append_entry owner (list_path_of l) arr)

-- `char buf[4096]`.
abbrev pub list_buffer : ℕ
list_buffer = 4096

unfoldable pub read_list_into : Option Bytes → OwnerName → List OwnerEntry → List OwnerEntry
read_list_into none owner arr = arr
read_list_into (some s) owner arr = append_entries owner (read_lines list_buffer s) arr

-- `strrchr(s, '.')`: what stands before the last dot, and the rest from that dot on.
unfoldable pub split_last_dot : Bytes → Option (Bytes × Bytes)
split_last_dot [] = none
split_last_dot (c ∷ cs) = elim (split_last_dot cs) [
  | some (stem, ext) ↦ some (c ∷ stem, ext)
  | none ↦ if c == b'.' then some ([], c ∷ cs) else none
]

-- The body of the loop of `aept_owner_index_build`, for a file of the package `name`.
unfoldable pub add_list : FilePath → Files → OwnerIndex → Bytes → Bytes → OwnerIndex
add_list info_dir fs idx d_name name =
    let (owner, idx') = intern_owner idx name in
    record idx' { entries = read_list_into (fs (info_dir ++ b'/' ∷ d_name)) owner idx'.entries }

-- One directory entry: it is passed over unless its name ends in `.list`.
unfoldable pub build_entry : FilePath → Files → OwnerIndex → Bytes → OwnerIndex
build_entry info_dir fs idx d_name = elim (split_last_dot d_name) [
  | none ↦ idx
  | some (name, ext) ↦
      if not (str_eq ext (codes ".list")) then idx else add_list info_dir fs idx d_name name
]

unfoldable pub build_loop : FilePath → Files → OwnerIndex → List Bytes → OwnerIndex
build_loop info_dir fs idx [] = idx
build_loop info_dir fs idx (d ∷ ds) = build_loop info_dir fs (build_entry info_dir fs idx d) ds

-- The directory is the list of names that `readdir` returns, nothing if it cannot be opened.
unfoldable pub owner_index_build : FilePath → Files → Option (List Bytes) → OwnerIndex → OwnerIndex
owner_index_build info_dir fs none idx = idx
owner_index_build info_dir fs (some names) idx =
    let built = build_loop info_dir fs idx names in
    record built { entries = qsort entry_key built.entries }

-- One of the two searches in `aept_owner_index_find`.
unfoldable pub live_hit : OwnerIndex → Bytes → List OwnerEntry → Option OwnerName
live_hit idx path arr = elim (bsearch entry_key path arr) [
  | none ↦ none
  | some e ↦ if is_dead idx e.owner then none else some e.owner
]

unfoldable pub owner_index_find : OwnerIndex → Bytes → Option Bytes
owner_index_find idx path =
    let p = normalize_path path in
    if is_empty p then none else elim (live_hit idx p idx.recent) [
      | some o ↦ some o.name
      | none ↦ elim (live_hit idx p idx.entries) [ some o ↦ some o.name | none ↦ none ]
    ]

unfoldable pub add_owner_files : OwnerIndex → Bytes → FilePath → Files → OwnerIndex
add_owner_files idx owner_name list_path fs =
    let (owner, idx') = intern_owner idx owner_name in
    record idx' { recent = qsort entry_key (read_list_into (fs list_path) owner idx'.recent) }

-- The last element moved to the front's place: `owners[i] = owners[--n_owners]` at `i`.
unfoldable pub split_last {ℓ} : {A : Type ℓ} → A → List A → List A × A
split_last x [] = ([], x)
split_last x (y ∷ ys) = let (init, last) = split_last y ys in (x ∷ init, last)

-- The loop of `aept_owner_index_drop_owner` from position `i` on: the owners behind it, the dead. A
-- round either steps forward or takes one owner away, so that the number of owners left is fuel
-- enough.
unfoldable pub drop_loop :
    ℕ → Bytes → List OwnerName → List OwnerName → List OwnerName × List OwnerName
drop_loop fuel owner_name [] dead = ([], dead)
drop_loop zero owner_name (o ∷ os) dead = (o ∷ os, dead)
drop_loop (suc f) owner_name (o ∷ os) dead = elim (str_eq o.name owner_name) [
  | false ↦ let (os', dead') = drop_loop f owner_name os dead in (o ∷ os', dead')
  | true ↦ elim os [
    | [] ↦ ([], dead ++ o ∷ [])
    | p ∷ ps ↦
        let (init, last) = split_last p ps in drop_loop f owner_name (last ∷ init) (dead ++ o ∷ [])
  ]
]

unfoldable pub drop_owner : OwnerIndex → Bytes → OwnerIndex
drop_owner idx owner_name =
    let (owners, dead) = drop_loop (length idx.owners) owner_name idx.owners idx.dead in
    record idx { owners = owners; dead = dead }
