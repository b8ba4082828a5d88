-- ===== src/Archive.antt =====
-- src/archive.c: where an archive entry is extracted to.
pub mod Paths
pub mod Inside
pub mod Reader
pub mod Extract
pub mod Writes
pub mod Tracked
pub mod Outside
pub mod Listing
pub mod Fuel
mod Tests
use aept.Base.{
  ℕ, suc, Bool, true, false, not, ◌&&◌, ◌||◌, Option, none, some, List, [], ◌∷◌, ◌++◌, ◌==◌,
  if◌then◌else◌, keep,
}
use aept.Text.Strings.{Bytes, codes, str_eq, is_empty, strip_prefix}
use aept.Util
use aept.Fileset.{Fileset, fileset_contains}

-- A string cut at each slash, the empty pieces included.
abbrev pub onto_head : ℕ → List Bytes → List Bytes
onto_head c [] = (c ∷ []) ∷ []
onto_head c (t ∷ ts) = (c ∷ t) ∷ ts

unfoldable pub split_slash : Bytes → List Bytes
split_slash [] = [] ∷ []
split_slash (c ∷ cs) =
    let rest = split_slash cs in elim (c == b'/') [ true ↦ [] ∷ rest | false ↦ onto_head c rest ]

-- The tokens of `strtok_r(s, "/", &save)`.
unfoldable pub tokens : Bytes → List Bytes
tokens s = keep (λ t. not (is_empty t)) (split_slash s)

-- One token in the loop of `normalize_path`, the array of parts held with its last part in front.
unfoldable pub add_part : List Bytes → Bytes → List Bytes
add_part parts tok =
    if str_eq tok (codes ".")
    then parts
    else if str_eq tok (codes "..")
    then (elim parts [ [] ↦ [] | last ∷ others ↦ others ])
    else tok ∷ parts

unfoldable pub add_parts : List Bytes → List Bytes → List Bytes
add_parts parts [] = parts
add_parts parts (t ∷ ts) = add_parts (add_part parts t) ts

-- The parts, the last in front, joined by slashes in front of `tail`.
unfoldable pub join_onto : List Bytes → Bytes → Bytes
join_onto [] out = out
join_onto (p ∷ ps) out = join_onto ps (elim ps [ [] ↦ p ++ out | q ∷ qs ↦ b'/' ∷ (p ++ out) ])

abbrev pub is_absolute : Bytes → Bool
is_absolute [] = false
is_absolute (c ∷ cs) = c == b'/'

unfoldable pub normalize_path : Bytes → Bytes
normalize_path raw =
    let body = join_onto (add_parts [] (tokens raw)) [] in
    if is_absolute raw then b'/' ∷ body else body

-- `while (plen > 1 && prefix[plen - 1] == '/') plen--`.
unfoldable pub trim_slashes : Bytes → Bytes
trim_slashes [] = []
trim_slashes (c ∷ cs) = elim (trim_slashes cs) [
  | [] ↦ c ∷ []
  | d ∷ ds ↦ if d == b'/' && is_empty ds then c ∷ [] else c ∷ d ∷ ds
]

-- The end of a prefix in the middle of a path: the path stops there, or a slash follows.
abbrev pub at_boundary : Bytes → Bool
at_boundary [] = true
at_boundary (c ∷ cs) = c == b'/'

-- The joined path under a prefix, if it does not escape it.
unfoldable pub join_below : Bytes → Bytes → Option Bytes
join_below prefix entry =
    let resolved = normalize_path (trim_slashes prefix ++ b'/' ∷ entry) in
    elim (strip_prefix (normalize_path prefix) resolved) [
      | none ↦ none
      | some rest ↦ if at_boundary rest then some resolved else none
    ]

-- `none` for a null pointer.
unfoldable pub safe_join : Option Bytes → Bytes → Option Bytes
safe_join prefix entry_path =
    let entry = Util.normalize_path entry_path in
    if is_empty entry
    then none
    else if str_eq entry (codes ".")
    then none
    else elim prefix [ none ↦ some entry | some p ↦ join_below p entry ]

unfoldable pub fileset_contains_entry : Fileset → Bytes → Bool × Fileset
fileset_contains_entry fs entry_path = fileset_contains fs (normalize_path entry_path)

-- The pathname and the hard link target of an entry.
pub record Entry : Type 0 where
  pub pathname : Bytes
  pub hardlink : Option Bytes

-- `none`: skip the entry.
unfoldable pub rewrite_pathname : Entry → Option Bytes → Option Entry
rewrite_pathname entry dest = elim (safe_join dest entry.pathname) [
  | none ↦ none
  | some p ↦ some (record entry { pathname = p })
]

unfoldable pub rewrite_all_paths : Entry → Option Bytes → Option Entry
rewrite_all_paths entry dest = elim (rewrite_pathname entry dest) [
  | none ↦ none
  | some e ↦ elim e.hardlink [
    | none ↦ some e
    | some hl ↦ elim (safe_join dest hl) [
      | none ↦ none
      | some p ↦ some (record e { hardlink = some p })
    ]
  ]
]
