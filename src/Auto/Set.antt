-- ===== src/Auto/Set.antt =====
-- The file set that `aept_status_load_auto_set` fills answers as `aept_status_is_auto` does.
use aept.Base.{
  ◌≡◌, refl, sym, ◌∙◌, inl, inr, false, ◌||◌, some, List, [], ◌∷◌, map, arith, Option-cases, All,
}
use aept.Text.Strings.{Bytes, str_eq_iff, is_empty}
use aept.Text.Lines.Join.{with_newline, join_lines}
use aept.Text.Lines.{read_lines}
use aept.Files.{FilePath, Files}
use aept.Util.{normalize_path}
use aept.Util.Normal.{normalize_path_id}
use aept.Util.Safety.{IsPackageName}
use aept.Fileset.{Fileset, fileset_init, fileset_add, fileset_contains}
use aept.Fileset.Contains.{
  IsValid, fileset_init-IsValid, fileset_add-IsValid, contains-add, contains-sort,
}
use aept.Auto.{auto_buffer, is_auto, add_words, load_auto_set}
use aept.Auto.Names.{IsName, scan_word-name, listed, read_lines-names}
use aept.Auto.Laws.{Lists, join-eq-nil, is_auto-Lists}

-- A package name is its own normal form.
pub normalize_path-IsPackageName :
    (name : Bytes) → IsPackageName name → (normalize_path name ≡ name) × (is_empty name ≡ false)
normalize_path-IsPackageName [] h = absurd h
normalize_path-IsPackageName (c ∷ []) h = (normalize_path_id (c ∷ []) (ground arith) refl, refl)
normalize_path-IsPackageName (c ∷ d ∷ cs) h =
    (normalize_path_id (c ∷ d ∷ cs) (ground arith) (ground arith), refl)

add_words-name :
    (n : Bytes) (ns : List Bytes) (set : Fileset)
    → IsName n
    → add_words set (map with_newline (n ∷ ns))
      ≡ add_words (fileset_add set n) (map with_newline ns)
unfolding add_words
add_words-name n ns set h = rw (scan_word-name n h, add_words)

add_words-IsValid :
    (ns : List Bytes) (set : Fileset)
    → All IsName ns
    → IsValid set
    → IsValid (add_words set (map with_newline ns))
add_words-IsValid [] set h v = unfold add_words in v
add_words-IsValid (n ∷ ns) set h v =
    rw (add_words-name n ns set h.0)
      (add_words-IsValid ns (fileset_add set n) h.1 (fileset_add-IsValid set n v))

contains-add_words :
    (ns : List Bytes) (set : Fileset) (q : Bytes)
    → All IsName ns
    → All IsPackageName ns
    → IsPackageName q
    → IsValid set
    → (fileset_contains (add_words set (map with_newline ns)) q).0
      ≡ ((fileset_contains set q).0 || listed q ns)
contains-add_words [] set q h p pq v = unfold add_words in ground arith
contains-add_words (n ∷ ns) set q h p pq v = ground (
  arith,
  add_words-name n ns set h.0,
  contains-add_words ns (fileset_add set n) q h.1 p.1 pq (fileset_add-IsValid set n v),
  contains-add set n q v,
  normalize_path-IsPackageName q pq,
  normalize_path-IsPackageName n p.0,
  str_eq_iff n q,
  str_eq_iff q n,
)

empty_contains : (q : Bytes) → (fileset_contains fileset_init q).0 ≡ false
unfolding fileset_contains
empty_contains q = refl

listed_gone : (q : Bytes) (ns : List Bytes) → [] ≡ join_lines ns → listed q ns ≡ false
listed_gone q ns e = rw (join-eq-nil ns e)

the_text :
    (auto_file : FilePath) (ns : List Bytes) (fs : Files)
    → Lists auto_file ns fs
    → (old : Bytes) → fs auto_file ≡ some old
    → old ≡ join_lines ns
the_text auto_file ns fs h old there = rw there at h.bytes

loaded :
    (auto_file : FilePath) (ns : List Bytes) (fs : Files) (q : Bytes)
    → Lists auto_file ns fs
    → All IsPackageName ns
    → IsPackageName q
    → (fileset_contains (load_auto_set auto_file fs fileset_init) q).0 ≡ listed q ns
unfolding load_auto_set
loaded auto_file ns fs q h p pq = elim (Option-cases (fs auto_file)) [
  | inl gone ↦
      rw (gone, load_auto_set) (empty_contains q ∙ sym (listed_gone q ns (rw gone at h.bytes)))
  | inr (old, there) ↦
      let lines : read_lines auto_buffer old ≡ map with_newline ns =
        rw (the_text auto_file ns fs h old there) (read_lines-names ns h.names) in
      rw (there, load_auto_set)
        (rw lines (
          contains-sort (add_words fileset_init (map with_newline ns)) q
            (add_words-IsValid ns fileset_init h.names fileset_init-IsValid)
          ∙ contains-add_words ns fileset_init q h.names p pq fileset_init-IsValid
          ∙ rw (empty_contains q)))
]

-- On a file of package names that its buffer can take, the set that `aept_status_load_auto_set`
-- fills contains a package name exactly if `aept_status_is_auto` says so.
pub load_auto_set-is_auto :
    (auto_file : FilePath) (ns : List Bytes) (fs : Files) (q : Bytes)
    → Lists auto_file ns fs
    → All IsPackageName ns
    → IsPackageName q
    → (fileset_contains (load_auto_set auto_file fs fileset_init) q).0 ≡ is_auto auto_file q fs
load_auto_set-is_auto auto_file ns fs q h p pq =
    loaded auto_file ns fs q h p pq ∙ sym (is_auto-Lists auto_file ns fs h q)
