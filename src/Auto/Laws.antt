-- ===== src/Auto/Laws.antt =====
-- The operations on the list of automatically installed packages, and the set that is loaded from it.
use aept.Base.{
  ℕ, ◌≡◌, refl, ◌∙◌, inl, inr, false, ◌||◌, Option, none, some, List, [], ◌∷◌, ◌++◌, map, arith,
  if◌then◌else◌, Bool-cases, Option-cases, any-append, All,
}
use aept.Text.Strings.{Bytes, str_eq, str_eq_iff, str_eq_refl}
use aept.Text.Lines.{read_lines}
use aept.Text.Lines.Join.{with_newline, join_lines, join_lines-append}
use aept.Files.{
  FilePath, Files, success, Faults, write, write_self, write_other, unlink_other, tmp_of, tmp_of_ne,
  commit_success,
}
use aept.Auto.{auto_buffer, auto_lines, is_auto, old_text, mark_auto, copy_unmarked, unmark_auto}
use aept.Auto.Names.{
  IsName, read_lines-names, listed, without, find_name-names, copy_unmarked-names, listed-without,
  without_unlisted, All-without, All-concat,
}

-- The file holds exactly these names, each of which its buffer can take.
pub record Lists (auto_file : FilePath) (ns : List Bytes) (fs : Files) : Type 0 where
  pub names : All IsName ns
  pub bytes : old_text (fs auto_file) ≡ join_lines ns

auto_lines-text : (o : Option Bytes) → auto_lines o ≡ read_lines auto_buffer (old_text o)
unfolding auto_lines read_lines
auto_lines-text none = refl
auto_lines-text (some s) = refl

pub join-eq-nil : (ns : List Bytes) → [] ≡ join_lines ns → ns ≡ []
join-eq-nil [] h = refl
join-eq-nil ([] ∷ ns) h = cc
join-eq-nil ((c ∷ cs) ∷ ns) h = cc

unmark_bytes :
    (auto_file : FilePath) (ns : List Bytes) (fs : Files)
    → All IsName ns
    → old_text (fs auto_file) ≡ join_lines ns
    → (name : Bytes) (faults : Faults) → (unmark_auto auto_file name faults fs).0 ≡ success
    → old_text ((unmark_auto auto_file name faults fs).1 auto_file) ≡ join_lines (without name ns)
unfolding unmark_auto
unmark_bytes auto_file ns fs h b name faults s = elim (Option-cases (fs auto_file)) [
  | inl gone ↦ ground (arith, join-eq-nil ns (rw gone at b))
  | inr (old, there) ↦
      let text : old ≡ join_lines ns = rw there at b in
      let opened = write (tmp_of auto_file) [] fs in
      let (out, found) = copy_unmarked name false (read_lines auto_buffer old) in
      ground (
        arith,
        text,
        copy_unmarked-names name false ns h,
        read_lines-names ns h,
        commit_success auto_file out faults opened,
        without_unlisted name ns,
        unlink_other (tmp_of auto_file) auto_file opened (tmp_of_ne auto_file),
        write_other (tmp_of auto_file) auto_file [] fs (tmp_of_ne auto_file),
      )
]

module _ (auto_file : FilePath) (ns : List Bytes) (fs : Files) (h : Lists auto_file ns fs) where
  auto_lines-Lists : auto_lines (fs auto_file) ≡ map with_newline ns
  auto_lines-Lists = auto_lines-text (fs auto_file) ∙ rw h.bytes (read_lines-names ns h.names)

  pub is_auto-Lists : (name : Bytes) → is_auto auto_file name fs ≡ listed name ns
  unfolding is_auto
  is_auto-Lists name = rw auto_lines-Lists (find_name-names name ns h.names)

  -- A successful `aept_status_unmark_auto` leaves the file of the list without the name.
  pub unmark_auto-Lists :
      (name : Bytes) (faults : Faults)
      → (unmark_auto auto_file name faults fs).0 ≡ success
      → Lists auto_file (without name ns) (unmark_auto auto_file name faults fs).1
  unmark_auto-Lists name faults s = record {
    names = All-without IsName name ns h.names;
    bytes = unmark_bytes auto_file ns fs h.names h.bytes name faults s;
  }

  abbrev marked : Bytes → List Bytes
  marked name = if listed name ns then ns else ns ++ name ∷ []

  mark_bytes :
      (name : Bytes) (faults : Faults) (written : ℕ)
      → (mark_auto auto_file name faults written fs).0 ≡ success
      → old_text ((mark_auto auto_file name faults written fs).1 auto_file)
        ≡ join_lines (marked name)
  unfolding mark_auto
  mark_bytes name faults written s =
      let line = name ++ b'\n' ∷ [] in
      ground (
        arith,
        is_auto-Lists name,
        h.bytes,
        write_self auto_file (old_text (fs auto_file) ++ line) fs,
        join_lines-append ns (name ∷ []),
      )

  -- A successful `aept_status_mark_auto` leaves the file of the list with the name, once.
  pub mark_auto-Lists :
      (name : Bytes) (faults : Faults) (written : ℕ)
      → IsName name
      → (mark_auto auto_file name faults written fs).0 ≡ success
      → Lists auto_file (marked name) (mark_auto auto_file name faults written fs).1
  mark_auto-Lists name faults written ok s = record {
    names = elim (Bool-cases (listed name ns)) [
      | inl t ↦ rw t h.names
      | inr f ↦ rw f (All-concat IsName ns name ok h.names)
    ];
    bytes = mark_bytes name faults written s;
  }

listed-marked :
    (name q : Bytes) (ns : List Bytes)
    → listed q (if listed name ns then ns else ns ++ name ∷ []) ≡ (str_eq name q || listed q ns)
listed-marked name q ns = elim (Bool-cases (str_eq name q)) [
  | inl t ↦
      ground
        (arith, (str_eq_iff name q).0 t, str_eq_refl q, any-append (λ n. str_eq n q) ns (name ∷ []))
  | inr f ↦ ground (arith, any-append (λ n. str_eq n q) ns (name ∷ []))
]

-- Marking a package and asking for one: on a file of names that its buffer can take, a successful
-- `aept_status_mark_auto` adds the name, and changes no other answer.
pub is_auto-mark_auto :
    (auto_file : FilePath) (ns : List Bytes) (fs : Files) (name q : Bytes) (faults : Faults)
    (written : ℕ)
    → Lists auto_file ns fs
    → IsName name
    → (mark_auto auto_file name faults written fs).0 ≡ success
    → is_auto auto_file q (mark_auto auto_file name faults written fs).1
      ≡ (str_eq name q || is_auto auto_file q fs)
is_auto-mark_auto auto_file ns fs name q faults written h ok s =
    is_auto-Lists auto_file (if listed name ns then ns else ns ++ name ∷ [])
      (mark_auto auto_file name faults written fs).1
      (mark_auto-Lists auto_file ns fs h name faults written ok s) q
    ∙ listed-marked name q ns
    ∙ rw (is_auto-Lists auto_file ns fs h q)

-- Unmarking a package and asking for one: on such a file a successful `aept_status_unmark_auto`
-- takes the name away, and changes no other answer.
pub is_auto-unmark_auto :
    (auto_file : FilePath) (ns : List Bytes) (fs : Files) (name q : Bytes) (faults : Faults)
    → Lists auto_file ns fs
    → (unmark_auto auto_file name faults fs).0 ≡ success
    → is_auto auto_file q (unmark_auto auto_file name faults fs).1
      ≡ (if str_eq name q then false else is_auto auto_file q fs)
is_auto-unmark_auto auto_file ns fs name q faults h s =
    is_auto-Lists auto_file (without name ns) (unmark_auto auto_file name faults fs).1
      (unmark_auto-Lists auto_file ns fs h name faults s) q
    ∙ listed-without name q ns
    ∙ rw (is_auto-Lists auto_file ns fs h q)
