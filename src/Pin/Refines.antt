-- ===== src/Pin/Refines.antt =====
-- The operations of src/pin.c on files implement the operations on lists of entries.
use aept.Base.{
  ◌≡◌, ◌≢◌, refl, sym, ◌∙◌, false, Option, none, some, List, [], ◌∷◌, ◌++◌, map, arith,
  if◌then◌else◌, Bool-cases, Option-cases, inl, inr, All,
}
use aept.Text.Strings.{Bytes, str_eq, str_eq_iff}
use aept.Text.Lines.{read_lines}
use aept.Text.Scan.{scan_two}
use aept.Files.{
  FilePath, Files, success, failure, Faults, write, write_other, unlink_other, tmp_of, tmp_of_ne,
  commit_success, commit_failure,
}
use aept.Pin.{
  pin_buffer, pin_line, pin_lines, pinned, pin_add, pin_remove, pin_lookup, copy_dropping,
  find_version, PinEntry, load_lines, pin_load_into_solver, find_pin_version, solver_add_pin,
}
use aept.Pin.Abstract.{
  entry, set_pin, drop_pin, drop_unnamed, lookup_pin, lookup-set_pin, lookup-drop_pin, All-set_pin,
  All-drop_pin,
}
use aept.Pin.Entries.{
  render, IsEntry, read_lines-render, copy_dropping-entries, find_version-entries, pinned-entries,
}

-- The contents of a file, nothing if it is not there.
abbrev pub contents : Option Bytes → Bytes
contents none = []
contents (some s) = s

-- The pin file holds exactly these entries, each of which its buffers can take.
pub record Holds (pin_file : FilePath) (es : List PinEntry) (fs : Files) : Type 0 where
  pub entries : All IsEntry es
  pub bytes : contents (fs pin_file) ≡ render es

abbrev lines_of : List PinEntry → List Bytes
lines_of = map (λ e. pin_line e.name e.version)

pin_lines-contents : (o : Option Bytes) → pin_lines o ≡ read_lines pin_buffer (contents o)
unfolding pin_lines read_lines
pin_lines-contents none = refl
pin_lines-contents (some s) = refl

pin_line-ne-nil : (name version rest : Bytes) → pin_line name version ++ rest ≢ []
pin_line-ne-nil [] version rest h = cc
pin_line-ne-nil (c ∷ cs) version rest h = cc

render-eq-nil : (es : List PinEntry) → [] ≡ render es → es ≡ []
render-eq-nil [] h = refl
render-eq-nil (e ∷ es) h = absurd (pin_line-ne-nil e.name e.version (render es) (sym h))

-- The bytes that a successful `aept_pin_remove` leaves.
pin_remove_bytes :
    (pin_file : FilePath) (es : List PinEntry) (fs : Files)
    → All IsEntry es
    → contents (fs pin_file) ≡ render es
    → (name : Bytes) (faults : Faults) → (pin_remove pin_file name faults fs).0 ≡ success
    → contents ((pin_remove pin_file name faults fs).1 pin_file) ≡ render (drop_pin name es)
unfolding pin_remove
pin_remove_bytes pin_file es fs h b name faults s = elim (Option-cases (fs pin_file)) [
  | inl gone ↦ ground (arith, render-eq-nil es (rw gone at b))
  | inr (old, there) ↦
      let text : old ≡ render es = rw there at b in
      let opened = write (tmp_of pin_file) [] fs in
      let (out, found) = copy_dropping name false (read_lines pin_buffer old) in
      ground (
        arith,
        text,
        copy_dropping-entries name false es h,
        read_lines-render es h,
        commit_success pin_file out faults opened,
        drop_unnamed name es,
        unlink_other (tmp_of pin_file) pin_file opened (tmp_of_ne pin_file),
        write_other (tmp_of pin_file) pin_file [] fs (tmp_of_ne pin_file),
      )
]

module _ (pin_file : FilePath) (es : List PinEntry) (fs : Files) (h : Holds pin_file es fs) where
  pin_lines-Holds : pin_lines (fs pin_file) ≡ lines_of es
  pin_lines-Holds = pin_lines-contents (fs pin_file) ∙ rw h.bytes (read_lines-render es h.entries)

  -- `aept_pin_lookup` finds the version of the first entry of that name.
  pub pin_lookup-Holds : (name : Bytes) → pin_lookup pin_file name fs ≡ lookup_pin name es
  unfolding pin_lookup
  pin_lookup-Holds name = rw pin_lines-Holds (find_version-entries name es h.entries)

  -- A successful `aept_pin_add` leaves the file of the list in which the pin is set.
  pub pin_add-Holds :
      (name version : Bytes) (faults : Faults)
      → IsEntry (entry name version)
      → (pin_add pin_file name version faults fs).0 ≡ success
      → Holds pin_file (set_pin name version es) (pin_add pin_file name version faults fs).1
  unfolding pin_add
  pin_add-Holds name version faults ok s = record {
    entries = All-set_pin IsEntry name version es ok h.entries;
    bytes = elim (Bool-cases faults.open_fails) [
      | inl t ↦ ground arith
      | inr f ↦ ground (
        arith,
        commit_success pin_file (pinned name version (fs pin_file)) faults
            (write (tmp_of pin_file) [] fs),
        pinned-entries name version (fs pin_file) es h.entries pin_lines-Holds,
      )
    ];
  }

  -- A successful `aept_pin_remove` leaves the file of the list from which the name is dropped.
  pub pin_remove-Holds :
      (name : Bytes) (faults : Faults)
      → (pin_remove pin_file name faults fs).0 ≡ success
      → Holds pin_file (drop_pin name es) (pin_remove pin_file name faults fs).1
  pin_remove-Holds name faults s = record {
    entries = All-drop_pin IsEntry name es h.entries;
    bytes = pin_remove_bytes pin_file es fs h.entries h.bytes name faults s;
  }

-- Pinning a package and looking one up: the name that was pinned has the new version, every other
-- name the version it had. It holds on a file of entries that the buffers can take, for a name and
-- a version of that kind, where `aept_pin_add` reports success.
pub pin_lookup-pin_add :
    (pin_file : FilePath) (es : List PinEntry) (fs : Files) (name version q : Bytes)
    (faults : Faults)
    → Holds pin_file es fs
    → IsEntry (entry name version)
    → (pin_add pin_file name version faults fs).0 ≡ success
    → pin_lookup pin_file q (pin_add pin_file name version faults fs).1
      ≡ (if str_eq name q then some version else pin_lookup pin_file q fs)
pin_lookup-pin_add pin_file es fs name version q faults h ok s =
    pin_lookup-Holds pin_file (set_pin name version es) (pin_add pin_file name version faults fs).1
      (pin_add-Holds pin_file es fs h name version faults ok s) q
    ∙ lookup-set_pin name version q es
    ∙ rw (pin_lookup-Holds pin_file es fs h q)

-- Removing a pin and looking one up: the name has no pin left, every other name the one it had.
pub pin_lookup-pin_remove :
    (pin_file : FilePath) (es : List PinEntry) (fs : Files) (name q : Bytes) (faults : Faults)
    → Holds pin_file es fs
    → (pin_remove pin_file name faults fs).0 ≡ success
    → pin_lookup pin_file q (pin_remove pin_file name faults fs).1
      ≡ (if str_eq name q then none else pin_lookup pin_file q fs)
pin_lookup-pin_remove pin_file es fs name q faults h s =
    pin_lookup-Holds pin_file (drop_pin name es) (pin_remove pin_file name faults fs).1
      (pin_remove-Holds pin_file es fs h name faults s) q
    ∙ lookup-drop_pin name q es
    ∙ rw (pin_lookup-Holds pin_file es fs h q)

-- After `aept_pin_add` the pin file holds the rewritten text if the operation reports success, and
-- what it held before if it reports failure.
pub pin_add_outcome :
    (pin_file : FilePath) (fs : Files) (name version : Bytes) (faults : Faults)
    → (pin_add pin_file name version faults fs).1 pin_file
      ≡ elim (pin_add pin_file name version faults fs).0 [
        | success ↦ some (pinned name version (fs pin_file))
        | failure ↦ fs pin_file
      ]
unfolding pin_add
pin_add_outcome pin_file fs name version faults =
    let opened = write (tmp_of pin_file) [] fs in
    let text = pinned name version (fs pin_file) in
    ground (
      arith,
      commit_success pin_file text faults opened,
      commit_failure pin_file text faults opened,
      write_other (tmp_of pin_file) pin_file [] fs (tmp_of_ne pin_file),
    )

-- A failed `aept_pin_remove` leaves the pin file as it was.
pub pin_remove_failure :
    (pin_file : FilePath) (fs : Files) (name : Bytes) (faults : Faults)
    → (pin_remove pin_file name faults fs).0 ≡ failure
    → (pin_remove pin_file name faults fs).1 pin_file ≡ fs pin_file
unfolding pin_remove
pin_remove_failure pin_file fs name faults s = elim (Option-cases (fs pin_file)) [
  | inl gone ↦ ground arith
  | inr (old, there) ↦
      let opened = write (tmp_of pin_file) [] fs in
      ground (
        arith,
        commit_failure pin_file (copy_dropping name false (read_lines pin_buffer old)).0 faults
            opened,
        write_other (tmp_of pin_file) pin_file [] fs (tmp_of_ne pin_file),
      )
]

find-append :
    (name : Bytes) (ps : List PinEntry) (p : PinEntry)
    → find_pin_version (ps ++ p ∷ []) name ≡ elim (find_pin_version ps name) [
      | some v ↦ some v
      | none ↦ if str_eq name p.name then some p.version else none
    ]
unfolding find_pin_version
find-append name [] p = refl
find-append name (x ∷ ps) p = ground (arith, find-append name ps p)

find-load_lines :
    (name : Bytes) (ls : List Bytes) (ps : List PinEntry)
    → find_pin_version (load_lines ls ps) name
      ≡ elim (find_pin_version ps name) [ some v ↦ some v | none ↦ find_version name ls ]
unfolding load_lines find_version
find-load_lines name [] ps = ground arith
find-load_lines name (l ∷ ls) ps = elim (Option-cases (scan_two l)) [
  | inl bad ↦ ground (arith, find-load_lines name ls ps)
  | inr ((n, v), good) ↦ ground (
    arith,
    find-load_lines name ls (solver_add_pin ps n v),
    find-append name ps (entry n v),
    str_eq_iff n name,
    str_eq_iff name n,
  )
]

-- The solver's table of pins agrees with the file: after `aept_pin_load_into_solver` it gives each
-- name the version that `aept_pin_lookup` reads, whatever bytes the file holds.
pub find_pin_version-load :
    (pin_file : FilePath) (fs : Files) (name : Bytes)
    → find_pin_version (pin_load_into_solver pin_file fs []) name ≡ pin_lookup pin_file name fs
unfolding pin_load_into_solver pin_lookup
find_pin_version-load pin_file fs name =
    find-load_lines name (pin_lines (fs pin_file)) [] ∙ (unfold find_pin_version in refl)
