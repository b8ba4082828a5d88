-- ===== src/Remove/Listed.antt =====
-- The `.list` file of a package: what is recorded of an extraction is what its readers see.
use aept.Base.{
  ℕ, zero, suc, ◌+◌, ◌/◌, ◌%◌, ◌<◌, ◌≡◌, refl, ap, ◌∙◌, inl, inr, true, false, Option, none, some,
  List, [], ◌∷◌, ◌++◌, ◌==◌, ltb, arith, map, All, length, Bool-cases, Option-cases, any-append,
}
use aept.Text.Strings.{Bytes, has, before-append, behind-append}
use aept.Text.Lines.{read_lines}
use aept.Text.Lines.Join.{with_newline, join_lines, IsLine, read_lines-join}
use aept.Text.Scan.{skip_space, is_space}
use aept.Util
use aept.Util.{archive_path_is_safe, symlink_target_is_recordable}
use aept.Util.Safety.{archive_path_is_safe_iff, symlink_target_is_recordable_iff}
use aept.Trigger.Ctx.{octal, strtoul, list_buffer}
use aept.Archive.Extract.{FileEntry}
use aept.Archive.Listing.{octal_digits, print_mode, list_line, file_list_write}
use aept.Remove.{line_path, line_mode}

octal-octal_digits :
    (f n : ℕ) (tail : Bytes) → n < f → octal 0 (octal_digits f n tail) ≡ octal n tail
unfolding octal_digits octal
octal-octal_digits zero n tail h = absurd (omega arith)
octal-octal_digits (suc f) n tail h = elim (Bool-cases (n / 8 == 0)) [
  | inl t ↦ rw (t, octal_digits) (ground arith)
  | inr more ↦
      rw (more, octal_digits)
        (octal-octal_digits f (n / 8) ((b'0' + n % 8) ∷ tail) (ground arith) ∙ ground arith)
]

zero_in_front : (ds : Bytes) → octal 0 (b'0' ∷ ds) ≡ octal 0 ds
unfolding octal
zero_in_front ds = ground arith

octal-print_mode :
    (mode : ℕ) (tail : Bytes)
    → (rest : Bytes) × (print_mode mode tail ≡ b'0' ∷ rest)
      × (octal 0 (b'0' ∷ rest) ≡ octal mode tail)
unfolding print_mode
octal-print_mode mode tail =
    let digits = octal_digits (suc mode) mode tail in
    let value : octal 0 digits ≡ octal mode tail =
      octal-octal_digits (suc mode) mode tail (omega arith) in
    elim (Bool-cases (mode == 0)) [
      | inl t ↦
          rw t (b'0' ∷ digits, refl, zero_in_front (b'0' ∷ digits) ∙ zero_in_front digits ∙ value)
      | inr nz ↦ elim (Bool-cases (ltb mode 8)) [
        | inl t ↦
            rw (nz, t)
              (b'0' ∷ digits, refl, zero_in_front (b'0' ∷ digits) ∙ zero_in_front digits ∙ value)
        | inr big ↦ rw (nz, big) (digits, refl, zero_in_front digits ∙ value)
      ]
    ]

strtoul-octal :
    (rest : Bytes)
    → octal 0 (b'0' ∷ rest) < 4294967296
    → strtoul (b'0' ∷ rest) ≡ octal 0 (b'0' ∷ rest)
unfolding strtoul skip_space is_space
strtoul-octal rest h = ground arith

strtoul-print_mode :
    (mode : ℕ) (tail : Bytes)
    → mode < 4294967296
    → octal mode tail ≡ mode
    → strtoul (print_mode mode tail) ≡ mode
strtoul-print_mode mode tail h k =
    let (rest, e, v) = octal-print_mode mode tail in
    rw e (strtoul-octal rest (omega (arith, v, k)) ∙ v ∙ k)

has-octal_digits :
    (c f n : ℕ) (tail : Bytes) → c < b'0' → has c (octal_digits f n tail) ≡ has c tail
unfolding octal_digits
has-octal_digits c zero n tail h = refl
has-octal_digits c (suc f) n tail h = elim (Bool-cases (n / 8 == 0)) [
  | inl t ↦ rw (t, octal_digits) (ground arith)
  | inr more ↦
      rw (more, octal_digits)
        (has-octal_digits c f (n / 8) ((b'0' + n % 8) ∷ tail) h ∙ ground arith)
]

has-print_mode : (c mode : ℕ) (tail : Bytes) → c < b'0' → has c (print_mode mode tail) ≡ has c tail
unfolding print_mode
has-print_mode c mode tail h = ground (arith, has-octal_digits c (suc mode) mode tail h)

-- An entry whose line can be read back: its path passes the check of the program, its target can be
-- recorded, both are C strings, the mode is an `unsigned int`, and the line fits the buffer.
pub record IsListed (e : FileEntry) : Type 0 where
  pub safe : archive_path_is_safe (some e.path) ≡ true
  pub path_text : has 0 e.path ≡ false
  pub target : (t : Bytes) → e.link_target ≡ some t → symlink_target_is_recordable (some t) ≡ true
  pub target_text : (t : Bytes) → e.link_target ≡ some t → has 0 t ≡ false
  pub mode_fits : e.mode < 4294967296
  pub line_fits : length (list_line e) < 4095

-- What stands behind the mode.
abbrev tail_of : Option Bytes → Bytes
tail_of none = []
tail_of (some target) = b'\t' ∷ target

has-tail_of :
    (c : ℕ) (o : Option Bytes)
    → (c == b'\t') ≡ false
    → ((t : Bytes) → o ≡ some t → has c t ≡ false)
    → has c (tail_of o) ≡ false
has-tail_of c none h k = refl
has-tail_of c (some t) h k = ground (arith, k t refl)

octal-tail_of : (n : ℕ) (o : Option Bytes) → octal n (tail_of o) ≡ n
unfolding octal
octal-tail_of n none = refl
octal-tail_of n (some t) = refl

list_line-tail_of :
    (e : FileEntry) → list_line e ≡ e.path ++ b'\t' ∷ print_mode e.mode (tail_of e.link_target)
unfolding list_line
list_line-tail_of e = elim (Option-cases e.link_target) [
  | inl t ↦ rw (t, list_line, tail_of) refl
  | inr (x, t) ↦ rw (t, list_line, tail_of) refl
]

has-list_line :
    (c : ℕ) (e : FileEntry)
    → c < b'0'
    → (c == b'\t') ≡ false
    → has c e.path ≡ false
    → ((t : Bytes) → e.link_target ≡ some t → has c t ≡ false)
    → has c (list_line e) ≡ false
has-list_line c e h n p k = rw (list_line-tail_of e) (
    any-append (λ x. x == c) e.path (b'\t' ∷ print_mode e.mode (tail_of e.link_target))
    ∙ ground
        (arith, has-print_mode c e.mode (tail_of e.link_target) h, has-tail_of c e.link_target n k))

list_line-IsLine : (e : FileEntry) → IsListed e → IsLine list_buffer (list_line e)
list_line-IsLine e h =
    let s = (archive_path_is_safe_iff e.path).0 h.safe in
    (
      has-list_line b'\n' e (omega arith) refl s.no_newline
          (λ t k. ((symlink_target_is_recordable_iff t).0 (h.target t k)).0),
      has-list_line 0 e (omega arith) refl h.path_text h.target_text,
      h.line_fits,
    )

line_path-list_line :
    (e : FileEntry)
    → IsListed e
    → line_path (with_newline (list_line e)) ≡ Util.normalize_path e.path
line_path-list_line e h =
    let s = (archive_path_is_safe_iff e.path).0 h.safe in
    rw (before-append b'\n' (list_line e) [] (list_line-IsLine e h).0, list_line-tail_of e)
      (ap Util.normalize_path
        (before-append b'\t' e.path (print_mode e.mode (tail_of e.link_target)) s.no_tab))

line_mode-list_line : (e : FileEntry) → IsListed e → line_mode (with_newline (list_line e)) ≡ e.mode
line_mode-list_line e h =
    let s = (archive_path_is_safe_iff e.path).0 h.safe in
    let tail = tail_of e.link_target in
    rw (before-append b'\n' (list_line e) [] (list_line-IsLine e h).0, list_line-tail_of e)
      (rw (behind-append b'\t' e.path (print_mode e.mode tail) s.no_tab)
        (strtoul-print_mode e.mode tail h.mode_fits (octal-tail_of e.mode e.link_target)))

file_list_write-join : (es : List FileEntry) → file_list_write es ≡ join_lines (map list_line es)
unfolding file_list_write
file_list_write-join [] = refl
file_list_write-join (e ∷ es) = ap (λ x. list_line e ++ b'\n' ∷ x) (file_list_write-join es)

All-IsLine : (es : List FileEntry) → All IsListed es → All (IsLine list_buffer) (map list_line es)
All-IsLine [] h = tt
All-IsLine (e ∷ es) h = (list_line-IsLine e h.0, All-IsLine es h.1)

-- The path and the mode that a reader of the list takes from a line, and those of an entry.
abbrev pub seen : Bytes → Bytes × ℕ
seen l = (line_path l, line_mode l)

abbrev pub meant : FileEntry → Bytes × ℕ
meant e = (Util.normalize_path e.path, e.mode)

seen-lines :
    (es : List FileEntry)
    → All IsListed es
    → map seen (map with_newline (map list_line es)) ≡ map meant es
seen-lines [] h = refl
seen-lines (e ∷ es) h =
    rw (line_path-list_line e h.0, line_mode-list_line e h.0)
      (ap (◌∷◌ (meant e)) (seen-lines es h.1))

-- The readers of a `.list` file see, line by line, the normal path and the mode of each entry that
-- `aept_ar_file_list_write` wrote, if the entries' lines can be read back.
pub file_list_write-seen :
    (es : List FileEntry)
    → All IsListed es
    → map seen (read_lines list_buffer (file_list_write es)) ≡ map meant es
file_list_write-seen es h = rw (file_list_write-join es) (
    rw (read_lines-join list_buffer (map list_line es) (omega arith) (All-IsLine es h))
      (seen-lines es h))
