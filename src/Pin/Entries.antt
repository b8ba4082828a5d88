-- ===== src/Pin/Entries.antt =====
-- The pin file as the list of its entries, and what the loops of src/pin.c do to that list.
use aept.Base.{
  ◌+◌, ◌<◌, ◌≡◌, inl, inr, refl, ◌∙◌, Bool, true, false, ◌||◌, Option, some, List, [], ◌∷◌, ◌++◌,
  map, append_assoc, append-nil, arith, Bool-cases, length, length-append, any, any-append, All,
  ◌==◌,
}
use aept.Text.Strings.{Bytes, str_eq, has}
use aept.Text.Lines.{read_lines}
use aept.Text.Lines.Join.{with_newline, join_lines, IsLine, read_lines-join}
use aept.Text.Scan.{is_space, scan_word, scan_two, IsWord, scan_word-append, scan_two-append}
use aept.Pin.{
  pin_buffer, pin_line, is_named, copy_replacing, pin_lines, pinned, copy_dropping, find_version,
  PinEntry,
}
use aept.Pin.Abstract.{entry, named, replace, replace_unnamed, set_pin, drop_pin, lookup_pin}

-- The file that holds these entries.
abbrev pub render : List PinEntry → Bytes
render [] = []
render (e ∷ es) = pin_line e.name e.version ++ render es

abbrev body : PinEntry → Bytes
body e = e.name ++ b' ' ∷ e.version

abbrev entry_line : PinEntry → Bytes
entry_line e = pin_line e.name e.version

-- Two words with no NUL, whose line fits the buffer.
pub record IsEntry (e : PinEntry) : Type 0 where
  pub name_word : IsWord e.name
  pub version_word : IsWord e.version
  pub name_text : has 0 e.name ≡ false
  pub version_text : has 0 e.version ≡ false
  pub fits : length e.name + length e.version < 510

no_newline : (w : Bytes) → any is_space w ≡ false → has b'\n' w ≡ false
unfolding is_space
no_newline [] h = refl
no_newline (c ∷ cs) h = ground (arith, no_newline cs)

IsEntry-IsLine : (e : PinEntry) → IsEntry e → IsLine pin_buffer (body e)
IsEntry-IsLine e h = (
  rw (any-append (λ x. x == b'\n') e.name (b' ' ∷ e.version))
      (ground (arith, no_newline e.name h.name_word.1, no_newline e.version h.version_word.1)),
  rw (any-append (λ x. x == 0) e.name (b' ' ∷ e.version))
      (ground (arith, h.name_text, h.version_text)),
  omega (arith, h.fits, length-append e.name (b' ' ∷ e.version)),
)

render-join : (es : List PinEntry) → render es ≡ join_lines (map body es)
render-join [] = refl
render-join (e ∷ es) = simp (append_assoc, render-join es)

All-IsLine : (es : List PinEntry) → All IsEntry es → All (IsLine pin_buffer) (map body es)
All-IsLine [] h = tt
All-IsLine (e ∷ es) h = (IsEntry-IsLine e h.0, All-IsLine es h.1)

map-with_newline : (es : List PinEntry) → map with_newline (map body es) ≡ map entry_line es
map-with_newline [] = refl
map-with_newline (e ∷ es) = simp (append_assoc, map-with_newline es)

pub read_lines-render :
    (es : List PinEntry) → All IsEntry es → read_lines pin_buffer (render es) ≡ map entry_line es
read_lines-render es h =
    rw (render-join es) (
      read_lines-join pin_buffer (map body es) (omega arith) (All-IsLine es h)
      ∙ map-with_newline es)

scan_word-entry : (e : PinEntry) → IsEntry e → scan_word (entry_line e) ≡ some e.name
scan_word-entry e h =
    scan_word-append e.name b' ' (e.version ++ b'\n' ∷ []) h.name_word (unfold is_space in refl)

scan_two-entry : (e : PinEntry) → IsEntry e → scan_two (entry_line e) ≡ some (e.name, e.version)
scan_two-entry e h = scan_two-append e.name e.version h.name_word h.version_word

is_named-entry :
    (name : Bytes) (e : PinEntry) → IsEntry e → is_named name (entry_line e) ≡ str_eq e.name name
unfolding is_named
is_named-entry name e h = ground (arith, scan_word-entry e h)

-- The loops, on the lines of entries.
pub copy_replacing-entries :
    (name version : Bytes) (r : Bool) (es : List PinEntry)
    → All IsEntry es
    → copy_replacing name version r (map entry_line es)
      ≡ (render (replace name version es), r || named name es)
unfolding copy_replacing
copy_replacing-entries name version r [] h = ground arith
copy_replacing-entries name version r (e ∷ es) h = ground (
  arith,
  is_named-entry name e h.0,
  copy_replacing-entries name version r es h.1,
  copy_replacing-entries name version true es h.1,
)

pub copy_dropping-entries :
    (name : Bytes) (r : Bool) (es : List PinEntry)
    → All IsEntry es
    → copy_dropping name r (map entry_line es) ≡ (render (drop_pin name es), r || named name es)
unfolding copy_dropping
copy_dropping-entries name r [] h = ground arith
copy_dropping-entries name r (e ∷ es) h = ground (
  arith,
  is_named-entry name e h.0,
  copy_dropping-entries name r es h.1,
  copy_dropping-entries name true es h.1,
)

pub find_version-entries :
    (name : Bytes) (es : List PinEntry)
    → All IsEntry es
    → find_version name (map entry_line es) ≡ lookup_pin name es
unfolding find_version
find_version-entries name [] h = refl
find_version-entries name (e ∷ es) h =
    ground (arith, scan_two-entry e h.0, find_version-entries name es h.1)

render-append :
    (es : List PinEntry) (e : PinEntry) → render (es ++ e ∷ []) ≡ render es ++ entry_line e
render-append [] e = rw append-nil
render-append (d ∷ es) e = simp (append_assoc, render-append es e)

-- What `aept_pin_add` writes.
pub pinned-entries :
    (name version : Bytes) (old : Option Bytes) (es : List PinEntry)
    → All IsEntry es
    → pin_lines old ≡ map entry_line es
    → pinned name version old ≡ render (set_pin name version es)
unfolding pinned
pinned-entries name version old es h e = rw e (elim (Bool-cases (named name es)) [
  | inl t ↦ ground (arith, copy_replacing-entries name version false es h)
  | inr f ↦ ground (
    arith,
    copy_replacing-entries name version false es h,
    replace_unnamed name version es f,
    render-append es (entry name version),
  )
])
