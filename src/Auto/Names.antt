-- ===== src/Auto/Names.antt =====
-- The file of automatically installed packages as the list of its names, and what the loops of
-- src/status.c do to that list.
use aept.Base.{
  ◌<◌, ◌≡◌, refl, inl, inr, Bool, true, false, not, ◌||◌, some, List, [], ◌∷◌, ◌++◌, map, arith,
  if◌then◌else◌, Bool-cases, length, any, All, keep, append_assoc,
}
use aept.Text.Strings.{Bytes, str_eq, str_eq_iff, has}
use aept.Text.Lines.{read_lines}
use aept.Text.Lines.Join.{with_newline, join_lines, IsLine, read_lines-join}
use aept.Text.Scan.{is_space, scan_word, IsWord, scan_word-append}
use aept.Auto.{auto_buffer, find_name, copy_unmarked}

-- A word with no NUL whose line fits the buffer.
pub record IsName (w : Bytes) : Type 0 where
  pub word : IsWord w
  pub text : has 0 w ≡ false
  pub fits : length w < 255

no_newline : (w : Bytes) → any is_space w ≡ false → has b'\n' w ≡ false
unfolding is_space
no_newline [] h = refl
no_newline (c ∷ cs) h = ground (arith, no_newline cs)

All-IsLine : (ns : List Bytes) → All IsName ns → All (IsLine auto_buffer) ns
All-IsLine [] h = tt
All-IsLine (n ∷ ns) h =
    ((no_newline n h.0.word.1, h.0.text, omega (arith, h.0.fits)), All-IsLine ns h.1)

pub read_lines-names :
    (ns : List Bytes) → All IsName ns → read_lines auto_buffer (join_lines ns) ≡ map with_newline ns
read_lines-names ns h = read_lines-join auto_buffer ns (omega arith) (All-IsLine ns h)

pub scan_word-name : (n : Bytes) → IsName n → scan_word (with_newline n) ≡ some n
scan_word-name n h = scan_word-append n b'\n' [] h.word (unfold is_space in refl)

-- The name is in the list.
abbrev pub listed : Bytes → List Bytes → Bool
listed name = any (λ n. str_eq n name)

abbrev pub without : Bytes → List Bytes → List Bytes
without name = keep (λ n. not (str_eq n name))

pub find_name-names :
    (name : Bytes) (ns : List Bytes)
    → All IsName ns
    → find_name name (map with_newline ns) ≡ listed name ns
unfolding find_name
find_name-names name [] h = refl
find_name-names name (n ∷ ns) h = ground (arith, scan_word-name n h.0, find_name-names name ns h.1)

pub copy_unmarked-names :
    (name : Bytes) (r : Bool) (ns : List Bytes)
    → All IsName ns
    → copy_unmarked name r (map with_newline ns)
      ≡ (join_lines (without name ns), r || listed name ns)
unfolding copy_unmarked
copy_unmarked-names name r [] h = ground arith
copy_unmarked-names name r (n ∷ ns) h = ground (
  arith,
  scan_word-name n h.0,
  copy_unmarked-names name r ns h.1,
  copy_unmarked-names name true ns h.1,
  append_assoc n (b'\n' ∷ []) (join_lines (without name ns)),
)

pub listed-without :
    (name q : Bytes) (ns : List Bytes)
    → listed q (without name ns) ≡ (if str_eq name q then false else listed q ns)
listed-without name q [] = ground arith
listed-without name q (n ∷ ns) =
    ground (arith, listed-without name q ns, str_eq_iff n name, str_eq_iff n q, str_eq_iff name q)

pub without_unlisted :
    (name : Bytes) (ns : List Bytes) → listed name ns ≡ false → without name ns ≡ ns
without_unlisted name [] h = refl
without_unlisted name (n ∷ ns) h = ground (arith, without_unlisted name ns)

pub All-without {κ} :
    (P : Bytes → Type κ) (name : Bytes) (ns : List Bytes) → All P ns → All P (without name ns)
All-without P name [] h = tt
All-without P name (n ∷ ns) h = elim (Bool-cases (str_eq n name)) [
  | inl t ↦ rw t (All-without P name ns h.1)
  | inr f ↦ rw f (h.0, All-without P name ns h.1)
]

pub All-concat {κ} :
    (P : Bytes → Type κ) (ns : List Bytes) (n : Bytes) → P n → All P ns → All P (ns ++ n ∷ [])
All-concat P [] n p h = (p, tt)
All-concat P (m ∷ ns) n p h = (h.0, All-concat P ns n p h.1)
