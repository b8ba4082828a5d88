-- ===== src/Text/Lines/Join.antt =====
-- A file that is written line by line, and what the reading loop sees of it.
use aept.Base.{
  ℕ, ◌-◌, ◌<◌, ◌≡◌, refl, ◌∙◌, false, List, [], ◌∷◌, ◌++◌, map, arith, length, keep, All,
  append_assoc,
}
use aept.Text.Strings.{Bytes, before-append, has}
use aept.Text.Lines.{read_lines}
use aept.Text.Lines.Split.{split_lines}
use aept.Text.Lines.Visits.{fits, read_lines-keep}

abbrev pub with_newline : Bytes → Bytes
with_newline b = b ++ b'\n' ∷ []

-- What `fprintf(fp, "%s\n", b)` in a loop writes.
abbrev pub join_lines : List Bytes → Bytes
join_lines [] = []
join_lines (b ∷ bs) = b ++ b'\n' ∷ join_lines bs

-- A line that a buffer of `size` bytes takes whole.
abbrev pub IsLine : ℕ → Bytes → Type 0
IsLine size b = (has b'\n' b ≡ false) × (has 0 b ≡ false) × (length b < size - 1)

split_lines-append :
    (b rest : Bytes)
    → has b'\n' b ≡ false
    → split_lines (b ++ b'\n' ∷ rest) ≡ with_newline b ∷ split_lines rest
unfolding split_lines
split_lines-append [] rest h = refl
split_lines-append (x ∷ xs) rest h = ground (arith, split_lines-append xs rest)

has-append_line :
    (b rest : Bytes) → has 0 b ≡ false → has 0 rest ≡ false → has 0 (b ++ b'\n' ∷ rest) ≡ false
has-append_line [] rest h k = k
has-append_line (x ∷ xs) rest h k = ground (arith, has-append_line xs rest)

has-join : (size : ℕ) (bs : List Bytes) → All (IsLine size) bs → has 0 (join_lines bs) ≡ false
has-join size [] h = refl
has-join size (b ∷ bs) h = has-append_line b (join_lines bs) h.0.1 (has-join size bs h.1)

keep-split :
    (size : ℕ) (bs : List Bytes)
    → All (IsLine size) bs
    → keep (fits size) (split_lines (join_lines bs)) ≡ map with_newline bs
keep-split size [] h = unfold split_lines in refl
keep-split size (b ∷ bs) h =
    rw (split_lines-append b (join_lines bs) h.0.0)
      (rw (before-append b'\n' b [] h.0.0) (ground (arith, keep-split size bs h.1)))

-- Lines that fit are read back one by one.
pub read_lines-join :
    (size : ℕ) (bs : List Bytes)
    → 1 < size
    → All (IsLine size) bs
    → read_lines size (join_lines bs) ≡ map with_newline bs
read_lines-join size bs p h =
    read_lines-keep size (join_lines bs) (has-join size bs h) p ∙ keep-split size bs h

pub join_lines-append :
    (ds bs : List Bytes) → join_lines (ds ++ bs) ≡ join_lines ds ++ join_lines bs
join_lines-append [] bs = refl
join_lines-append (d ∷ ds) bs = rw (join_lines-append ds bs) (rw append_assoc)
