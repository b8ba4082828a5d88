-- ===== src/Text/Tests.antt =====
-- Tests of the reading loop and of the search, and instances of their theorems.
use aept.Base.{◌≡◌, refl, some, List, [], ◌∷◌, arith, keep}
use aept.Text.Strings.{Bytes, codes}
use aept.Text.Order.{strcmp}
use aept.Text.Lines.{read_lines}
use aept.Text.Lines.Split.{split_lines}
use aept.Text.Lines.Visits.{fits, read_lines-keep}
use aept.Text.Search.{bsearch, IsSorted}
use aept.Text.Search.Finding.{Finds, bsearch-Finds}

abbrev file : Bytes
file = codes "ab\nlong line\n\nxy"

-- With a buffer of 6 bytes the long line is skipped whole.
short_lines : read_lines 6 file ≡ codes "ab\n" ∷ codes "\n" ∷ codes "xy" ∷ []
unfolding read_lines
short_lines = refl

-- A last line that fills the buffer and has no newline is skipped, though it was read whole.
full_last_line : read_lines 6 (codes "ab\nvwxyz") ≡ codes "ab\n" ∷ []
unfolding read_lines
full_last_line = refl

read_lines-keep_example : read_lines 6 file ≡ keep (fits 6) (split_lines file)
read_lines-keep_example = read_lines-keep 6 file refl (omega arith)

abbrev sorted_words : List Bytes
sorted_words = codes "a" ∷ codes "b" ∷ codes "b/c" ∷ codes "d" ∷ []

abbrev same : Bytes → Bytes
same w = w

sorted_words-IsSorted : IsSorted same sorted_words
unfolding strcmp
sorted_words-IsSorted = ((refl, (refl, (refl, tt))), ((refl, (refl, tt)), ((refl, tt), (tt, tt))))

found : bsearch same (codes "b/c") sorted_words ≡ some (codes "b/c")
unfolding bsearch strcmp
found = refl

bsearch-Finds_example : Finds same (codes "c") sorted_words (bsearch same (codes "c") sorted_words)
bsearch-Finds_example = bsearch-Finds same (codes "c") sorted_words sorted_words-IsSorted
