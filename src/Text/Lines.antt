-- ===== src/Text/Lines.antt =====
-- The loop `while (fgets(buf, sizeof(buf), fp)) { if (aept_fgets_is_truncated(...)) ... }` that
-- every reader of a state file runs (src/util.c and its callers), on the bytes of the file.
pub mod Split
pub mod Visits
pub mod Join
use aept.Base.{ℕ, zero, suc, ◌-◌, Bool, true, false, not, ◌&&◌, List, [], ◌∷◌, ltb, ◌==◌, length}
use aept.Text.Strings.{Bytes, before, c_str}

-- `fgets` with room for `n` bytes: what it reads, and what is left in the file.
unfoldable pub fgets : ℕ → Bytes → Bytes × Bytes
fgets zero s = ([], s)
fgets (suc n) [] = ([], [])
fgets (suc n) (x ∷ xs) = elim (x == b'\n') [
  | true ↦ (x ∷ [], xs)
  | false ↦ let (line, rest) = fgets n xs in (x ∷ line, rest)
]

-- The last byte, or `d` if there is none.
abbrev pub last_or : ℕ → Bytes → ℕ
last_or d [] = d
last_or d (x ∷ xs) = last_or x xs

unfoldable pub fgets_is_truncated : Bytes → ℕ → Bool
fgets_is_truncated buf bufsize =
    let len = length buf in ltb 0 len && (len == bufsize - 1 && not (last_or 0 buf == b'\n'))

unfoldable pub fgets_drain_line : Bytes → Bytes
fgets_drain_line [] = []
fgets_drain_line (x ∷ xs) = elim (x == b'\n') [ true ↦ xs | false ↦ fgets_drain_line xs ]

-- The lines that the body of such a loop sees, as the strings in its buffer. A round takes at
-- least one byte of the file, so the length of the file is fuel enough (Visits).
unfoldable pub lines_from : ℕ → ℕ → Bytes → List Bytes
lines_from zero size s = []
lines_from (suc f) size [] = []
lines_from (suc f) size (x ∷ xs) =
    let (raw, rest) = fgets (size - 1) (x ∷ xs) in
    let line = c_str raw in
    elim (fgets_is_truncated line size) [
      | true ↦ lines_from f size (fgets_drain_line rest)
      | false ↦ line ∷ lines_from f size rest
    ]

unfoldable pub read_lines : ℕ → Bytes → List Bytes
unfolding lines_from fgets fgets_is_truncated fgets_drain_line before
read_lines size s = lines_from (length s) size s
