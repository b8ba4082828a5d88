-- ===== src/Status/Feed.antt =====
-- The feed of src/status.c line by line: what libsolv reads of a `.control` file.
use aept.Base.{
  ℕ, zero, suc, ◌≤◌, ◌≡◌, refl, sym, ◌∙◌, Bool, true, false, ◌||◌, some, List, [], ◌∷◌, ◌++◌, map,
  arith, if◌then◌else◌, length, any, All, length-append, any-append, ◌==◌,
}
use aept.Text.Strings.{
  Bytes, str_eq, before, behind, has, before_none, before-append, behind-append,
}
use aept.Text.Lines.Join.{join_lines, join_lines-append}
use aept.Status.{unpacked_status, installed_status, is_status, feed_line, feed_loop, stanza_of}

-- What is written for a line, whatever was found before.
abbrev pub fed : Bytes → Bytes
fed line = if str_eq line unpacked_status then installed_status else line

-- The line is a status line.
abbrev pub states : Bytes → Bool
states line = str_eq line unpacked_status || is_status line

-- A line of text: no newline and no NUL.
abbrev pub IsText : Bytes → Type 0
IsText line = (has b'\n' line ≡ false) × (has 0 line ≡ false)

feed_line_lem :
    (line : Bytes) (found : Bool) → feed_line line found ≡ (fed line, found || states line)
unfolding feed_line
feed_line_lem line found = ground arith

feed_loop_at :
    (f : ℕ) (s line rest : Bytes) (found : Bool)
    → before b'\n' s ≡ line
    → behind b'\n' s ≡ some rest
    → feed_loop (suc f) s found ≡ (
      fed line ++ b'\n' ∷ (feed_loop f rest (found || states line)).0,
      (feed_loop f rest (found || states line)).1,
    )
unfolding feed_loop
feed_loop_at f [] line rest found e k = absurd (nothing k)
  where
    nothing : behind b'\n' [] ≡ some rest → ⊥
    nothing h = unfold behind in cc
feed_loop_at f (c ∷ cs) line rest found e k =
    rw (k, feed_loop) (rw e (rw (feed_line_lem line found) refl))

feed_loop-line :
    (f : ℕ) (line rest : Bytes) (found : Bool)
    → has b'\n' line ≡ false
    → feed_loop (suc f) (line ++ b'\n' ∷ rest) found ≡ (
      fed line ++ b'\n' ∷ (feed_loop f rest (found || states line)).0,
      (feed_loop f rest (found || states line)).1,
    )
feed_loop-line f line rest found h =
    feed_loop_at f (line ++ b'\n' ∷ rest) line rest found (before-append b'\n' line rest h)
      (behind-append b'\n' line rest h)

-- On whole lines of text, with the flag.
feed_loop-join :
    (f : ℕ) (ls : List Bytes) (found : Bool)
    → length (join_lines ls) ≤ f
    → All IsText ls
    → feed_loop f (join_lines ls) found ≡ (join_lines (map fed ls), found || any states ls)
feed_loop-join zero [] found h k = unfold feed_loop in (ground arith)
feed_loop-join (suc f) [] found h k = unfold feed_loop in (ground arith)
feed_loop-join zero (l ∷ ls) found h k =
    absurd (omega (arith, length-append l (b'\n' ∷ join_lines ls)))
feed_loop-join (suc f) (l ∷ ls) found h k = rw (feed_loop-line f l (join_lines ls) found k.0.0) (
    rw
      (feed_loop-join f ls (found || states l)
        (omega (arith, h, length-append l (b'\n' ∷ join_lines ls))) k.1)
      (ground arith))

has-join : (ls : List Bytes) → All IsText ls → has 0 (join_lines ls) ≡ false
has-join [] h = refl
has-join (l ∷ ls) h =
    any-append (λ x. x == 0) l (b'\n' ∷ join_lines ls) ∙ ground (arith, has-join ls h.1)

-- The status that a file without one is given.
abbrev pub missing_status : List Bytes → List Bytes
missing_status ls = if any states ls then [] else installed_status ∷ []

-- A `.control` file of whole lines adds to the feed each of its lines, with `unpacked` turned to
-- `installed`, then the line `Status: install ok installed` if no line is a status line, and a blank
-- line.
pub stanza_of-join :
    (ls : List Bytes)
    → All IsText ls
    → stanza_of (join_lines ls) ≡ join_lines (map fed ls ++ (missing_status ls ++ [] ∷ []))
unfolding stanza_of
stanza_of-join ls h =
    let text = before_none 0 (join_lines ls) (has-join ls h) in
    rw text (
      rw (feed_loop-join (length (join_lines ls)) ls false (omega arith) h)
        (ending (any states ls)))
  where
    ending :
        (b : Bool)
        → (if b
            then join_lines (map fed ls) ++ b'\n' ∷ []
            else join_lines (map fed ls) ++ (installed_status ++ b'\n' ∷ b'\n' ∷ []))
          ≡ join_lines (map fed ls ++ ((if b then [] else installed_status ∷ []) ++ [] ∷ []))
    ending true = sym (join_lines-append (map fed ls) ([] ∷ []))
    ending false = sym (join_lines-append (map fed ls) (installed_status ∷ [] ∷ []))
