-- ===== src/Status/Added.antt =====
-- What `aept_status_add` writes, and what the feed makes of it.
use aept.Base.{
  ℕ, ◌≡◌, refl, ap, sym, ◌∙◌, ◌⊎◌, inl, inr, Bool, true, false, some, List, [], ◌∷◌, ◌++◌, map,
  arith, Bool-cases, Option-cases, if◌then◌else◌, any, All, All-append, append_assoc, any-append,
  ◌==◌,
}
use aept.Text.Strings.{Bytes, codes, str_eq, has, c_str, has-before, strip_prefix}
use aept.Text.Lines.Join.{join_lines, join_lines-append}
use aept.Files.{
  Files, success, failure, Faults, write, write_other, tmp_of, tmp_of_ne, commit_success,
  commit_failure,
}
use aept.Status.{installed_status, is_status, stanza_of, trim_end, control_text, status_add}
use aept.Status.Feed.{fed, states, IsText, missing_status, stanza_of-join}

-- The text between the newlines, the first and the last included.
abbrev with_char : ℕ → List Bytes → List Bytes
with_char c [] = (c ∷ []) ∷ []
with_char c (l ∷ ls) = (c ∷ l) ∷ ls

unfoldable pub text_lines : Bytes → List Bytes
text_lines [] = [] ∷ []
text_lines (c ∷ cs) =
    let rest = text_lines cs in elim (c == b'\n') [ true ↦ [] ∷ rest | false ↦ with_char c rest ]

text_lines-join : (s : Bytes) → join_lines (text_lines s) ≡ s ++ b'\n' ∷ []
unfolding text_lines
text_lines-join [] = refl
text_lines-join (c ∷ cs) = elim (Bool-cases (c == b'\n')) [
  | inl t ↦
      let e : c ≡ b'\n' = ground arith in
      rw (t, text_lines) (rw (text_lines-join cs) (ap (λ x. x ∷ (cs ++ b'\n' ∷ [])) (sym e)))
  | inr f ↦ rw (f, text_lines) (in_front (text_lines cs) (text_lines-join cs))
]
  where
    in_front :
        (ls : List Bytes)
        → join_lines ls ≡ cs ++ b'\n' ∷ []
        → join_lines (with_char c ls) ≡ c ∷ (cs ++ b'\n' ∷ [])
    in_front [] h = ap (λ x. c ∷ x) (not_empty cs h)
      where
        not_empty : (t : Bytes) → [] ≡ t ++ b'\n' ∷ [] → b'\n' ∷ [] ≡ t ++ b'\n' ∷ []
        not_empty [] k = refl
        not_empty (x ∷ xs) k = cc
    in_front (l ∷ ls) h = ap (λ x. c ∷ x) h

text_lines-IsText : (s : Bytes) → has 0 s ≡ false → All IsText (text_lines s)
unfolding text_lines
text_lines-IsText [] h = ((refl, refl), tt)
text_lines-IsText (c ∷ cs) h = elim (Bool-cases (c == b'\n')) [
  | inl t ↦ rw (t, text_lines) ((refl, refl), text_lines-IsText cs (ground arith))
  | inr f ↦
      rw (f, text_lines)
        (in_front (text_lines cs) (ground arith) f (text_lines-IsText cs (ground arith)))
]
  where
    in_front :
        (ls : List Bytes)
        → (c == 0) ≡ false
        → (c == b'\n') ≡ false
        → All IsText ls
        → All IsText (with_char c ls)
    in_front [] z n k = ((ground arith, ground arith), tt)
    in_front (l ∷ ls) z n k = ((ground (arith, k.0.0), ground (arith, k.0.1)), k.1)

status_line : Bytes → Bytes
status_line state = codes "Status: install ok " ++ state

-- A control file with a status behind it is a list of lines of text.
control_text-join :
    (ctrl state : Bytes)
    → control_text ctrl state
      ≡ join_lines (text_lines (c_str (trim_end ctrl)) ++ status_line state ∷ [])
unfolding control_text status_line
control_text-join ctrl state =
    let body = c_str (trim_end ctrl) in
    sym (
      join_lines-append (text_lines body) (status_line state ∷ [])
      ∙ ap (λ x. x ++ join_lines (status_line state ∷ [])) (text_lines-join body)
      ∙ append_assoc body (b'\n' ∷ []) (join_lines (status_line state ∷ [])))

-- The two states that the program records.
abbrev pub IsState : Bytes → Type 0
IsState state = (state ≡ codes "installed") ⊎ (state ≡ codes "unpacked")

status_line-IsText : (state : Bytes) → IsState state → IsText (status_line state)
unfolding status_line
status_line-IsText state (inl h) = rw h (refl, refl)
status_line-IsText state (inr h) = rw h (refl, refl)

fed-status_line : (state : Bytes) → IsState state → fed (status_line state) ≡ installed_status
unfolding status_line str_eq
fed-status_line state (inl h) = rw h refl
fed-status_line state (inr h) = rw h refl

states-status_line : (state : Bytes) → IsState state → states (status_line state) ≡ true
unfolding status_line str_eq is_status strip_prefix
states-status_line state (inl h) = rw h refl
states-status_line state (inr h) = rw h refl

map-append_one :
    (f : Bytes → Bytes) (ls : List Bytes) (l : Bytes) → map f (ls ++ l ∷ []) ≡ map f ls ++ f l ∷ []
map-append_one f [] l = refl
map-append_one f (x ∷ ls) l = ap (◌∷◌ (f x)) (map-append_one f ls l)

any_last :
    (p : Bytes → Bool) (ls : List Bytes) (l : Bytes) → p l ≡ true → any p (ls ++ l ∷ []) ≡ true
any_last p ls l h = any-append p ls (l ∷ []) ∙ ground arith

-- What the feed has for a package: the lines of its control file, and the status.
abbrev pub installed_stanza : Bytes → Bytes
installed_stanza ctrl =
    join_lines (map fed (text_lines (c_str (trim_end ctrl))) ++ installed_status ∷ [] ∷ [])

stanza_of-control_text :
    (ctrl state : Bytes)
    → IsState state
    → stanza_of (control_text ctrl state) ≡ installed_stanza ctrl
stanza_of-control_text ctrl state h =
    let body = text_lines (c_str (trim_end ctrl)) in
    let ls = body ++ status_line state ∷ [] in
    let none_missing : missing_status ls ≡ [] =
      ap (λ b. if b then [] else installed_status ∷ [])
        (any_last states body (status_line state) (states-status_line state h)) in
    rw (control_text-join ctrl state) (
      stanza_of-join ls (
        All-append IsText body (status_line state ∷ [])
          (text_lines-IsText (c_str (trim_end ctrl)) (has-before 0 (trim_end ctrl)))
          (status_line-IsText state h, tt))
      ∙ ap join_lines (
          ap (λ x. map fed ls ++ (x ++ [] ∷ [])) none_missing
          ∙ ap (λ x. x ++ [] ∷ [])
              (map-append_one fed body (status_line state)
                ∙ ap (λ x. map fed body ++ x ∷ []) (fed-status_line state h))
          ∙ append_assoc (map fed body) (installed_status ∷ []) ([] ∷ [])))

status_add_written :
    (control_src dest state : Bytes) (faults : Faults) (fs : Files) (ctrl : Bytes)
    → fs control_src ≡ some ctrl
    → (status_add control_src dest state faults fs).0 ≡ success
    → (status_add control_src dest state faults fs).1 dest ≡ some (control_text ctrl state)
unfolding status_add
status_add_written control_src dest state faults fs ctrl there =
    rw (there, status_add)
      (λ ok.
        ground
          (arith, commit_success dest (control_text ctrl state) faults (write (tmp_of dest) [] fs)))

-- After a successful `aept_status_add` with either state the feed of the solver has the lines of the
-- control file, trimmed and up to a NUL, then `Status: install ok installed`, so that a package whose
-- `postinst` failed is loaded as an installed one.
pub status_add-stanza_of :
    (control_src dest state : Bytes) (faults : Faults) (fs : Files) (ctrl : Bytes)
    → fs control_src ≡ some ctrl
    → IsState state
    → (status_add control_src dest state faults fs).0 ≡ success
    → (s : Bytes) × ((status_add control_src dest state faults fs).1 dest ≡ some s)
      × (stanza_of s ≡ installed_stanza ctrl)
status_add-stanza_of control_src dest state faults fs ctrl there h ok = (
  control_text ctrl state,
  status_add_written control_src dest state faults fs ctrl there ok,
  stanza_of-control_text ctrl state h,
)

-- A failed `aept_status_add` leaves the destination as it was.
pub status_add_failure :
    (control_src dest state : Bytes) (faults : Faults) (fs : Files)
    → (status_add control_src dest state faults fs).0 ≡ failure
    → (status_add control_src dest state faults fs).1 dest ≡ fs dest
unfolding status_add
status_add_failure control_src dest state faults fs = elim (Option-cases (fs control_src)) [
  | inl gone ↦ rw (gone, status_add) (λ h. refl)
  | inr (ctrl, there) ↦
      rw (there, status_add)
        (λ h. ground (
          arith,
          commit_failure dest (control_text ctrl state) faults (write (tmp_of dest) [] fs),
          write_other (tmp_of dest) dest [] fs (tmp_of_ne dest),
        ))
]
