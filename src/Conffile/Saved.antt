-- ===== src/Conffile/Saved.antt =====
-- The record of the digests, written and read back.
use mathlib.Core.Path.{subst}
use aept.Base.{
  ◌≡◌, refl, ap, sym, ◌∙◌, inl, inr, false, ◌+◌, ◌<◌, Option, none, some, List, [], ◌∷◌, ◌++◌, map,
  append_assoc, append-nil, arith, ◌==◌, Option-cases, length, length-append, any-append, All,
}
use aept.Text.Strings.{Bytes, before, behind, before-append, behind-append, has}
use aept.Text.Lines.{read_lines}
use aept.Text.Lines.Join.{with_newline, join_lines, IsLine, read_lines-join}
use aept.Files.{Files, success, write_self}
use aept.Config.{Config}
use aept.Conffile.{
  Conffile, Conffiles, set_add, conffile_buffer, skip_blanks, saved_line, load_saved, saved_path,
  conffile_load, saved_text, Writing, complete, conffile_save,
}

-- A path that does not begin with a space.
abbrev pub StartsInked : Bytes → Type 0
StartsInked [] = Unit
StartsInked (c ∷ cs) = (c == b' ') ≡ false

-- A digest and a path that one line of the record can hold.
pub record IsSavable (md5 path : Bytes) : Type 0 where
  pub md5_line : has b'\n' md5 ≡ false
  pub md5_text : has 0 md5 ≡ false
  pub md5_word : has b' ' md5 ≡ false
  pub path_line : has b'\n' path ≡ false
  pub path_text : has 0 path ≡ false
  pub path_inked : StartsInked path
  pub fits : length md5 + length path < 4093

abbrev pub IsSavableDigest : Option Bytes → Bytes → Type 0
IsSavableDigest none path = Unit
IsSavableDigest (some md5) path = IsSavable md5 path

abbrev pub SavableIfThere : Conffile → Type 0
SavableIfThere c = IsSavableDigest c.md5 c.path

-- The entries that have a digest.
abbrev pub digested : Conffiles → Conffiles
digested [] = []
digested (c ∷ cs) = let rest = digested cs in elim c.md5 [ none ↦ rest | some md5 ↦ c ∷ rest ]

abbrev line_of : Bytes → Bytes → Bytes
line_of md5 path = md5 ++ b' ' ∷ b' ' ∷ path

abbrev bodies : Conffiles → List Bytes
bodies [] = []
bodies (c ∷ cs) =
    let rest = bodies cs in elim c.md5 [ none ↦ rest | some md5 ↦ line_of md5 c.path ∷ rest ]

saved_text-join : (cs : Conffiles) → saved_text cs ≡ join_lines (bodies cs)
unfolding saved_text
saved_text-join [] = refl
saved_text-join (c ∷ cs) = elim (Option-cases c.md5) [
  | inl e ↦ rw (e) (saved_text-join cs)
  | inr (md5, e) ↦ rw (e) (
      ap (λ x. md5 ++ b' ' ∷ b' ' ∷ (c.path ++ b'\n' ∷ x)) (saved_text-join cs)
      ∙ sym (append_assoc md5 (b' ' ∷ b' ' ∷ c.path) (b'\n' ∷ join_lines (bodies cs))))
]

IsSavable-IsLine :
    (md5 path : Bytes) → IsSavable md5 path → IsLine conffile_buffer (line_of md5 path)
IsSavable-IsLine md5 path h = (
  rw (any-append (λ x. x == b'\n') md5 (b' ' ∷ b' ' ∷ path))
      (ground (arith, h.md5_line, h.path_line)),
  rw (any-append (λ x. x == 0) md5 (b' ' ∷ b' ' ∷ path)) (ground (arith, h.md5_text, h.path_text)),
  omega (arith, h.fits, length-append md5 (b' ' ∷ b' ' ∷ path)),
)

bodies-IsLine : (cs : Conffiles) → All SavableIfThere cs → All (IsLine conffile_buffer) (bodies cs)
bodies-IsLine [] h = tt
bodies-IsLine (c ∷ cs) h = elim (Option-cases c.md5) [
  | inl e ↦ rw (e, bodies) (bodies-IsLine cs h.1)
  | inr (md5, e) ↦
      rw (e, bodies)
        (
          IsSavable-IsLine md5 c.path (subst (λ o. IsSavableDigest o c.path) e h.0),
          bodies-IsLine cs h.1,
        )
]

skip_blanks-StartsInked : (p : Bytes) → StartsInked p → skip_blanks p ≡ p
skip_blanks-StartsInked [] h = refl
skip_blanks-StartsInked (c ∷ cs) h = rw (h, skip_blanks) refl

saved_line-with_newline :
    (md5 path : Bytes)
    → IsSavable md5 path
    → saved_line (with_newline (line_of md5 path)) ≡ some (record { path = path; md5 = some md5 })
unfolding saved_line
saved_line-with_newline md5 path h =
    let line = IsSavable-IsLine md5 path h in
    let cut : before b'\n' (with_newline (line_of md5 path)) ≡ line_of md5 path =
      before-append b'\n' (line_of md5 path) [] line.0 in
    let tail : behind b' ' (line_of md5 path) ≡ some (b' ' ∷ path) =
      behind-append b' ' md5 (b' ' ∷ path) h.md5_word in
    let head : before b' ' (line_of md5 path) ≡ md5 =
      before-append b' ' md5 (b' ' ∷ path) h.md5_word in
    ground (
      arith,
      cut,
      ap (behind b' ') cut ∙ tail,
      ap (before b' ') cut ∙ head,
      skip_blanks-StartsInked path h.path_inked,
    )

load_saved-cons :
    (l : Bytes) (ls : List Bytes) (acc : Conffiles) (c : Conffile)
    → saved_line l ≡ some c
    → load_saved (l ∷ ls) acc ≡ load_saved ls (acc ++ c ∷ [])
unfolding load_saved set_add
load_saved-cons l ls acc c h = rw (h, load_saved) refl

load_saved-bodies :
    (cs acc : Conffiles)
    → All SavableIfThere cs
    → load_saved (map with_newline (bodies cs)) acc ≡ acc ++ digested cs
unfolding load_saved
load_saved-bodies [] acc h = sym (append-nil acc)
load_saved-bodies (c ∷ cs) acc h = elim (Option-cases c.md5) [
  | inl e ↦ rw (e, bodies) (load_saved-bodies cs acc h.1)
  | inr (md5, e) ↦
      let k = saved_line-with_newline md5 c.path (subst (λ o. IsSavableDigest o c.path) e h.0) in
      let whole : record { path = c.path; md5 = some md5 } ≡ c =
        ap (λ o. record { path = c.path; md5 = o }) (sym e) in
      rw (e, bodies)
        (load_saved-cons _ (map with_newline (bodies cs)) acc _ k
          ∙ load_saved-bodies cs (acc ++ record { path = c.path; md5 = some md5 } ∷ []) h.1
          ∙ append_assoc acc (record { path = c.path; md5 = some md5 } ∷ []) (digested cs)
          ∙ ap (λ x. acc ++ x ∷ digested cs) whole)
]

-- A set whose entries fit the lines of the record: after a successful `aept_conffile_save`,
-- `aept_conffile_load` adds to an empty set exactly the entries that have a digest, in their order.
pub load-save :
    (cfg : Config) (name : Bytes) (cs : Conffiles) (writing : Writing) (fs : Files)
    → All SavableIfThere cs
    → (conffile_save cfg name cs writing fs).0 ≡ success
    → conffile_load cfg name (conffile_save cfg name cs writing fs).1 [] ≡ digested cs
unfolding conffile_load conffile_save
load-save cfg name cs complete fs h k =
    rw (write_self (saved_path cfg name) (saved_text cs) fs, conffile_load)
      (ap (λ x. load_saved x [])
          (ap (read_lines conffile_buffer) (saved_text-join cs)
            ∙ read_lines-join conffile_buffer (bodies cs) (omega arith) (bodies-IsLine cs h))
        ∙ load_saved-bodies cs [] h)
load-save _ _ _ _ _ _ k = absurd (cc)
