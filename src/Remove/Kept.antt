-- ===== src/Remove/Kept.antt =====
-- What a removal leaves on the disk.
use mathlib.Core.Path.{subst}
use aept.Base.{
  ◌≡◌, ◌≢◌, refl, ap, sym, ◌∙◌, ◌⊎◌, inl, inr, true, false, Option, none, some, List, [], ◌∷◌,
  arith, All, Bool-cases, Option-cases,
}
use aept.Text.Strings.{Bytes, str_eq, str_eq_iff, is_empty}
use aept.Text.Lines.{read_lines}
use aept.Files.{FilePath, Files, unlink_other}
use aept.Util.{archive_path_is_safe}
use aept.Fileset.{Fileset, fileset_contains}
use aept.Fileset.Contains.{IsValid, searched-IsValid, contains-contains}
use aept.Config.{Config}
use aept.Conffile.{Conffiles}
use aept.Trigger.Ctx.{is_dir_mode, list_buffer}
use aept.Remove.{
  System, is_protected, is_modified, full_path_of, Removal, line_path, line_mode, remove_file,
  remove_line, remove_lines, kept_conffiles, list_path, remove_files,
}

abbrev pub IsValidSet : Option Fileset → Type 0
IsValidSet none = Unit
IsValidSet (some fs) = IsValid fs

-- A set that answers as another one does.
pub record AnswersAs (a b : Option Fileset) : Type 0 where
  pub valid : IsValidSet b
  pub same : (path : Bytes) → (is_protected b path).0 ≡ (is_protected a path).0

pub answer_of :
    (fs : Fileset) (path : Bytes) → (is_protected (some fs) path).0 ≡ (fileset_contains fs path).0
unfolding is_protected
answer_of fs path = refl

pub searched_of :
    (fs : Fileset) (path : Bytes)
    → (is_protected (some fs) path).1 ≡ some (fileset_contains fs path).1
unfolding is_protected
searched_of fs path = refl

pub searched-AnswersAs :
    (a b : Option Fileset) (path : Bytes) → AnswersAs a b → AnswersAs a (is_protected b path).1
searched-AnswersAs a none path h = unfold is_protected in h
searched-AnswersAs a (some fs) path h = rw (searched_of fs path) (record {
  valid = searched-IsValid fs path h.valid;
  same = λ q.
      answer_of (fileset_contains fs path).1 q
      ∙ contains-contains fs path q h.valid
      ∙ sym (answer_of fs q)
      ∙ h.same q;
})

-- The line is about another file than `q`, or its path is protected, or its file is a configuration
-- file that was modified.
abbrev pub IsSpared :
    System → Config → Conffiles → Option Fileset → Files → FilePath → Bytes → Type 0
IsSpared sys cfg conffiles protected fs q l =
    let path = line_path l in
    (full_path_of cfg path ≢ q)
    ⊎ ((is_protected protected path).0 ≡ true)
    ⊎ (is_modified sys conffiles path (full_path_of cfg path) fs ≡ true)

pub remove_file_other :
    (sys : System) (conffiles : Conffiles) (path : Bytes) (full_path q : FilePath) (fs : Files)
    → full_path ≢ q
    → remove_file sys conffiles path full_path fs q ≡ fs q
unfolding remove_file
remove_file_other sys conffiles path full_path q fs h =
    elim (Bool-cases (is_modified sys conffiles path full_path fs)) [
      | inl t ↦ rw t refl
      | inr f ↦ elim (Bool-cases (sys.unlink_fails full_path)) [
        | inl t ↦ rw (f, t) refl
        | inr g ↦ rw (f, g) (unlink_other full_path q fs h)
      ]
    ]

pub remove_file_modified :
    (sys : System) (conffiles : Conffiles) (path : Bytes) (full_path : FilePath) (fs : Files)
    → is_modified sys conffiles path full_path fs ≡ true
    → remove_file sys conffiles path full_path fs ≡ fs
unfolding remove_file
remove_file_modified sys conffiles path full_path fs h = rw h refl

pub is_modified_same :
    (sys : System) (conffiles : Conffiles) (path : Bytes) (full_path : FilePath) (a b : Files)
    → a full_path ≡ b full_path
    → is_modified sys conffiles path full_path a ≡ is_modified sys conffiles path full_path b
unfolding is_modified
is_modified_same sys conffiles path full_path a b h = rw h refl

record Spared (protected : Option Fileset) (fs : Files) (q : FilePath) (s : Removal) : Type 0 where
  answers : AnswersAs protected s.protected
  content : s.files q ≡ fs q

file_content :
    (sys : System) (cfg : Config) (conffiles : Conffiles) (protected : Option Fileset) (fs : Files)
    (q : FilePath) (l : Bytes) (s : Removal)
    → IsSpared sys cfg conffiles protected fs q l
    → Spared protected fs q s
    → (is_protected s.protected (line_path l)).0 ≡ false
    → remove_file sys conffiles (line_path l) (full_path_of cfg (line_path l)) s.files q ≡ fs q
file_content sys cfg conffiles protected fs q l s (inl apart) k free =
    remove_file_other sys conffiles (line_path l) (full_path_of cfg (line_path l)) q s.files apart
    ∙ k.content
file_content sys cfg conffiles protected fs q l s (inr (inl t)) k free =
    absurd (let e = sym t ∙ sym (k.answers.same (line_path l)) ∙ free in cc)
file_content sys cfg conffiles protected fs q l s (inr (inr modified)) k free =
    let full = full_path_of cfg (line_path l) in
    elim (Bool-cases (str_eq full q)) [
      | inr f ↦
          remove_file_other sys conffiles (line_path l) full q s.files
            (λ e. ground (arith, (str_eq_iff full q).1 e))
          ∙ k.content
      | inl t ↦
          let here : full ≡ q = (str_eq_iff full q).0 t in
          let same : s.files full ≡ fs full = ap s.files here ∙ k.content ∙ ap fs (sym here) in
          ap (λ g. g q)
            (remove_file_modified sys conffiles (line_path l) full s.files
              (is_modified_same sys conffiles (line_path l) full s.files fs same ∙ modified))
          ∙ k.content
    ]

remove_line-Spared :
    (sys : System) (cfg : Config) (conffiles : Conffiles) (protected : Option Fileset) (fs : Files)
    (q : FilePath) (l : Bytes) (s : Removal)
    → IsSpared sys cfg conffiles protected fs q l
    → Spared protected fs q s
    → Spared protected fs q (remove_line sys cfg conffiles l s)
unfolding remove_line
remove_line-Spared sys cfg conffiles protected fs q l s h k =
    let path = line_path l in
    let full = full_path_of cfg path in
    let next = searched-AnswersAs protected s.protected path k.answers in
    elim (Bool-cases (is_empty path)) [
      | inl t ↦ rw t k
      | inr e ↦ elim (Bool-cases (archive_path_is_safe (some path))) [
        | inr unsafe ↦ rw (e, unsafe) k
        | inl safe ↦ elim (Bool-cases (is_protected s.protected path).0) [
          | inl t ↦ rw (e, safe, t) (record { answers = next; content = k.content })
          | inr free ↦ elim (Bool-cases (is_dir_mode (line_mode l))) [
            | inl dir ↦ rw (e, safe, free, dir) (record { answers = next; content = k.content })
            | inr file ↦
                rw (e, safe, free, file)
                  (record {
                    answers = next;
                    content = file_content sys cfg conffiles protected fs q l s h k free;
                  })
          ]
        ]
      ]
    ]

remove_lines-Spared :
    (sys : System) (cfg : Config) (conffiles : Conffiles) (protected : Option Fileset) (fs : Files)
    (q : FilePath) (ls : List Bytes) (s : Removal)
    → All (IsSpared sys cfg conffiles protected fs q) ls
    → Spared protected fs q s
    → Spared protected fs q (remove_lines sys cfg conffiles ls s)
unfolding remove_lines
remove_lines-Spared sys cfg conffiles protected fs q [] s h k = k
remove_lines-Spared sys cfg conffiles protected fs q (l ∷ ls) s h k =
    remove_lines-Spared sys cfg conffiles protected fs q ls (remove_line sys cfg conffiles l s) h.1
      (remove_line-Spared sys cfg conffiles protected fs q l s h.0 k)

-- The lines of a list that may be missing.
abbrev pub lines_of : Option Bytes → List Bytes
lines_of none = []
lines_of (some text) = read_lines list_buffer text

-- `aept_remove_files` changes no file that each line of the package's list spares: the line is about
-- another file, or its path is in the protected set, or the file is a configuration file whose content
-- is not what the record says and that is not to be purged.
pub remove_files-spares :
    (sys : System) (cfg : Config) (name : Bytes) (protected : Option Fileset) (fs : Files)
    (q : FilePath)
    → IsValidSet protected
    → All
        (IsSpared sys cfg (kept_conffiles cfg name fs) protected fs q)
        (lines_of (fs (list_path cfg name)))
    → (remove_files sys cfg name protected fs).0 q ≡ fs q
unfolding remove_files
remove_files-spares sys cfg name protected fs q v h =
    elim (Option-cases (fs (list_path cfg name))) [
      | inl gone ↦ rw (gone, remove_files) refl
      | inr (text, there) ↦
          let spared =
            subst
              (λ o. All (IsSpared sys cfg (kept_conffiles cfg name fs) protected fs q) (lines_of o))
              there h in
          let start : Removal = record { protected = protected; dirs = []; files = fs } in
          let k =
            remove_lines-Spared sys cfg (kept_conffiles cfg name fs) protected fs q
              (read_lines list_buffer text) start spared
              (record { answers = record { valid = v; same = λ path. refl }; content = refl }) in
          rw (there, remove_files) k.content
    ]
