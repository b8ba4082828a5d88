-- ===== src/Install/Leftovers.antt =====
-- Which files of the old version an upgrade in src/install.c keeps.
use aept.Base.{
  ◌≡◌, ◌≢◌, refl, ap, sym, ◌∙◌, ◌⊎◌, inl, inr, true, false, Option, some, List, [], ◌∷◌, arith,
  Bool-cases, All,
}
use aept.Text.Strings.{Bytes, str_eq, str_eq_iff, is_empty}
use aept.Files.{FilePath, Files}
use aept.Util
use aept.Util.{archive_path_is_safe}
use aept.Fileset.{Fileset, fileset_contains}
use aept.Config.{Config}
use aept.Conffile.{Conffiles}
use aept.Remove.{System, is_protected, is_modified, remove_file, full_path_of}
use aept.Remove.Kept.{
  IsValidSet, AnswersAs, searched-AnswersAs, searched_of, answer_of, remove_file_other,
  remove_file_modified, is_modified_same,
}
use aept.Install.Upgrade.{Leftover, remove_old, remove_all_old}

-- The old path is about another file than `q`, or the new version or the transaction has the path, or
-- its file is a configuration file that was modified.
abbrev pub IsKept :
    System → Config → Conffiles → Fileset → Option Fileset → Files → FilePath → Bytes → Type 0
IsKept sys cfg old_cf new_files installed fs q p =
    let path = Util.normalize_path p in
    (full_path_of cfg path ≢ q)
    ⊎ ((fileset_contains new_files p).0 ≡ true)
    ⊎ ((is_protected installed p).0 ≡ true)
    ⊎ (is_modified sys old_cf path (full_path_of cfg path) fs ≡ true)

pub record Stays (new_files : Fileset) (installed : Option Fileset) (fs : Files) (q : FilePath)
    (s : Leftover) : Type 0 where
  pub new_answers : AnswersAs (some new_files) (some s.new_files)
  pub installed_answers : AnswersAs installed s.installed
  pub content : s.files q ≡ fs q

module _ (sys : System) (cfg : Config) (old_cf : Conffiles) (new_files : Fileset)
    (installed : Option Fileset) (fs : Files) (q : FilePath) where
  searched_new :
      (s : Fileset) (p : Bytes)
      → AnswersAs (some new_files) (some s)
      → AnswersAs (some new_files) (some (fileset_contains s p).1)
  searched_new s p h = rw (← searched_of s p) (searched-AnswersAs (some new_files) (some s) p h)

  old_content :
      (p : Bytes) (s : Leftover)
      → IsKept sys cfg old_cf new_files installed fs q p
      → Stays new_files installed fs q s
      → (fileset_contains s.new_files p).0 ≡ false
      → (is_protected s.installed p).0 ≡ false
      → remove_file sys old_cf
          (Util.normalize_path p)
          (full_path_of cfg (Util.normalize_path p))
          s.files
          q
        ≡ fs q
  old_content p s (inl apart) k n i =
      remove_file_other sys old_cf (Util.normalize_path p)
        (full_path_of cfg (Util.normalize_path p)) q s.files apart
      ∙ k.content
  old_content p s (inr (inl t)) k n i = absurd (
      let e =
        sym t
        ∙ sym (answer_of new_files p)
        ∙ sym (k.new_answers.same p)
        ∙ answer_of s.new_files p
        ∙ n in
      cc)
  old_content p s (inr (inr (inl t))) k n i =
      absurd (let e = sym t ∙ sym (k.installed_answers.same p) ∙ i in cc)
  old_content p s (inr (inr (inr modified))) k n i =
      let path = Util.normalize_path p in
      let full = full_path_of cfg path in
      elim (Bool-cases (str_eq full q)) [
        | inr f ↦
            remove_file_other sys old_cf path full q s.files
              (λ e. ground (arith, (str_eq_iff full q).1 e))
            ∙ k.content
        | inl t ↦
            let here : full ≡ q = (str_eq_iff full q).0 t in
            let same : s.files full ≡ fs full = ap s.files here ∙ k.content ∙ ap fs (sym here) in
            ap (λ g. g q)
              (remove_file_modified sys old_cf path full s.files
                (is_modified_same sys old_cf path full s.files fs same ∙ modified))
            ∙ k.content
      ]

  remove_old-Stays :
      (p : Bytes) (s : Leftover)
      → IsKept sys cfg old_cf new_files installed fs q p
      → Stays new_files installed fs q s
      → Stays new_files installed fs q (remove_old sys cfg old_cf p s)
  unfolding remove_old
  remove_old-Stays p s h k =
      let path = Util.normalize_path p in
      let n = searched_new s.new_files p k.new_answers in
      let i = searched-AnswersAs installed s.installed p k.installed_answers in
      elim (Bool-cases (is_empty path)) [
        | inl t ↦ rw t k
        | inr e ↦ elim (Bool-cases (archive_path_is_safe (some path))) [
          | inr unsafe ↦ rw (e, unsafe) k
          | inl safe ↦ elim (Bool-cases (fileset_contains s.new_files p).0) [
            | inl t ↦
                rw (e, safe, t)
                  (record {
                    new_answers = n;
                    installed_answers = k.installed_answers;
                    content = k.content;
                  })
            | inr fresh ↦ elim (Bool-cases (is_protected s.installed p).0) [
              | inl t ↦
                  rw (e, safe, fresh, t)
                    (record { new_answers = n; installed_answers = i; content = k.content })
              | inr free ↦
                  rw (e, safe, fresh, free)
                    (record {
                      new_answers = n;
                      installed_answers = i;
                      content = old_content p s h k fresh free;
                    })
            ]
          ]
        ]
      ]

  remove_all_old-Stays :
      (ps : List Bytes) (s : Leftover)
      → All (IsKept sys cfg old_cf new_files installed fs q) ps
      → Stays new_files installed fs q s
      → Stays new_files installed fs q (remove_all_old sys cfg old_cf ps s)
  unfolding remove_all_old
  remove_all_old-Stays [] s h k = k
  remove_all_old-Stays (p ∷ ps) s h k =
      remove_all_old-Stays ps (remove_old sys cfg old_cf p s) h.1 (remove_old-Stays p s h.0 k)

-- The removal of the old files in an upgrade changes no file that each old path keeps: the path is
-- about another file, the new version has it, the transaction has installed it, or it is a
-- configuration file whose content is not what the record says. The sets tell the truth of being
-- sorted.
pub remove_all_old-keeps :
    (sys : System) (cfg : Config) (old_cf : Conffiles) (new_files : Fileset)
    (installed : Option Fileset) (fs : Files) (q : FilePath) (ps : List Bytes)
    → IsValidSet (some new_files)
    → IsValidSet installed
    → All (IsKept sys cfg old_cf new_files installed fs q) ps
    → (remove_all_old sys cfg old_cf ps
          (record { new_files = new_files; installed = installed; files = fs })).files
        q
      ≡ fs q
remove_all_old-keeps sys cfg old_cf new_files installed fs q ps v w h =
    let start : Leftover = record { new_files = new_files; installed = installed; files = fs } in
    (remove_all_old-Stays sys cfg old_cf new_files installed fs q ps start h (record {
      new_answers = record { valid = v; same = λ p. refl };
      installed_answers = record { valid = w; same = λ p. refl };
      content = refl;
    })).content
