-- ===== src/Conffile/Kept.antt =====
-- An upgrade that nobody agrees to, over all the configuration files of a package.
use mathlib.Core.Path.{subst}
use aept.Base.{
  ℕ, ◌≡◌, ◌≢◌, refl, ap, sym, ◌∙◌, ◌⊎◌, inl, inr, Option, some, List, [], ◌∷◌, arith, Bool-cases,
  All, take,
}
use aept.Text.Strings.{Bytes, str_eq, str_eq_iff}
use aept.Files.{FilePath, Files, write_other}
use aept.Config.{Config, root_path}
use aept.Conffile.{
  Conffile, Conffiles, saved_path, saved_text, Writing, not_opened, cut_off, complete,
  conffile_save,
}
use aept.Conffile.Upgrade.{
  install_new, Outside, conffile_md5, answer_for, new_of, Upgrade, recorded, resolve_one,
  resolve_all, resolve_upgrade,
}
use aept.Conffile.Modified.{
  NoConsent, LeavesAlone, answer_for-Settled, answer_for_modified, carry_out_other,
}

-- The entry is about another file than `q`, or the content `v` of that file is not what the record of
-- the installed version says; and `q` is not the new version beside the file.
abbrev pub IsModified : Outside → Config → Option Conffiles → FilePath → Bytes → Conffile → Type 0
IsModified out cfg old q v c =
    (new_of (root_path cfg c.path) ≢ q)
    × ((root_path cfg c.path ≢ q) ⊎ (recorded old c.path ≢ some (out.digest v)))

record Keeps (out : Outside) (cfg : Config) (q : FilePath) (v : Bytes) (s : Upgrade) : Type 0 where
  consent : NoConsent out cfg s.keys
  content : s.files q ≡ some v

conffile_md5_present :
    (out : Outside) (q : FilePath) (v : Bytes) (fs : Files)
    → fs q ≡ some v
    → conffile_md5 out q fs ≡ some (out.digest v)
unfolding conffile_md5
conffile_md5_present out q v fs h = rw (h, conffile_md5) refl

answer_here :
    (out : Outside) (cfg : Config) (old : Option Conffiles) (q : FilePath) (v : Bytes)
    (c : Conffile) (s : Upgrade) (newm : Option Bytes)
    → LeavesAlone out q
    → (root_path cfg c.path ≢ q) ⊎ (recorded old c.path ≢ some (out.digest v))
    → Keeps out cfg q v s
    → root_path cfg c.path ≡ q
    → (answer_for out cfg
        (root_path cfg c.path)
        (new_of (root_path cfg c.path))
        (recorded old c.path)
        (conffile_md5 out (root_path cfg c.path) s.files)
        newm
        s.keys
        s.files).0
      ≢ install_new
answer_here out cfg old q v c s newm alone (inl other) k e = absurd (other e)
answer_here out cfg old q v c s newm alone (inr differs) k e =
    let disk = root_path cfg c.path in
    rw (conffile_md5_present out disk v s.files (ap s.files e ∙ k.content)) (
      answer_for_modified out cfg disk (new_of disk) (recorded old c.path) newm (out.digest v)
        s.keys s.files (subst (LeavesAlone out) (sym e) alone) k.consent differs)

resolve_one-Keeps :
    (out : Outside) (cfg : Config) (old : Option Conffiles) (q : FilePath) (v : Bytes)
    (c : Conffile) (s : Upgrade)
    → LeavesAlone out q
    → IsModified out cfg old q v c
    → Keeps out cfg q v s
    → Keeps out cfg q v (resolve_one out cfg old c s)
unfolding resolve_one
resolve_one-Keeps out cfg old q v c s alone (apart, which) k =
    let disk = root_path cfg c.path in
    let new = new_of disk in
    let newm = conffile_md5 out new s.files in
    let current = conffile_md5 out disk s.files in
    let r = answer_for out cfg disk new (recorded old c.path) current newm s.keys s.files in
    let settled =
      answer_for-Settled out cfg disk new q (recorded old c.path) current newm s.keys s.files alone
        k.consent in
    let untouched : (disk ≢ q) ⊎ (r.0 ≢ install_new) = elim (Bool-cases (str_eq disk q)) [
      | inr f ↦ inl (λ e. ground (arith, (str_eq_iff disk q).1 e))
      | inl t ↦ inr (answer_here out cfg old q v c s newm alone which k ((str_eq_iff disk q).0 t))
    ] in
    record {
      consent = settled.consent;
      content =
          carry_out_other out disk new q newm r.0 r.2 apart untouched ∙ settled.kept ∙ k.content;
    }

resolve_all-Keeps :
    (out : Outside) (cfg : Config) (old : Option Conffiles) (q : FilePath) (v : Bytes)
    (cs : Conffiles) (s : Upgrade)
    → LeavesAlone out q
    → All (IsModified out cfg old q v) cs
    → Keeps out cfg q v s
    → Keeps out cfg q v (resolve_all out cfg old cs s)
unfolding resolve_all
resolve_all-Keeps out cfg old q v [] s alone h k = k
resolve_all-Keeps out cfg old q v (c ∷ cs) s alone h k =
    resolve_all-Keeps out cfg old q v cs (resolve_one out cfg old c s) alone h.1
      (resolve_one-Keeps out cfg old q v c s alone h.0 k)

conffile_save_other :
    (cfg : Config) (name : Bytes) (cs : Conffiles) (writing : Writing) (fs : Files) (q : FilePath)
    → saved_path cfg name ≢ q
    → (conffile_save cfg name cs writing fs).1 q ≡ fs q
unfolding conffile_save
conffile_save_other cfg name cs not_opened fs q h = refl
conffile_save_other cfg name cs (cut_off n) fs q h =
    write_other (saved_path cfg name) q (take n (saved_text cs)) fs h
conffile_save_other cfg name cs complete fs q h =
    write_other (saved_path cfg name) q (saved_text cs) fs h

-- `aept_conffile_resolve_upgrade` does not change a file whose content differs from what is recorded for
-- the installed version, if nobody agrees to the new version: the new version is not forced, and the old
-- one is, or nobody is asked, or no answer is yes; the programs that the prompt starts leave the file
-- alone; and no entry's new version, and not the record, is that same file.
pub resolve_upgrade-keeps :
    (out : Outside) (cfg : Config) (name : Bytes) (old : Option Conffiles) (new : Conffiles)
    (keys : List ℕ) (fs : Files) (q : FilePath) (v : Bytes)
    → LeavesAlone out q
    → NoConsent out cfg keys
    → saved_path cfg name ≢ q
    → fs q ≡ some v
    → All (IsModified out cfg old q v) new
    → (resolve_upgrade out cfg name old new keys fs).1 q ≡ some v
unfolding resolve_upgrade
resolve_upgrade-keeps out cfg name old new keys fs q v alone consent apart there modified =
    let s : Upgrade = record { result = []; keys = keys; files = fs } in
    let k =
      resolve_all-Keeps out cfg old q v new s alone modified
        (record { consent = consent; content = there }) in
    let end = resolve_all out cfg old new s in
    conffile_save_other cfg name end.result out.writing end.files q apart ∙ k.content
