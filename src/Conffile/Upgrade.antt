-- ===== src/Conffile/Upgrade.antt =====
-- The second half of src/conffile.c: the prompt, and the upgrade of the configuration files.
use aept.Base.{ℕ, Bool, ◌||◌, Option, none, some, List, [], ◌∷◌, ◌++◌, ◌==◌, if◌then◌else◌}
use aept.Text.Strings.{Bytes, codes, str_eq}
use aept.Files.{FilePath, Files, Code, success, unlink, rename}
use aept.Config.{Config, root_path}
use aept.Conffile.{Conffile, Conffiles, Writing, conffile_save, set_add, set_lookup}

-- The results 1, 0 and -1 of `conffile_prompt`.
pub data Answer : Type 0 where
  install_new keep_old review : Answer

-- What a character that is typed at the prompt asks for.
pub data Key : Type 0 where
  decline accept show_diff start_shell other : Key

unfoldable pub key_of : ℕ → Key
key_of ch =
    if ch == b'\n' || (ch == b'n' || (ch == b'N' || (ch == b'o' || ch == b'O')))
    then decline
    else if ch == b'y' || (ch == b'Y' || (ch == b'i' || ch == b'I'))
    then accept
    else if ch == b'd' || ch == b'D'
    then show_diff
    else if ch == b'z' || ch == b'Z'
    then start_shell
    else other

-- What an upgrade finds outside: the digest of a file's content, in hexadecimal; a program that is run
-- with its arguments; the user's shell, `sh -> $SHELL`; whether the standard input is a terminal; the
-- paths that `rename` cannot replace; and the writing of the record.
pub record Outside : Type 0 where
  pub digest : Bytes → Bytes
  pub system : List Bytes → Files → Files
  pub shell : Option Bytes
  pub isatty : Bool
  pub rename_fails : FilePath → Bool
  pub writing : Writing

-- The loop of `conffile_prompt`, on the characters still to be typed; behind them is the end of the
-- input.
unfoldable pub ask : Outside → FilePath → FilePath → List ℕ → Files → Answer × List ℕ × Files
unfolding key_of
ask out disk new [] fs = (keep_old, [], fs)
ask out disk new (ch ∷ keys) fs = elim (key_of ch) [
  | decline ↦ (keep_old, keys, fs)
  | accept ↦ (install_new, keys, fs)
  | show_diff ↦ ask out disk new keys (out.system (codes "diff" ∷ codes "-u" ∷ disk ∷ new ∷ []) fs)
  | start_shell ↦
      ask out disk new keys
        (out.system (elim out.shell [ none ↦ codes "/bin/sh" | some sh ↦ sh ] ∷ []) fs)
  | other ↦ ask out disk new keys fs
]

unfoldable pub conffile_prompt :
    Outside → Config → FilePath → FilePath → List ℕ → Files → Answer × List ℕ × Files
unfolding ask
conffile_prompt out cfg disk new keys fs =
    if cfg.force_confnew
    then (install_new, keys, fs)
    else if cfg.force_confold
    then (keep_old, keys, fs)
    else if out.isatty
    then ask out disk new keys fs
    else (review, keys, fs)

unfoldable pub conffile_md5 : Outside → FilePath → Files → Option Bytes
conffile_md5 out path fs = elim (fs path) [ none ↦ none | some s ↦ some (out.digest s) ]

-- The comparison of the three digests; `none` where the user is asked.
unfoldable pub decide : Option Bytes → Option Bytes → Option Bytes → Option Answer
decide old none new = some install_new
decide old (some current) none = some keep_old
decide none (some current) (some new) = if str_eq current new then some keep_old else none
decide (some old) (some current) (some new) =
    if str_eq current new
    then some keep_old
    else if str_eq old current
    then some install_new
    else if str_eq old new
    then some keep_old
    else none

unfoldable pub answer_for :
    Outside
    → Config
    → FilePath
    → FilePath
    → Option Bytes
    → Option Bytes
    → Option Bytes
    → List ℕ
    → Files
    → Answer × List ℕ × Files
answer_for out cfg disk new old_md5 current_md5 new_md5 keys fs =
    elim (decide old_md5 current_md5 new_md5) [
      | some a ↦ (a, keys, fs)
      | none ↦ conffile_prompt out cfg disk new keys fs
    ]

-- `rename(new_path, disk_path)`: it fails where the new file is gone.
unfoldable pub take_new : Outside → FilePath → FilePath → Files → Files
take_new out disk new fs = elim (fs new) [
  | none ↦ fs
  | some v ↦ if out.rename_fails disk then fs else rename new disk v fs
]

-- What is done with the new version.
unfoldable pub carry_out : Outside → FilePath → FilePath → Option Bytes → Answer → Files → Files
carry_out out disk new none install_new fs = fs
carry_out out disk new (some md5) install_new fs = take_new out disk new fs
carry_out out disk new md5 keep_old fs = unlink new fs
carry_out out disk new md5 review fs = fs

abbrev pub new_of : FilePath → FilePath
new_of disk = disk ++ codes ".aept-new"

-- What the loop of `aept_conffile_resolve_upgrade` keeps: the set to be saved, the characters still to
-- be typed, and the files.
pub record Upgrade : Type 0 where
  pub result : Conffiles
  pub keys : List ℕ
  pub files : Files

-- The digest in the set of the installed version, where there is one.
abbrev pub recorded : Option Conffiles → Bytes → Option Bytes
recorded none path = none
recorded (some old) path = set_lookup old path

unfoldable pub resolve_one : Outside → Config → Option Conffiles → Conffile → Upgrade → Upgrade
resolve_one out cfg old_conffiles c s =
    let disk = root_path cfg c.path in
    let new = new_of disk in
    let old_md5 = recorded old_conffiles c.path in
    let new_md5 = conffile_md5 out new s.files in
    let (answer, keys, fs) =
      answer_for out cfg disk new old_md5 (conffile_md5 out disk s.files) new_md5 s.keys s.files in
    record {
      result = set_add s.result c.path new_md5;
      keys = keys;
      files = carry_out out disk new new_md5 answer fs;
    }

unfoldable pub resolve_all : Outside → Config → Option Conffiles → Conffiles → Upgrade → Upgrade
resolve_all out cfg old_conffiles [] s = s
resolve_all out cfg old_conffiles (c ∷ cs) s =
    resolve_all out cfg old_conffiles cs (resolve_one out cfg old_conffiles c s)

-- It returns 0 whatever becomes of the record.
unfoldable pub resolve_upgrade :
    Outside → Config → Bytes → Option Conffiles → Conffiles → List ℕ → Files → Code × Files
resolve_upgrade out cfg name old_conffiles new_conffiles keys fs =
    let s =
      resolve_all out cfg old_conffiles new_conffiles
        (record { result = []; keys = keys; files = fs }) in
    (success, (conffile_save cfg name s.result out.writing s.files).1)
