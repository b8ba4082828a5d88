-- ===== src/Conffile/Tests.antt =====
-- Tests of src/conffile.c, and instances of its theorems.
use aept.Base.{◌≡◌, refl, inl, inr, false, none, some, [], ◌∷◌, if◌then◌else◌, arith}
use aept.Text.Strings.{codes, str_eq}
use aept.Files.{FilePath, Files, write, unlink, rename}
use aept.Config.{config_defaults, root_path}
use aept.Conffile.{
  Conffile, Conffiles, set_add, set_lookup, conffile_load, saved_text, complete, conffile_save,
}
use aept.Conffile.Upgrade.{
  Outside, conffile_prompt, conffile_md5, decide, answer_for, take_new, carry_out, new_of, Upgrade,
  resolve_one, resolve_all, resolve_upgrade,
}
use aept.Conffile.Saved.{digested, load-save}
use aept.Conffile.Kept.{resolve_upgrade-keeps}

-- The digest of a content is that content; programs do nothing; nobody is asked.
abbrev out : Outside
out = record {
  digest = λ s. s;
  system = λ argv fs. fs;
  shell = none;
  isatty = false;
  rename_fails = λ p. false;
  writing = complete;
}

abbrev motd : FilePath
motd = codes "/etc/motd"

abbrev issue : FilePath
issue = codes "/etc/issue"

-- `/etc/motd` was changed, `/etc/issue` was not.
abbrev fs : Files
fs q =
    if str_eq q motd
    then some (codes "mine")
    else if str_eq q issue
    then some (codes "v1")
    else if str_eq q (new_of motd)
    then some (codes "v2")
    else if str_eq q (new_of issue)
    then some (codes "v2")
    else if str_eq q (codes "/c/conffiles")
    then some (codes "/etc/motd\n../x\n\n")
    else none

abbrev installed : Conffiles
installed =
    record { path = motd; md5 = some (codes "v1") }
    ∷ record { path = issue; md5 = some (codes "v1") }
    ∷ []

abbrev upgraded : Conffiles
upgraded = record { path = motd; md5 = none } ∷ record { path = issue; md5 = none } ∷ []

both :
    ((resolve_upgrade out config_defaults (codes "base") (some installed) upgraded [] fs).1 motd
      ≡ some (codes "mine"))
    × ((resolve_upgrade out config_defaults (codes "base") (some installed) upgraded [] fs).1 issue
        ≡ some (codes "v2"))
unfolding resolve_upgrade resolve_all resolve_one answer_for conffile_prompt conffile_md5 decide
    take_new carry_out root_path set_lookup str_eq conffile_save saved_text rename unlink write
    set_add
both = (refl, refl)

load-save_example :
    conffile_load config_defaults
      (codes "base")
      (conffile_save config_defaults (codes "base") installed complete fs).1
      []
    ≡ digested installed
unfolding conffile_save
load-save_example =
    load-save config_defaults (codes "base") installed complete fs
      (
        record {
          md5_line = refl;
          md5_text = refl;
          md5_word = refl;
          path_line = refl;
          path_text = refl;
          path_inked = refl;
          fits = omega arith;
        },
        (
          record {
            md5_line = refl;
            md5_text = refl;
            md5_word = refl;
            path_line = refl;
            path_text = refl;
            path_inked = refl;
            fits = omega arith;
          },
          tt,
        ),
      )
      refl

resolve_upgrade-keeps_example :
    (resolve_upgrade out config_defaults (codes "base") (some installed) upgraded [] fs).1 motd
    ≡ some (codes "mine")
unfolding root_path set_lookup str_eq
resolve_upgrade-keeps_example =
    resolve_upgrade-keeps out config_defaults (codes "base") (some installed) upgraded [] fs motd
      (codes "mine") (λ argv s. refl) (refl, inr (inl refl)) (λ e. cc) refl
      ((λ e. cc, inr (λ e. cc)), ((λ e. cc, inl (λ e. cc)), tt))

abbrev start : Upgrade
start = record { result = []; keys = []; files = fs }

abbrev issue_entry : Conffile
issue_entry = record { path = issue; md5 = none }
