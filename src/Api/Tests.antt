-- ===== src/Api/Tests.antt =====
-- Tests of src/api.c, and instances of its theorems.
use aept.Base.{◌≡◌, refl, ◌&&◌, none, some, List, [], ◌∷◌, ◌++◌, if◌then◌else◌, any, arith}
use aept.Text.Strings.{Bytes, codes, str_eq}
use aept.Files.{FilePath, Files, no_faults, success, commit, unlink, rename, write}
use aept.Config.{config_defaults}
use aept.Pin.{PinEntry, pin_remove, copy_dropping, is_named, pin_lookup}
use aept.Pin.Entries.{IsEntry}
use aept.Pin.Refines.{Holds}
use aept.Text.Lines.{read_lines}
use aept.Text.Scan.{scan_word, next_word, skip_space, take_word, is_space}
use aept.Util.{pkg_name_is_safe}
use aept.Api.{unpin, files, owns, owns_path}
use aept.Api.Unpinned.{pin_lookup-unpin}
use aept.Api.Owning.{owns-files}

abbrev pins : FilePath
pins = codes "/var/lib/aept/pinned-packages"

abbrev fs : Files
fs q =
    if str_eq q pins
    then some (codes "foo 1\nbar 2\n")
    else if str_eq q (codes "/var/lib/aept/info/app.list")
    then some (codes "./bin/app\t0100755\n")
    else none

abbrev entries : List PinEntry
entries =
    record { name = codes "foo"; version = codes "1" }
    ∷ record { name = codes "bar"; version = codes "2" }
    ∷ []

foo_entry : IsEntry (record { name = codes "foo"; version = codes "1" })
unfolding is_space
foo_entry = record {
  name_word = (cc, refl, omega arith);
  version_word = (cc, refl, omega arith);
  name_text = refl;
  version_text = refl;
  fits = omega arith;
}

bar_entry : IsEntry (record { name = codes "bar"; version = codes "2" })
unfolding is_space
bar_entry = record {
  name_word = (cc, refl, omega arith);
  version_word = (cc, refl, omega arith);
  name_text = refl;
  version_text = refl;
  fits = omega arith;
}

fs-Holds : Holds pins entries fs
unfolding str_eq
fs-Holds = record { entries = (foo_entry, (bar_entry, tt)); bytes = refl }

abbrev both : List Bytes
both = codes "foo" ∷ codes "bar" ∷ []

unpinned : (unpin pins (λ n. no_faults) both fs).0 ≡ success
unfolding unpin pin_remove commit copy_dropping read_lines is_named scan_word next_word skip_space
    take_word is_space str_eq write unlink rename
unpinned = refl

pin_lookup-unpin_example :
    pin_lookup pins (codes "bar") (unpin pins (λ n. no_faults) both fs).1
    ≡ (if any (λ n. str_eq n (codes "bar")) both then none else pin_lookup pins (codes "bar") fs)
pin_lookup-unpin_example =
    pin_lookup-unpin pins (λ n. no_faults) both (codes "bar") entries fs fs-Holds unpinned

owns-files_example :
    any
      (λ m. str_eq m (codes "app"))
      (owns config_defaults (some (codes "app.list" ∷ [])) (codes "/bin/app/") fs).1
    ≡ (any (λ d. str_eq d (codes "app" ++ codes ".list")) (codes "app.list" ∷ [])
        && any
            (λ p. str_eq (owns_path p) (owns_path (codes "/bin/app/")))
            (files config_defaults (codes "app") fs).1)
unfolding pkg_name_is_safe
owns-files_example =
    owns-files config_defaults (codes "app.list" ∷ []) (codes "/bin/app/") (codes "app") fs refl
      refl
