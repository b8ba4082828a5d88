-- ===== src/Pin/Tests.antt =====
-- Tests of src/pin.c and instances of its theorems.
use aept.Base.{◌≡◌, refl, true, false, none, some, List, [], ◌∷◌, arith, if◌then◌else◌}
use aept.Text.Strings.{codes, str_eq}
use aept.Text.Lines.{read_lines}
use aept.Text.Scan.{is_space, scan_word, next_word, skip_space, take_word}
use aept.Files.{FilePath, Files, success, failure, Faults, no_faults, commit}
use aept.Pin.{
  pin_add, pin_remove, pin_lookup, pinned, copy_replacing, copy_dropping, pin_lines, is_named,
  PinEntry, pin_load_into_solver, find_pin_version,
}
use aept.Pin.Abstract.{entry}
use aept.Pin.Entries.{IsEntry}
use aept.Pin.Refines.{Holds, pin_lookup-pin_add, find_pin_version-load}

abbrev pins : FilePath
pins = codes "/pins"

abbrev files : Files
files q = if str_eq pins q then some (codes "foo 1.0\nbar 2\n") else none

abbrev two_pins : List PinEntry
two_pins = entry (codes "foo") (codes "1.0") ∷ entry (codes "bar") (codes "2") ∷ []

foo_entry : IsEntry (entry (codes "foo") (codes "1.0"))
unfolding is_space
foo_entry = record {
  name_word = (cc, refl, omega arith);
  version_word = (cc, refl, omega arith);
  name_text = refl;
  version_text = refl;
  fits = omega arith;
}

bar_entry : IsEntry (entry (codes "bar") (codes "2"))
unfolding is_space
bar_entry = record {
  name_word = (cc, refl, omega arith);
  version_word = (cc, refl, omega arith);
  name_text = refl;
  version_text = refl;
  fits = omega arith;
}

bar_entry_new : IsEntry (entry (codes "bar") (codes "3~rc1"))
unfolding is_space
bar_entry_new = record {
  name_word = (cc, refl, omega arith);
  version_word = (cc, refl, omega arith);
  name_text = refl;
  version_text = refl;
  fits = omega arith;
}

files-Holds : Holds pins two_pins files
unfolding str_eq
files-Holds = record { entries = (foo_entry, (bar_entry, tt)); bytes = refl }

-- The pin of `bar` is replaced where it stood.
pinned_bar : pinned (codes "bar") (codes "3") (files pins) ≡ codes "foo 1.0\nbar 3\n"
unfolding pinned copy_replacing pin_lines read_lines is_named scan_word next_word skip_space
    take_word is_space str_eq
pinned_bar = refl

pinned_new : pinned (codes "baz") (codes "3") (files pins) ≡ codes "foo 1.0\nbar 2\nbaz 3\n"
unfolding pinned copy_replacing pin_lines read_lines is_named scan_word next_word skip_space
    take_word is_space str_eq
pinned_new = refl

added : (pin_add pins (codes "bar") (codes "3~rc1") no_faults files).0 ≡ success
unfolding pin_add commit
added = refl

removed : (pin_remove pins (codes "bar") no_faults files).0 ≡ success
unfolding pin_remove commit copy_dropping read_lines is_named scan_word next_word skip_space
    take_word is_space str_eq
removed = refl

pin_lookup-pin_add_example :
    pin_lookup pins (codes "foo") (pin_add pins (codes "bar") (codes "3~rc1") no_faults files).1 ≡ (
      if str_eq (codes "bar") (codes "foo")
      then some (codes "3~rc1")
      else pin_lookup pins (codes "foo") files)
pin_lookup-pin_add_example =
    pin_lookup-pin_add pins two_pins files (codes "bar") (codes "3~rc1") (codes "foo") no_faults
      files-Holds bar_entry_new added

abbrev full_disk : Faults
full_disk = record { open_fails = false; write_fails = true; rename_fails = false }

not_removed : (pin_remove pins (codes "bar") full_disk files).0 ≡ failure
unfolding pin_remove commit copy_dropping read_lines is_named scan_word next_word skip_space
    take_word is_space str_eq
not_removed = refl

find_pin_version-load_example :
    find_pin_version (pin_load_into_solver pins files []) (codes "foo")
    ≡ pin_lookup pins (codes "foo") files
find_pin_version-load_example = find_pin_version-load pins files (codes "foo")
