-- ===== src/Auto/Tests.antt =====
-- Tests of the automatically installed packages in src/status.c, and instances of the theorems.
use aept.Base.{◌≡◌, refl, true, false, ◌||◌, none, some, List, [], ◌∷◌, arith, if◌then◌else◌}
use aept.Text.Strings.{Bytes, codes, str_eq}
use aept.Text.Lines.{read_lines}
use aept.Text.Scan.{is_space, scan_word, next_word, skip_space, take_word}
use aept.Files.{FilePath, Files, success, no_faults, commit}
use aept.Auto.{is_auto, mark_auto, unmark_auto, auto_lines, find_name, copy_unmarked}
use aept.Auto.Names.{IsName}
use aept.Auto.Laws.{Lists, is_auto-mark_auto}

abbrev auto : FilePath
auto = codes "/auto"

abbrev files : Files
files q = if str_eq auto q then some (codes "libc\nzlib1g\n") else none

abbrev two_names : List Bytes
two_names = codes "libc" ∷ codes "zlib1g" ∷ []

libc-IsName : IsName (codes "libc")
unfolding is_space
libc-IsName = record { word = (cc, refl, omega arith); text = refl; fits = omega arith }

zlib-IsName : IsName (codes "zlib1g")
unfolding is_space
zlib-IsName = record { word = (cc, refl, omega arith); text = refl; fits = omega arith }

curl-IsName : IsName (codes "curl")
unfolding is_space
curl-IsName = record { word = (cc, refl, omega arith); text = refl; fits = omega arith }

files-Lists : Lists auto two_names files
unfolding str_eq
files-Lists = record { names = (libc-IsName, (zlib-IsName, tt)); bytes = refl }

is_auto_run :
    (is_auto auto (codes "zlib1g") files ≡ true) × (is_auto auto (codes "zlib") files ≡ false)
unfolding is_auto auto_lines find_name read_lines scan_word next_word skip_space take_word is_space
    str_eq
is_auto_run = (refl, refl)

marked : (mark_auto auto (codes "curl") no_faults 0 files).0 ≡ success
unfolding mark_auto is_auto auto_lines find_name read_lines scan_word next_word skip_space take_word
    is_space str_eq
marked = refl

unmarked : (unmark_auto auto (codes "libc") no_faults files).0 ≡ success
unfolding unmark_auto copy_unmarked commit read_lines scan_word next_word skip_space take_word
    is_space str_eq
unmarked = refl

is_auto-mark_auto_example :
    is_auto auto (codes "libc") (mark_auto auto (codes "curl") no_faults 0 files).1
    ≡ (str_eq (codes "curl") (codes "libc") || is_auto auto (codes "libc") files)
is_auto-mark_auto_example =
    is_auto-mark_auto auto two_names files (codes "curl") (codes "libc") no_faults 0 files-Lists
      curl-IsName marked
