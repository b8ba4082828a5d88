-- ===== src/Status/Tests.antt =====
-- Tests of the database of installed packages, and instances of its theorems.
use aept.Base.{◌≡◌, refl, inr, false, true, none, some, List, [], ◌∷◌, ◌++◌, map, if◌then◌else◌}
use aept.Text.Strings.{Bytes, codes, str_eq, before, behind, strip_prefix}
use aept.Text.Lines.Join.{join_lines}
use aept.Files.{FilePath, Files, success, failure, Faults, no_faults, commit}
use aept.Status.{is_status, feed_line, feed_loop, stanza_of, trim_end, control_text, status_add}
use aept.Status.Feed.{fed, missing_status, stanza_of-join}
use aept.Status.Added.{installed_stanza, status_add-stanza_of, status_add_failure}

abbrev control : Bytes
control = codes "Package: app\nVersion: 1\n\n"

abbrev source : FilePath
source = codes "/tmp/x/control"

abbrev dest : FilePath
dest = codes "/info/app.control"

abbrev fs : Files
fs q = if str_eq q source then some control else none

unpacked :
    control_text control (codes "unpacked")
    ≡ codes "Package: app\nVersion: 1\nStatus: install ok unpacked\n"
unfolding control_text trim_end before
unpacked = refl

loaded :
    stanza_of (codes "Package: app\nStatus: install ok unpacked\n")
    ≡ codes "Package: app\nStatus: install ok installed\n\n"
unfolding stanza_of feed_loop feed_line is_status before behind strip_prefix str_eq
loaded = refl

-- A file that ends in an empty line and has no status gets one in a stanza of its own.
stray :
    stanza_of (codes "Package: app\n\n") ≡ codes "Package: app\n\nStatus: install ok installed\n\n"
unfolding stanza_of feed_loop feed_line is_status before behind strip_prefix str_eq
stray = refl

added : (status_add source dest (codes "unpacked") no_faults fs).0 ≡ success
unfolding status_add commit str_eq
added = refl

status_add-stanza_of_example :
    (s : Bytes) × ((status_add source dest (codes "unpacked") no_faults fs).1 dest ≡ some s)
    × (stanza_of s ≡ installed_stanza control)
unfolding str_eq
status_add-stanza_of_example =
    status_add-stanza_of source dest (codes "unpacked") no_faults fs control refl (inr refl) added

abbrev full_disk : Faults
full_disk = record { open_fails = false; write_fails = true; rename_fails = false }

not_added : (status_add source dest (codes "installed") full_disk fs).0 ≡ failure
unfolding status_add commit str_eq
not_added = refl

status_add_failure_example :
    (status_add source dest (codes "installed") full_disk fs).1 dest ≡ fs dest
status_add_failure_example =
    status_add_failure source dest (codes "installed") full_disk fs not_added

abbrev lines : List Bytes
lines = codes "Package: app" ∷ codes "Status: install ok unpacked" ∷ []

stanza_of-join_example :
    stanza_of (join_lines lines) ≡ join_lines (map fed lines ++ (missing_status lines ++ [] ∷ []))
stanza_of-join_example = stanza_of-join lines ((refl, refl), ((refl, refl), tt))
