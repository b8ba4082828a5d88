-- ===== src/Util/Tests.antt =====
-- Tests of the checks of src/util.c, and instances of their theorems.
use aept.Base.{◌≡◌, ◌↔◌, refl, true, false, some}
use aept.Text.Strings.{codes, has}
use aept.Util.{
  pkg_name_is_safe, archive_path_is_safe, symlink_target_is_recordable, normalize_path,
  strip_slashes, strip_dot_slashes,
}
use aept.Util.Safety.{symlink_target_is_recordable_iff}

names :
    (pkg_name_is_safe (some (codes "libstdc++6")) ≡ true)
    × (pkg_name_is_safe (some (codes "a")) ≡ true)
    × (pkg_name_is_safe (some (codes "-rf")) ≡ false)
    × (pkg_name_is_safe (some (codes "a/b")) ≡ false)
unfolding pkg_name_is_safe
names = (refl, refl, refl, refl)

paths :
    (archive_path_is_safe (some (codes "./usr/bin/x.y")) ≡ true)
    × (archive_path_is_safe (some (codes "usr/../etc")) ≡ false)
    × (archive_path_is_safe (some (codes "a\tb")) ≡ false)
unfolding archive_path_is_safe
paths = (refl, refl, refl)

normal_forms :
    (normalize_path (codes "././/usr/bin") ≡ codes "usr/bin")
    × (normalize_path (codes "/./usr") ≡ codes "./usr")
unfolding normalize_path strip_slashes strip_dot_slashes
normal_forms = (refl, refl)

symlink_target_is_recordable_iff_example :
    (symlink_target_is_recordable (some (codes "a\tb")) ≡ true)
    ↔ ((has b'\n' (codes "a\tb") ≡ false) × (has b'\t' (codes "a\tb") ≡ false))
symlink_target_is_recordable_iff_example = symlink_target_is_recordable_iff (codes "a\tb")
