-- ===== src/Util.antt =====
-- src/util.c: the checks of names and paths, and the normal form of a path.
pub mod Safety
pub mod Normal
mod Tests
use aept.Base.{
  ℕ, zero, suc, Bool, true, false, not, ◌&&◌, ◌||◌, Option, none, some, List, [], ◌∷◌, leb, ◌==◌,
  if◌then◌else◌,
}
use aept.Text.Strings.{Bytes}

abbrev pub is_lower_or_digit : ℕ → Bool
is_lower_or_digit c = (leb b'a' c && leb c b'z') || (leb b'0' c && leb c b'9')

abbrev pub is_mark : ℕ → Bool
is_mark c = c == b'.' || (c == b'+' || c == b'-')

-- The loop of `aept_pkg_name_is_safe`; the flag is `p != name`.
unfoldable pub name_chars_safe : Bool → Bytes → Bool
name_chars_safe later [] = true
name_chars_safe later (c ∷ cs) =
    let rest = name_chars_safe true cs in
    if is_lower_or_digit c then rest else if later && is_mark c then rest else false

-- `none` is the null pointer.
unfoldable pub pkg_name_is_safe : Option Bytes → Bool
unfolding name_chars_safe
pkg_name_is_safe none = false
pkg_name_is_safe (some []) = false
pkg_name_is_safe (some (c ∷ cs)) = name_chars_safe false (c ∷ cs)

target_chars_recordable : Bytes → Bool
target_chars_recordable [] = true
target_chars_recordable (c ∷ cs) =
    let rest = target_chars_recordable cs in if c == b'\n' || c == b'\t' then false else rest

unfoldable pub symlink_target_is_recordable : Option Bytes → Bool
unfolding target_chars_recordable
symlink_target_is_recordable none = false
symlink_target_is_recordable (some target) = target_chars_recordable target

-- The loop of `aept_archive_path_is_safe`; the flag is `prev_dot`.
unfoldable pub path_chars_safe : Bool → Bytes → Bool
path_chars_safe prev_dot [] = true
path_chars_safe prev_dot (c ∷ cs) =
    let rest = path_chars_safe (c == b'.') cs in
    if c == b'\n' || c == b'\t' then false else if c == b'.' && prev_dot then false else rest

unfoldable pub archive_path_is_safe : Option Bytes → Bool
unfolding path_chars_safe
archive_path_is_safe none = false
archive_path_is_safe (some []) = false
archive_path_is_safe (some (c ∷ cs)) = path_chars_safe false (c ∷ cs)

-- The loops `while (path[0] == '/') path++` and `while (path[0] == '.' && path[1] == '/') path += 2`.
unfoldable pub strip_slashes : Bytes → Bytes
strip_slashes [] = []
strip_slashes (c ∷ cs) = elim (c == b'/') [ true ↦ strip_slashes cs | false ↦ c ∷ cs ]

unfoldable pub strip_dot_slashes : Bytes → Bytes
strip_dot_slashes [] = []
strip_dot_slashes (c ∷ []) = c ∷ []
strip_dot_slashes (c ∷ d ∷ cs) = elim (c == b'.' && d == b'/') [
  | true ↦ strip_dot_slashes cs
  | false ↦ c ∷ d ∷ cs
]

unfoldable pub normalize_path : Bytes → Bytes
normalize_path path = strip_slashes (strip_dot_slashes path)
