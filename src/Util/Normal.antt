-- ===== src/Util/Normal.antt =====
-- The normal form of a path.
use aept.Base.{◌≡◌, refl, Bool, false, ◌&&◌, [], ◌∷◌, arith, ◌==◌}
use aept.Text.Strings.{Bytes}
use aept.Util.{strip_slashes, strip_dot_slashes, normalize_path}

abbrev pub starts_with_slash : Bytes → Bool
starts_with_slash [] = false
starts_with_slash (c ∷ cs) = c == b'/'

abbrev pub starts_with_dot_slash : Bytes → Bool
starts_with_dot_slash [] = false
starts_with_dot_slash (c ∷ []) = false
starts_with_dot_slash (c ∷ d ∷ cs) = c == b'.' && d == b'/'

strip_slashes_id : (p : Bytes) → starts_with_slash p ≡ false → strip_slashes p ≡ p
unfolding strip_slashes
strip_slashes_id [] h = refl
strip_slashes_id (c ∷ cs) h = ground arith

strip_dot_slashes_id : (p : Bytes) → starts_with_dot_slash p ≡ false → strip_dot_slashes p ≡ p
unfolding strip_dot_slashes
strip_dot_slashes_id [] h = refl
strip_dot_slashes_id (c ∷ []) h = refl
strip_dot_slashes_id (c ∷ d ∷ cs) h = ground arith

-- A path that begins neither with `/` nor with `./` is its own normal form.
pub normalize_path_id :
    (p : Bytes)
    → starts_with_slash p ≡ false
    → starts_with_dot_slash p ≡ false
    → normalize_path p ≡ p
unfolding normalize_path
normalize_path_id p h k = rw (strip_dot_slashes_id p k) (strip_slashes_id p h)
