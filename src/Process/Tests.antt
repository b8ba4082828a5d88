-- ===== src/Process/Tests.antt =====
-- Tests of the processes of src/util.c.
use aept.Base.{◌≡◌, refl, ◌∷◌, []}
use aept.Text.Strings.{codes}
use aept.Process.{hierarchy}

hierarchy_of : hierarchy (codes "/") (codes "var/lib") ≡ codes "/var" ∷ codes "/var/lib" ∷ []
unfolding hierarchy
hierarchy_of = refl
