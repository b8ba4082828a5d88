-- ===== src/Install/Request.antt =====
-- The packages that are asked for become manually installed ones (src/install.c).
use aept.Base.{ℕ, List, [], ◌∷◌, ◌++◌, if◌then◌else◌}
use aept.Text.Strings.{Bytes}
use aept.Files.{Files}
use aept.Config.{Config}
use aept.Auto.{unmark_auto}
use aept.Install.Operation.{Operation}

-- The names that are unmarked for a name that is asked for: its own, and those of the installed
-- packages that provide it.
unfoldable pub unmark_each : Operation → Config → List Bytes → Files → Files
unmark_each op cfg [] fs = fs
unmark_each op cfg (n ∷ ns) fs =
    unmark_each op cfg ns (unmark_auto cfg.auto_file n (op.removal.unmark_faults n) fs).1

unfoldable pub provided_names : Operation → List ℕ → List Bytes
provided_names op [] = []
provided_names op (p ∷ ps) =
    let rest = provided_names op ps in
    if op.pool.is_installed p then (op.pool.solvable p).name ∷ rest else rest

unfoldable pub requested_names : Operation → List Bytes → List Bytes
requested_names op [] = []
requested_names op (n ∷ ns) = n ∷ (provided_names op (op.pool.providers n) ++ requested_names op ns)

unfoldable pub local_names : Operation → List ℕ → List Bytes
local_names op [] = []
local_names op (p ∷ ps) = (op.pool.solvable p).name ∷ local_names op ps

unfoldable pub unmark_requested : Operation → Config → Files → Files
unmark_requested op cfg fs =
    if cfg.noaction
    then fs
    else unmark_each op cfg (requested_names op op.names ++ local_names op op.local_ids) fs
