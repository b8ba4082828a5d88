-- ===== src/Solver.antt =====
-- src/solver.c: the use that the program makes of libsolv. libsolv itself is a parameter.
pub mod Repos
pub mod Jobs
pub mod Newest
pub mod Pinned
mod Tests
use aept.Base.{ℕ, Bool, true, false, List, [], ◌∷◌, if◌then◌else◌}
use aept.Text.Strings.{Bytes}

-- The results of `transaction_type` that the program tells apart; `other` is of neither class.
pub data StepKind : Type 0 where
  erase reinstalled downgraded upgraded : StepKind
  install reinstall downgrade upgrade : StepKind
  other : StepKind

-- `(type & 0xf0) == SOLVER_TRANSACTION_ERASE` and `... == SOLVER_TRANSACTION_INSTALL`.
abbrev pub is_erase : StepKind → Bool
is_erase erase = true
is_erase reinstalled = true
is_erase downgraded = true
is_erase upgraded = true
is_erase _ = false

abbrev pub is_install : StepKind → Bool
is_install install = true
is_install reinstall = true
is_install downgrade = true
is_install upgrade = true
is_install _ = false

-- A step of a transaction: the solvable, its type, and the solvable's name.
pub record Step : Type 0 where
  pub id : ℕ
  pub kind : StepKind
  pub name : Bytes

-- The names of the steps of the class ERASE.
unfoldable pub erase_names : List Step → List Bytes
erase_names [] = []
erase_names (s ∷ ss) = let rest = erase_names ss in if is_erase s.kind then s.name ∷ rest else rest

-- The type is SOLVER_TRANSACTION_UPGRADED, ..._DOWNGRADED or ..._REINSTALLED.
abbrev pub is_old_version : StepKind → Bool
is_old_version upgraded = true
is_old_version downgraded = true
is_old_version reinstalled = true
is_old_version _ = false
