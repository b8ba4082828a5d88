-- ===== src/Process.antt =====
-- src/util.c: programs that are run and waited for, and the copying of a file. What the kernel answers
-- is a parameter.
mod Tests
use aept.Base.{
  ℕ, zero, suc, Bool, true, false, not, ◌&&◌, Option, none, some, List, [], ◌∷◌, ◌++◌, ◌==◌,
  if◌then◌else◌, ◌≡◌, refl, ◌⊎◌, inl, inr,
}
use aept.Text.Strings.{Bytes}
use aept.Files.{FilePath, Files, Code, success, failure, write, unlink}

-- The status that `waitpid` gives, or why it gives none.
pub data Waited : Type 0 where
  exited : ℕ → Waited
  signaled : Waited
  stopped : Waited
  interrupted : Waited
  wait_failed : Waited

-- The result `int`: an exit status, or -1.
pub data Exit : Type 0 where
  status : ℕ → Exit
  minus_one : Exit

-- `r != 0` and `r < 0`.
abbrev pub is_nonzero : Exit → Bool
is_nonzero (status zero) = false
is_nonzero (status (suc n)) = true
is_nonzero minus_one = true

abbrev pub is_negative : Exit → Bool
is_negative (status n) = false
is_negative minus_one = true

-- The loop of `aept_system` over the answers of `waitpid`; behind the list nothing comes.
unfoldable pub wait_loop : List Waited → Exit
wait_loop [] = minus_one
wait_loop (w ∷ ws) = elim w [
  | interrupted ↦ wait_loop ws
  | exited n ↦ status n
  | signaled ↦ minus_one
  | stopped ↦ minus_one
  | wait_failed ↦ minus_one
]

-- `none` where `fork` fails.
unfoldable pub system : Option (List Waited) → Exit
system none = minus_one
system (some ws) = wait_loop ws

-- `aept_system_offline_root` waits once.
unfoldable pub system_offline_root : Option Waited → Exit
system_offline_root none = minus_one
system_offline_root (some w) = elim w [
  | exited n ↦ status n
  | signaled ↦ minus_one
  | stopped ↦ minus_one
  | interrupted ↦ minus_one
  | wait_failed ↦ minus_one
]

-- What the child finds: whether it is the superuser, which calls fail, and the status with which the
-- program exits, if it can be run.
pub record Child : Type 0 where
  pub is_root : Bool
  pub unshare_fails : Bool
  pub chroot_fails : Bool
  pub chdir_fails : Bool
  pub program : Option ℕ

abbrev pub exec_failed : ℕ
exec_failed = 255

abbrev pub setup_failed : ℕ
setup_failed = 254

-- The exit status of the child, below an offline root or not.
unfoldable pub child_status : Bool → Child → ℕ
child_status offline c =
    let run : ℕ = elim c.program [ none ↦ exec_failed | some n ↦ n ] in
    if not offline
    then run
    else if not c.is_root && c.unshare_fails
    then setup_failed
    else if c.chroot_fails
    then setup_failed
    else if c.chdir_fails
    then setup_failed
    else run

-- A program that is run in the offline root: what `fork` and `waitpid` answer, and what it does to the
-- files.
pub record Host : Type 0 where
  pub launch : List Bytes → Files → Option Waited × Files

abbrev pub run_offline : Host → List Bytes → Files → Exit × Files
run_offline host argv fs = let (w, fs') = host.launch argv fs in (system_offline_root w, fs')

-- `aept_file_exists`, for regular files.
abbrev pub file_exists : FilePath → Files → Bool
file_exists path fs = elim (fs path) [ none ↦ false | some s ↦ true ]

-- Which calls fail while a file is copied: the target is not opened, or the writes or `fclose` fail.
pub record Copying : Type 0 where
  pub open_fails : Bool
  pub write_fails : Bool

unfoldable pub file_copy : Copying → FilePath → FilePath → Files → Code × Files
file_copy c src dst fs = elim (fs src) [
  | none ↦ (failure, fs)
  | some content ↦
      if c.open_fails
      then (failure, fs)
      else if c.write_fails
      then (failure, unlink dst fs)
      else (success, write dst content fs)
]

-- `rename(src, dst) < 0 && aept_file_copy(src, dst) < 0`, where the source is there.
pub record Moving : Type 0 where
  pub rename_fails : Bool
  pub copying : Copying

-- The directories that `aept_file_mkdir_hier` makes: the path up to each slash but a first one, and the
-- path; `passed` is what stands in front, backwards no more.
unfoldable pub hierarchy : Bytes → Bytes → List Bytes
hierarchy passed [] = passed ∷ []
hierarchy passed (c ∷ cs) =
    let rest = hierarchy (passed ++ c ∷ []) cs in if c == b'/' then passed ∷ rest else rest

-- The loop over the calls of `mkdir`, which answers false where it fails and the path is not there.
unfoldable pub mkdir_each : (Bytes → Bool) → List Bytes → Code
mkdir_each mkdir [] = success
mkdir_each mkdir (d ∷ ds) = if mkdir d then mkdir_each mkdir ds else failure

unfoldable pub file_mkdir_hier : (Bytes → Bool) → Bytes → Code
file_mkdir_hier mkdir [] = mkdir_each mkdir ([] ∷ [])
file_mkdir_hier mkdir (c ∷ cs) = mkdir_each mkdir (hierarchy (c ∷ []) cs)
