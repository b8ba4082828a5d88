-- ===== src/Files.antt =====
-- The file system as far as the state files need it: the contents of regular files by path, and the
-- places where a call can fail. A file that cannot be opened for reading is one that is not there.
use aept.Base.{
  ◌⊎◌, inl, inr, ◌≡◌, ◌∙◌, ◌≢◌, refl, Bool, false, Option, none, some, [], ◌∷◌, ◌++◌, if◌then◌else◌,
  arith,
}
use aept.Text.Strings.{Bytes, codes, str_eq, str_eq_refl, str_eq_ne}

abbrev pub FilePath : Type 0
FilePath = Bytes

abbrev pub Files : Type 0
Files = FilePath → Option Bytes

-- `int` results: 0 and -1.
pub data Code : Type 0 where
  success failure : Code

pub Code-cases : (c : Code) → (c ≡ success) ⊎ (c ≡ failure)
Code-cases success = inl refl
Code-cases failure = inr refl

-- Which calls fail in one run of an operation: `fopen` for writing, the writes up to `fclose`, and
-- `rename`.
pub record Faults : Type 0 where
  pub open_fails : Bool
  pub write_fails : Bool
  pub rename_fails : Bool

abbrev pub no_faults : Faults
no_faults = record { open_fails = false; write_fails = false; rename_fails = false }

unfoldable pub write : FilePath → Bytes → Files → Files
write p v fs q = if str_eq p q then some v else fs q

unfoldable pub unlink : FilePath → Files → Files
unlink p fs q = if str_eq p q then none else fs q

-- `rename(from, to)` of a file whose content is `v`.
unfoldable pub rename : FilePath → FilePath → Bytes → Files → Files
rename from to v fs = unlink from (write to v fs)

abbrev pub tmp_of : FilePath → FilePath
tmp_of p = p ++ codes ".tmp"

pub tmp_of_ne : (p : FilePath) → tmp_of p ≢ p
tmp_of_ne [] h = cc
tmp_of_ne (c ∷ cs) h = tmp_of_ne cs (cc)

pub write_self : (p : FilePath) (v : Bytes) (fs : Files) → write p v fs p ≡ some v
unfolding write
write_self p v fs = rw (str_eq_refl p)

pub write_other : (p q : FilePath) (v : Bytes) (fs : Files) → p ≢ q → write p v fs q ≡ fs q
unfolding write
write_other p q v fs h = rw (str_eq_ne p q h)

pub unlink_self : (p : FilePath) (fs : Files) → unlink p fs p ≡ none
unfolding unlink
unlink_self p fs = rw (str_eq_refl p)

pub unlink_other : (p q : FilePath) (fs : Files) → p ≢ q → unlink p fs q ≡ fs q
unfolding unlink
unlink_other p q fs h = rw (str_eq_ne p q h)

pub rename_target :
    (from to : FilePath) (v : Bytes) (fs : Files) → from ≢ to → rename from to v fs to ≡ some v
unfolding rename
rename_target from to v fs h = rw (unlink_other from to (write to v fs) h) (write_self to v fs)

pub rename_other :
    (from to q : FilePath) (v : Bytes) (fs : Files)
    → from ≢ q
    → to ≢ q
    → rename from to v fs q ≡ fs q
unfolding rename
rename_other from to q v fs h k = unlink_other from q (write to v fs) h ∙ write_other to q v fs k

-- The common end of the operations that write a new version of `p` beside it: on a failed write or
-- rename the temporary file is removed again.
unfoldable pub commit : FilePath → Bytes → Faults → Files → Code × Files
commit p v faults fs =
    if faults.write_fails
    then (failure, unlink (tmp_of p) fs)
    else if faults.rename_fails
    then (failure, unlink (tmp_of p) fs)
    else (success, rename (tmp_of p) p v fs)

pub commit_success :
    (p v : Bytes) (faults : Faults) (fs : Files)
    → (commit p v faults fs).0 ≡ success
    → (commit p v faults fs).1 p ≡ some v
unfolding commit
commit_success p v faults fs h = ground (arith, rename_target (tmp_of p) p v fs (tmp_of_ne p))

pub commit_failure :
    (p v : Bytes) (faults : Faults) (fs : Files)
    → (commit p v faults fs).0 ≡ failure
    → (commit p v faults fs).1 p ≡ fs p
unfolding commit
commit_failure p v faults fs h = ground (arith, unlink_other (tmp_of p) p fs (tmp_of_ne p))

-- No file but `p` and its temporary file is touched.
pub commit_other :
    (p v : Bytes) (faults : Faults) (fs : Files) (q : FilePath)
    → q ≢ p
    → q ≢ tmp_of p
    → (commit p v faults fs).1 q ≡ fs q
unfolding commit rename
commit_other p v faults fs q h k = ground (
  arith,
  unlink_other (tmp_of p) q fs (λ e. k (cc)),
  unlink_other (tmp_of p) q (write p v fs) (λ e. k (cc)),
  write_other p q v fs (λ e. h (cc)),
)
