-- ===== src/Download.antt =====
-- src/download.c: a file is downloaded beside its place and moved there; a package is downloaded unless
-- a good copy is in the cache. What libfetch delivers and what libsolv knows of a package are
-- parameters.
pub mod Verified
mod Tests
use aept.Base.{
  ℕ, zero, suc, Bool, true, false, not, ◌&&◌, Option, none, some, List, [], ◌∷◌, ◌++◌, ◌==◌,
  if◌then◌else◌, length, take,
}
use aept.Text.Strings.{Bytes, codes, str_eq, is_empty, has}
use aept.Files.{FilePath, Files, Code, success, failure, Faults, unlink, rename}
use aept.Config.{Source, Config}

-- What `fetchIO_read` answers: `n > 0` bytes, which `fwrite` takes or not, `n == 0`, or an error, which
-- may be EINTR.
pub data Answer : Type 0 where
  chunk : Bytes → Bool → Answer
  finished interrupted broken : Answer

-- One round of the loop: the answer, and what `aept_cancelled` says behind it.
pub record Round : Type 0 where
  pub answer : Answer
  pub cancelled : Bool

-- The loop of `aept_download`: what it writes, `none` where it is left by an error.
unfoldable pub receive : List Round → Option Bytes
receive [] = none
receive (r ∷ rs) =
    let rest = receive rs in
    if r.cancelled then none else elim r.answer [
      | finished ↦ some []
      | interrupted ↦ rest
      | broken ↦ none
      | chunk bytes written ↦
          if not written
          then none
          else (elim rest [ none ↦ none | some more ↦ some (bytes ++ more) ])
    ]

-- A transfer: whether `fetchGetURL` opens it, its rounds, and the calls on the file that fail;
-- `write_fails` is about `fclose`. The process id, in decimal, names the temporary file.
pub record Transfer : Type 0 where
  pub connected : Bool
  pub rounds : List Round
  pub faults : Faults
  pub pid : Bytes

-- `"%s.%d"`.
abbrev pub part_of : Bytes → FilePath → FilePath
part_of pid dest = dest ++ b'.' ∷ pid

unfoldable pub download : Transfer → FilePath → Files → Code × Files
download t dest fs =
    let part = part_of t.pid dest in
    if not t.connected
    then (failure, fs)
    else if t.faults.open_fails
    then (failure, unlink part fs)
    else elim (receive t.rounds) [
      | none ↦ (failure, unlink part fs)
      | some text ↦
          if t.faults.write_fails
          then (failure, unlink part fs)
          else if t.faults.rename_fails
          then (failure, unlink part fs)
          else (success, rename part dest text fs)
    ]

-- What libsolv knows of a package: the type and the value of its checksum; and of a type of checksum:
-- whether it is supported, the digest and the length of the digests.
pub record Checksums : Type 0 where
  pub expected : ℕ → Option (ℕ × Bytes)
  pub supported : ℕ → Bool
  pub digest : ℕ → Bytes → Bytes
  pub digest_len : ℕ → ℕ

-- The comparison with `len` and `memcmp`.
abbrev pub has_checksum : Checksums → ℕ → Bytes → Bytes → Bool
has_checksum sums type expected text =
    (length (sums.digest type text) == sums.digest_len type)
    && str_eq (sums.digest type text) (take (length (sums.digest type text)) expected)

-- A file with another checksum is removed.
unfoldable pub verify_checksum : Checksums → ℕ → FilePath → Files → Code × Files
verify_checksum sums p path fs = elim (sums.expected p) [
  | none ↦ (failure, fs)
  | some (type, expected) ↦ if not (sums.supported type) then (failure, fs) else elim (fs path) [
    | none ↦ (failure, fs)
    | some text ↦
        if has_checksum sums type expected text then (success, fs) else (failure, unlink path fs)
  ]
]

-- What lies behind the last slash.
unfoldable pub after_last : ℕ → Bytes → Bytes
after_last c [] = []
after_last c (d ∷ ds) =
    let rest = after_last c ds in if has c ds then rest else if d == c then ds else d ∷ ds

-- The string without the slashes at its end.
unfoldable pub trim_slash : Bytes → Bytes
trim_slash [] = []
trim_slash (c ∷ cs) = elim (trim_slash cs) [
  | [] ↦ if c == b'/' then [] else c ∷ []
  | d ∷ ds ↦ c ∷ d ∷ ds
]

-- `basename` of <libgen.h>.
unfoldable pub basename : Bytes → Bytes
basename s =
    if is_empty s
    then codes "."
    else if is_empty (trim_slash s)
    then codes "/"
    else after_last b'/' (trim_slash s)

-- `sources[src_idx]`, where the index lies in the array.
abbrev pub source_at : List Source → ℕ → Option Source
source_at [] i = none
source_at (s ∷ ss) zero = some s
source_at (s ∷ ss) (suc i) = source_at ss i

-- What libsolv and libfetch say of the packages: the location, the index of the source (`none` for -1),
-- and the transfer of a URL to a file.
pub record Network : Type 0 where
  pub sums : Checksums
  pub location : ℕ → Option Bytes
  pub source_index : ℕ → Option ℕ
  pub transfer : Bytes → FilePath → Transfer

abbrev pub package_source : Network → Config → ℕ → Option Source
package_source net cfg p = elim (net.source_index p) [
  | none ↦ none
  | some i ↦ source_at cfg.sources i
]

abbrev pub cached_path : Config → Bytes → FilePath
cached_path cfg location = cfg.cache_dir ++ b'/' ∷ basename location

-- The package is downloaded, and its checksum verified.
unfoldable pub fetch_package : Network → ℕ → Bytes → FilePath → Files → Option FilePath × Files
fetch_package net p url dest fs =
    let (code, fetched) = download (net.transfer url dest) dest fs in
    elim code [
      | failure ↦ (none, fetched)
      | success ↦
          let (good, verified) = verify_checksum net.sums p dest fetched in
          elim good [ failure ↦ (none, verified) | success ↦ (some dest, verified) ]
    ]

-- A copy in the cache is tried first.
unfoldable pub cached_or_fetched : Network → ℕ → Bytes → FilePath → Files → Option FilePath × Files
cached_or_fetched net p url dest fs = elim (fs dest) [
  | none ↦ fetch_package net p url dest fs
  | some text ↦
      let (good, verified) = verify_checksum net.sums p dest fs in
      elim good [
        | success ↦ (some dest, verified)
        | failure ↦ fetch_package net p url dest verified
      ]
]

-- `aept_download_package`: the path, `none` for -1.
unfoldable pub download_package : Network → Config → ℕ → Files → Option FilePath × Files
download_package net cfg p fs = elim (net.location p) [
  | none ↦ (none, fs)
  | some location ↦ elim (package_source net cfg p) [
    | none ↦ (none, fs)
    | some src ↦ cached_or_fetched net p (src.url ++ b'/' ∷ location) (cached_path cfg location) fs
  ]
]
