-- ===== src/Download/Verified.antt =====
-- What is downloaded is complete, and a package has the checksum that libsolv knows.
use aept.Base.{◌≡◌, ◌≢◌, inl, inr, ℕ, true, some, [], ◌∷◌, ◌++◌, arith, Bool-cases, Option-cases}
use aept.Text.Strings.{Bytes}
use aept.Files.{FilePath, Files, success, failure, Code-cases, unlink_other, rename_target}
use aept.Config.{Config}
use aept.Download.{
  Transfer, receive, part_of, download, Checksums, has_checksum, verify_checksum, Network,
  package_source, cached_path, fetch_package, cached_or_fetched, download_package,
}

part_of_ne : (pid : Bytes) (p : FilePath) → part_of pid p ≢ p
part_of_ne pid [] h = cc
part_of_ne pid (c ∷ cs) h = part_of_ne pid cs (cc)

-- `aept_download` is all or nothing: if it reports success, the file is the whole of what the transfer
-- delivered, from the first byte to its end; if it fails, the file is as it was.
pub download_outcome :
    (t : Transfer) (dest : FilePath) (fs : Files)
    → ((download t dest fs).0 ≡ success → (download t dest fs).1 dest ≡ receive t.rounds)
      × ((download t dest fs).0 ≡ failure → (download t dest fs).1 dest ≡ fs dest)
unfolding download
download_outcome t dest fs = elim (Option-cases (receive t.rounds)) [
  | inl stopped ↦
      rw stopped (ground (arith, unlink_other (part_of t.pid dest) dest fs (part_of_ne t.pid dest)))
  | inr (text, got) ↦ rw got (
      ground (
        arith,
        unlink_other (part_of t.pid dest) dest fs (part_of_ne t.pid dest),
        rename_target (part_of t.pid dest) dest text fs (part_of_ne t.pid dest),
      ))
]

-- The file is there, with the checksum that libsolv knows of the package.
pub record IsVerified (sums : Checksums) (p : ℕ) (path : FilePath) (fs : Files) : Type 0 where
  pub type : ℕ
  pub sum : Bytes
  pub text : Bytes
  pub known : sums.expected p ≡ some (type, sum)
  pub there : fs path ≡ some text
  pub good : has_checksum sums type sum text ≡ true

pub verify_checksum-IsVerified :
    (sums : Checksums) (p : ℕ) (path : FilePath) (fs : Files)
    → (verify_checksum sums p path fs).0 ≡ success
    → IsVerified sums p path (verify_checksum sums p path fs).1
unfolding verify_checksum
verify_checksum-IsVerified sums p path fs = elim (Option-cases (sums.expected p)) [
  | inl unknown ↦ rw (unknown, verify_checksum) (λ h. cc)
  | inr ((type, sum), known) ↦ elim (Bool-cases (sums.supported type)) [
    | inr other ↦ rw (known, other, verify_checksum) (λ h. cc)
    | inl fine ↦ elim (Option-cases (fs path)) [
      | inl gone ↦ rw (known, fine, gone, verify_checksum) (λ h. cc)
      | inr (text, there) ↦ elim (Bool-cases (has_checksum sums type sum text)) [
        | inr bad ↦ rw (known, fine, there, bad, verify_checksum) (λ h. cc)
        | inl good ↦
            rw (known, fine, there, good, verify_checksum)
              (λ h. record {
                type = type;
                sum = sum;
                text = text;
                known = known;
                there = there;
                good = good;
              })
      ]
    ]
  ]
]

fetch_package-IsVerified :
    (net : Network) (p : ℕ) (url : Bytes) (dest path : FilePath) (fs : Files)
    → (fetch_package net p url dest fs).0 ≡ some path
    → IsVerified net.sums p path (fetch_package net p url dest fs).1
unfolding fetch_package
fetch_package-IsVerified net p url dest path fs =
    let fetched = (download (net.transfer url dest) dest fs).1 in
    elim (Code-cases (download (net.transfer url dest) dest fs).0) [
      | inr bad ↦ rw (bad, fetch_package) (λ h. cc)
      | inl ok ↦ elim (Code-cases (verify_checksum net.sums p dest fetched).0) [
        | inr bad ↦ rw (ok, bad, fetch_package) (λ h. cc)
        | inl good ↦
            rw (ok, good, fetch_package)
              (λ h.
                let same : dest ≡ path = cc in
                rw (← same) (verify_checksum-IsVerified net.sums p dest fetched good))
      ]
    ]

cached_or_fetched-IsVerified :
    (net : Network) (p : ℕ) (url : Bytes) (dest path : FilePath) (fs : Files)
    → (cached_or_fetched net p url dest fs).0 ≡ some path
    → IsVerified net.sums p path (cached_or_fetched net p url dest fs).1
unfolding cached_or_fetched
cached_or_fetched-IsVerified net p url dest path fs = elim (Option-cases (fs dest)) [
  | inl gone ↦ rw (gone, cached_or_fetched) (fetch_package-IsVerified net p url dest path fs)
  | inr (text, there) ↦ elim (Code-cases (verify_checksum net.sums p dest fs).0) [
    | inr bad ↦
        rw (there, bad, cached_or_fetched)
          (fetch_package-IsVerified net p url dest path (verify_checksum net.sums p dest fs).1)
    | inl good ↦
        rw (there, good, cached_or_fetched)
          (λ h.
            let same : dest ≡ path = cc in
            rw (← same) (verify_checksum-IsVerified net.sums p dest fs good))
  ]
]

-- If `aept_download_package` gives a path, the file there is the package: it has the checksum that
-- libsolv knows of it, whether it came from the cache or from the source.
pub download_package-IsVerified :
    (net : Network) (cfg : Config) (p : ℕ) (path : FilePath) (fs : Files)
    → (download_package net cfg p fs).0 ≡ some path
    → IsVerified net.sums p path (download_package net cfg p fs).1
unfolding download_package
download_package-IsVerified net cfg p path fs = elim (Option-cases (net.location p)) [
  | inl gone ↦ rw (gone, download_package) (λ h. cc)
  | inr (location, at) ↦ elim (Option-cases (package_source net cfg p)) [
    | inl gone ↦ rw (at, gone, download_package) (λ h. cc)
    | inr (src, of) ↦
        rw (at, of, download_package)
          (cached_or_fetched-IsVerified net p (src.url ++ b'/' ∷ location)
            (cached_path cfg location) path fs)
  ]
]
