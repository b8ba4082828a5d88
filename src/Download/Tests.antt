-- ===== src/Download/Tests.antt =====
-- Tests of src/download.c, and instances of its theorems.
use aept.Base.{◌≡◌, refl, true, false, none, some, List, [], ◌∷◌, if◌then◌else◌}
use aept.Text.Strings.{codes, str_eq}
use aept.Files.{FilePath, Files, success, failure, no_faults, unlink, rename, write}
use aept.Config.{Config, config_defaults}
use aept.Download.{
  chunk, finished, interrupted, broken, Round, receive, Transfer, download, Checksums,
  verify_checksum, after_last, trim_slash, basename, Network, fetch_package, cached_or_fetched,
  download_package,
}
use aept.Download.Verified.{download_outcome, IsVerified, download_package-IsVerified}

-- The bytes that arrive in two pieces, with an interrupted call between them.
abbrev rounds : List Round
rounds =
    record { answer = chunk (codes "ab") true; cancelled = false }
    ∷ record { answer = interrupted; cancelled = false }
    ∷ record { answer = chunk (codes "c") true; cancelled = false }
    ∷ record { answer = finished; cancelled = false }
    ∷ []

abbrev transfer : Transfer
transfer = record { connected = true; rounds = rounds; faults = no_faults; pid = codes "42" }

abbrev cut_short : Transfer
cut_short = record transfer {
  rounds =
      record { answer = chunk (codes "ab") true; cancelled = false }
      ∷ record { answer = broken; cancelled = false }
      ∷ [];
}

received : receive rounds ≡ some (codes "abc")
unfolding receive
received = refl

names :
    basename (codes "pool/a.aep/") ∷ basename (codes "//") ∷ basename [] ∷ []
    ≡ codes "a.aep" ∷ codes "/" ∷ codes "." ∷ []
unfolding basename after_last trim_slash
names = refl

abbrev dest : FilePath
dest = codes "/var/cache/aept/a.aep"

-- An old copy, whose digest is not the one that is expected.
abbrev fs : Files
fs q = if str_eq q dest then some (codes "old") else none

download_outcome_example :
    ((download cut_short dest fs).0 ≡ success
      → (download cut_short dest fs).1 dest ≡ receive cut_short.rounds)
    × ((download cut_short dest fs).0 ≡ failure → (download cut_short dest fs).1 dest ≡ fs dest)
download_outcome_example = download_outcome cut_short dest fs

-- A digest that is the text itself.
abbrev sums : Checksums
sums = record {
  expected = λ p. some (7, codes "abc");
  supported = λ type. true;
  digest = λ type text. text;
  digest_len = λ type. 3;
}

abbrev net : Network
net = record {
  sums = sums;
  location = λ p. some (codes "pool/a.aep");
  source_index = λ p. some 0;
  transfer = λ url path. transfer;
}

abbrev cfg : Config
cfg = record config_defaults {
  sources = record { name = codes "main"; url = codes "https://example.org"; gzip = true } ∷ [];
}

fetched : (download_package net cfg 5 fs).0 ≡ some dest
unfolding download_package cached_or_fetched verify_checksum fetch_package download receive basename
    after_last trim_slash str_eq unlink rename write
fetched = refl

download_package-IsVerified_example : IsVerified net.sums 5 dest (download_package net cfg 5 fs).1
download_package-IsVerified_example = download_package-IsVerified net cfg 5 dest fs fetched
