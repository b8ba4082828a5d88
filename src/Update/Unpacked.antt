-- ===== src/Update/Unpacked.antt =====
-- What an update leaves where the list is compressed.
use aept.Base.{◌≡◌, ◌⊎◌, true, Option, some, List, ◌++◌}
use aept.Text.Strings.{Bytes, codes}
use aept.Files.{FilePath, Files, failure}
use aept.Config.{Source, Config}
use aept.Download.{Transfer, receive}
use aept.Update.{DataRead, stream_entry, Outside, gz_of}

-- The list is what was unpacked of the downloaded `gz`, but the data broke off, or the list could not be
-- closed.
pub record IsBrokenOff (out : Outside) (t : Transfer) (path : FilePath) (list : Option Bytes)
    : Type 0 where
  pub gz : Bytes
  pub reads : List DataRead
  pub came : receive t.rounds ≡ some gz
  pub opened : out.gunzip gz ≡ some reads
  pub broken : (out.close_fails path ≡ true) ⊎ ((stream_entry reads).1 ≡ failure)
  pub unpacked : list ≡ some (stream_entry reads).0

module _ (out : Outside) (src : Source) (path : FilePath) (fs : Files) where
  abbrev pub transfer_of : Transfer
  transfer_of = out.transfer (src.url ++ codes "/Packages.gz") (gz_of path)
