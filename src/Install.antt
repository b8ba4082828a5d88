-- ===== src/Install.antt =====
-- src/install.c: the installation of a package and its upgrade, and the transaction that carries them
-- out. libsolv, libarchive, the scripts and the calls that fail are parameters.
pub mod Steps
pub mod Package
pub mod Upgrade
pub mod Display
pub mod Operation
pub mod Reinstall
pub mod Request
pub mod Transaction
pub mod Failures
pub mod WentWell
pub mod Completed
pub mod Carried
pub mod Checked
pub mod Leftovers
mod Tests
use aept.Base.{
  ℕ, Bool, true, false, not, ◌&&◌, Option, none, some, List, [], ◌∷◌, ◌++◌, if◌then◌else◌,
}
use aept.Text.Strings.{Bytes}
use aept.Files.{FilePath, Files, Faults}
use aept.Fileset.{Fileset}
use aept.Owner.{OwnerIndex}
use aept.Conffile.{Writing}
use aept.Conffile.Upgrade as Prompt
use aept.Archive.Reader.{Libarchive}
use aept.Process.{Host, Moving}
use aept.Clash.{Disk}
use aept.Remove.{System}
use aept.Remove.Package.{World}

-- What an installation finds outside: libarchive, what the disk says of a path, the scripts, the digest
-- and the calls of `unlink`; the prompt of the configuration files and the keys that are typed at it;
-- the directory that `mkdtemp` makes, and `rm -rf`; and, for each package, what becomes of the writing
-- of its list, its record of configuration files and its control file, and of the moving of its scripts.
pub record Outside : Type 0 where
  pub lib : Libarchive
  pub disk : Files → Disk
  pub host : Host
  pub system : System
  pub prompt : Bytes → Prompt.Outside
  pub keys : Bytes → List ℕ
  pub mkdtemp : Bytes → Option FilePath
  pub rm_rf : FilePath → Files → Files
  pub list_writing : Bytes → Writing
  pub conffile_writing : Bytes → Writing
  pub control_faults : Bytes → Faults
  pub moving : FilePath → Moving

-- The world, and the set of files that the transaction has installed, where there is one.
pub record Site : Type 0 where
  pub world : World
  pub installed : Option Fileset
