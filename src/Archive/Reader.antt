-- ===== src/Archive/Reader.antt =====
-- src/archive.c: how the entries of a package are read. libarchive is a parameter: a reader is the list
-- of what the calls of `archive_read_next_header` still have to say.
use aept.Base.{
  ◌≡◌, refl, ◌⊎◌, inl, inr, ℕ, zero, suc, Bool, true, false, not, Option, none, some, List, [], ◌∷◌,
  ◌&&◌, ◌==◌, if◌then◌else◌, length,
}
use aept.Text.Strings.{Bytes, codes, strip_prefix}
use aept.Files.{FilePath, Files}
use aept.Archive.{Entry}

-- An entry with what the program asks of it: the target of a symbolic link, `st_mode`, and its data.
pub record Member : Type 0 where
  pub entry : Entry
  pub symlink : Option Bytes
  pub mode : ℕ
  pub body : Bytes

-- ARCHIVE_OK, ARCHIVE_WARN, ARCHIVE_EOF, ARCHIVE_RETRY, and any other result.
pub data Header : Type 0 where
  good : Member → Header
  warned : Member → Header
  ended : Header
  retry : Header
  fatal : Header

abbrev pub Reader : Type 0
Reader = List Header

-- An entry and the reader behind it; no entry, with `*eof` 1; no entry, with `*eof` 0.
pub data Next : Type 0 where
  entry : Member → Reader → Next
  at_end : Next
  broken : Next

-- The loop of `next_header`, with the attempts left. Behind the list is the end of the archive.
unfoldable pub next_header : ℕ → Reader → Next
next_header zero r = broken
next_header (suc k) [] = at_end
next_header (suc k) (h ∷ r) = elim h [
  | good m ↦ entry m r
  | warned m ↦ entry m r
  | ended ↦ at_end
  | retry ↦ next_header k r
  | fatal ↦ broken
]

abbrev pub attempts : ℕ
attempts = 4

-- Fuel for a loop that reads headers: each round takes one at least.
abbrev pub rounds : Reader → ℕ
rounds r = suc (length r)

-- The flags of libarchive's disk writer that the program sets.
pub record ExtractFlags : Type 0 where
  pub owner : Bool
  pub perm : Bool
  pub time : Bool
  pub unlink : Bool
  pub no_overwrite : Bool
  pub secure_symlinks : Bool
  pub secure_nodotdot : Bool

-- What libarchive does: it opens a container, or the tar in a member's data; a disk writer is made;
-- and an entry is written to the disk, with ARCHIVE_OK or ARCHIVE_WARN if the answer is true.
pub record Libarchive : Type 0 where
  pub read_container : FilePath → Files → Option Reader
  pub read_tar : Bytes → Option Reader
  pub disk_writer : ExtractFlags → Bool
  pub extract2 : ExtractFlags → Member → Files → Bool × Files

-- `name += 2` behind a leading `./`.
unfoldable pub skip_dot_slash : Bytes → Bytes
skip_dot_slash [] = []
skip_dot_slash (c ∷ []) = c ∷ []
skip_dot_slash (c ∷ d ∷ cs) = if c == b'.' && d == b'/' then cs else c ∷ d ∷ cs

-- The member that the reader is positioned on.
unfoldable pub seek_member : ℕ → Reader → Bytes → Option Member
seek_member zero r prefix = none
seek_member (suc f) r prefix = elim (next_header attempts r) [
  | at_end ↦ none
  | broken ↦ none
  | entry m r' ↦ elim (strip_prefix prefix (skip_dot_slash m.entry.pathname)) [
    | some rest ↦ some m
    | none ↦ seek_member f r' prefix
  ]
]

unfoldable pub open_ipk_tar : Libarchive → FilePath → Bytes → Files → Option Reader
open_ipk_tar lib ipk_path prefix fs = elim (lib.read_container ipk_path fs) [
  | none ↦ none
  | some outer ↦ elim (seek_member (rounds outer) outer prefix) [
    | none ↦ none
    | some m ↦ lib.read_tar m.body
  ]
]

-- `struct aept_ar`.
pub record OpenArchive : Type 0 where
  pub reader : Reader
  pub extract_flags : ExtractFlags

abbrev pub control_flags : ExtractFlags
control_flags = record {
  owner = false;
  perm = false;
  time = false;
  unlink = false;
  no_overwrite = false;
  secure_symlinks = true;
  secure_nodotdot = true;
}

abbrev pub data_flags : Bool → ExtractFlags
data_flags ignore_uid = record {
  owner = not ignore_uid;
  perm = true;
  time = true;
  unlink = true;
  no_overwrite = true;
  secure_symlinks = true;
  secure_nodotdot = true;
}

unfoldable pub open_pkg_control_archive : Libarchive → FilePath → Files → Option OpenArchive
open_pkg_control_archive lib filename fs =
    elim (open_ipk_tar lib filename (codes "control.tar") fs) [
      | none ↦ none
      | some r ↦ some (record { reader = r; extract_flags = control_flags })
    ]

unfoldable pub open_pkg_data_archive : Libarchive → FilePath → Bool → Files → Option OpenArchive
open_pkg_data_archive lib filename ignore_uid fs =
    elim (open_ipk_tar lib filename (codes "data.tar") fs) [
      | none ↦ none
      | some r ↦ some (record { reader = r; extract_flags = data_flags ignore_uid })
    ]

pub Next-cases :
    (n : Next) → (n ≡ at_end) ⊎ (n ≡ broken) ⊎ ((m : Member) × (r : Reader) × (n ≡ entry m r))
Next-cases at_end = inl refl
Next-cases broken = inr (inl refl)
Next-cases (entry m r) = inr (inr (m, r, refl))
