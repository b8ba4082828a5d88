-- ===== src/Archive/Writes.antt =====
-- What libarchive's disk writer changes on the disk, as its documentation says, and the entries that it is
-- given.
use aept.Base.{
  ◌≡◌, refl, ap, ◌∙◌, ◌⊎◌, inl, inr, Bool, true, false, none, some, arith, Option-cases,
}
use aept.Text.Strings.{Bytes, codes}
use aept.Files.{FilePath, Files}
use aept.Archive.{Entry, safe_join, rewrite_pathname, rewrite_all_paths}
use aept.Archive.Reader.{
  Member, ExtractFlags, Libarchive, OpenArchive, open_ipk_tar, open_pkg_control_archive,
  open_pkg_data_archive, control_flags, data_flags,
}
use aept.Archive.Extract.{flags_for}

-- What is done at the name `p` may reach the file `q`: the names are the same, or by the links on the
-- disk they may be of one file, or a symbolic link on the way to `p` may be on the way to `q` as well.
-- The last two are what the relation `linked` says of the disk.
abbrev pub Reaches : (FilePath → FilePath → Type 0) → FilePath → FilePath → Type 0
Reaches linked q p = (q ≡ p) ⊎ linked q p

-- The documented effect of `archive_read_extract2` with ARCHIVE_EXTRACT_SECURE_SYMLINKS, which refuses an
-- entry whose final location would be altered by a symbolic link on the disk or, together with
-- ARCHIVE_EXTRACT_UNLINK, removes such a link: a regular file is as it was, unless what is done at the
-- entry's pathname or, where the entry is a hard link, which may carry data, at the link's target
-- may reach it.
abbrev pub WritesItsEntry : Libarchive → (FilePath → FilePath → Type 0) → Type 0
WritesItsEntry lib linked =
    (flags : ExtractFlags) (m : Member) (fs : Files) (q : FilePath)
    → flags.secure_symlinks ≡ true
    → (Reaches linked q m.entry.pathname → ⊥)
    → ((p : FilePath) → m.entry.hardlink ≡ some p → Reaches linked q p → ⊥)
    → (lib.extract2 flags m fs).1 q ≡ fs q

-- The archive is the control or the data archive of a package, as src/archive.c opens it.
abbrev pub IsOpened : Libarchive → OpenArchive → Type 0
IsOpened lib ar =
    ((path : FilePath) × (fs : Files) × (open_pkg_control_archive lib path fs ≡ some ar))
    ⊎ ((path : FilePath) × (ignore_uid : Bool) × (fs : Files) × (open_pkg_data_archive lib path
            ignore_uid fs
          ≡ some ar))

control_secure :
    (lib : Libarchive) (path : FilePath) (fs : Files) (ar : OpenArchive)
    → open_pkg_control_archive lib path fs ≡ some ar
    → ar.extract_flags.secure_symlinks ≡ true
unfolding open_pkg_control_archive
control_secure lib path fs ar =
    elim (Option-cases (open_ipk_tar lib path (codes "control.tar") fs)) [
      | inl gone ↦ rw (gone, open_pkg_control_archive) (λ h. cc)
      | inr (r, there) ↦
          rw (there, open_pkg_control_archive)
            (λ h.
              let a : OpenArchive = record { reader = r; extract_flags = control_flags } in
              let e : a ≡ ar = cc in rw (← e) refl)
    ]

data_secure :
    (lib : Libarchive) (path : FilePath) (ignore_uid : Bool) (fs : Files) (ar : OpenArchive)
    → open_pkg_data_archive lib path ignore_uid fs ≡ some ar
    → ar.extract_flags.secure_symlinks ≡ true
unfolding open_pkg_data_archive
data_secure lib path ignore_uid fs ar =
    elim (Option-cases (open_ipk_tar lib path (codes "data.tar") fs)) [
      | inl gone ↦ rw (gone, open_pkg_data_archive) (λ h. cc)
      | inr (r, there) ↦
          rw (there, open_pkg_data_archive)
            (λ h.
              let a : OpenArchive = record { reader = r; extract_flags = data_flags ignore_uid } in
              let e : a ≡ ar = cc in rw (← e) refl)
    ]

-- Both are extracted with ARCHIVE_EXTRACT_SECURE_SYMLINKS.
pub IsOpened-secure :
    (lib : Libarchive) (ar : OpenArchive)
    → IsOpened lib ar
    → ar.extract_flags.secure_symlinks ≡ true
IsOpened-secure lib ar (inl (path, fs, h)) = control_secure lib path fs ar h
IsOpened-secure lib ar (inr (path, ignore_uid, fs, h)) = data_secure lib path ignore_uid fs ar h

pub flags_for_secure :
    (is_cf : Bool) (flags : ExtractFlags)
    → flags.secure_symlinks ≡ true
    → (flags_for is_cf flags).secure_symlinks ≡ true
flags_for_secure true flags h = h
flags_for_secure false flags h = h

pub rewrite_all_paths-pathname :
    (e e' : Entry) (dest : Bytes)
    → rewrite_all_paths e (some dest) ≡ some e'
    → safe_join (some dest) e.pathname ≡ some e'.pathname
unfolding rewrite_all_paths rewrite_pathname
rewrite_all_paths-pathname e e' dest h = ground arith

-- The target of a hard link is put below the prefix too.
pub rewrite_all_paths-hardlink :
    (e e' : Entry) (dest p : Bytes)
    → rewrite_all_paths e (some dest) ≡ some e'
    → e'.hardlink ≡ some p
    → (hl : Bytes) × (e.hardlink ≡ some hl) × (safe_join (some dest) hl ≡ some p)
unfolding rewrite_all_paths rewrite_pathname
rewrite_all_paths-hardlink e e' dest p = elim (Option-cases (safe_join (some dest) e.pathname)) [
  | inl gone ↦ rw (gone, rewrite_all_paths, rewrite_pathname) (λ h k. cc)
  | inr (path, there) ↦ elim (Option-cases e.hardlink) [
    | inl plain ↦
        rw (there, plain, rewrite_all_paths, rewrite_pathname)
          (λ h k.
            let a : Entry = record { pathname = path; hardlink = none } in
            let f : a ≡ e' = cc in absurd (let x = ap (λ (y : Entry). y.hardlink) f ∙ k in cc))
    | inr (hl, link) ↦ elim (Option-cases (safe_join (some dest) hl)) [
      | inl gone ↦ rw (there, link, gone, rewrite_all_paths, rewrite_pathname) (λ h k. cc)
      | inr (target, joined) ↦
          rw (there, link, joined, rewrite_all_paths, rewrite_pathname)
            (λ h k.
              let a : Entry = record { pathname = path; hardlink = some target } in
              let f : a ≡ e' = cc in
              (hl, refl, (let x = ap (λ (y : Entry). y.hardlink) f ∙ k in joined ∙ x)))
    ]
  ]
]
