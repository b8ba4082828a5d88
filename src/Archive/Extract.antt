-- ===== src/Archive/Extract.antt =====
-- src/archive.c: the extraction of all entries of an archive. The counter `size`, which every caller
-- leaves null, is left out.
use aept.Base.{
  ℕ, zero, suc, ◌/◌, ◌%◌, Bool, true, false, not, ◌&&◌, Option, none, some, List, [], ◌∷◌, ◌++◌,
  ltb, ◌==◌, if◌then◌else◌, length,
}
use aept.Text.Strings.{Bytes, codes}
use aept.Files.{Files, Code, success, failure}
use aept.Util.{archive_path_is_safe, symlink_target_is_recordable}
use aept.Fileset.{Fileset}
use aept.Archive.{Entry, fileset_contains_entry, rewrite_all_paths}
use aept.Archive.Reader.{
  Member, Reader, entry, at_end, broken, next_header, attempts, rounds, ExtractFlags, Libarchive,
  OpenArchive,
}

-- `aept_ar_file_entry_t`.
pub record FileEntry : Type 0 where
  pub path : Bytes
  pub link_target : Option Bytes
  pub mode : ℕ

-- `S_ISLNK(mode)` and `S_ISDIR(mode)`.
abbrev pub is_link_mode : ℕ → Bool
is_link_mode mode = mode / 4096 % 16 == 10

abbrev pub is_dir_entry : ℕ → Bool
is_dir_entry mode = mode / 4096 % 16 == 4

-- The target that is kept of a symbolic link.
unfoldable pub kept_link : Member → Option Bytes
kept_link m =
    if not (is_link_mode m.mode)
    then none
    else some (elim m.symlink [
      | none ↦ codes "<redacted>"
      | some tgt ↦ if symlink_target_is_recordable (some tgt) then tgt else codes "<redacted>"
    ])

abbrev pub kept_entry : Member → FileEntry
kept_entry m = record { path = m.entry.pathname; link_target = kept_link m; mode = m.mode }

-- What the loop keeps: the list of `recorded` where the pointer is not null, the set of configuration
-- files, which a search may sort, and the files on the disk.
pub record Extraction : Type 0 where
  pub recorded : Option (List FileEntry)
  pub conffiles : Option Fileset
  pub files : Files

abbrev pub record_entry : Member → Option (List FileEntry) → Option (List FileEntry)
record_entry m none = none
record_entry m (some es) = some (es ++ kept_entry m ∷ [])

-- `have_cf && fileset_contains_entry(conffiles, raw_path)`.
unfoldable pub is_conffile : Option Fileset → Bytes → Bool × Option Fileset
is_conffile none raw = (false, none)
is_conffile (some set) raw =
    if ltb 0 (length set.paths)
    then (let (answer, searched) = fileset_contains_entry set raw in (answer, some searched))
    else (false, some set)

abbrev pub with_suffix : Bool → Option Bytes → Bytes → Bytes
with_suffix is_cf none path = path
with_suffix is_cf (some suffix) path = if is_cf then path ++ suffix else path

-- The writer for a configuration file overwrites.
abbrev pub flags_for : Bool → ExtractFlags → ExtractFlags
flags_for is_cf flags = if is_cf then record flags { no_overwrite = false } else flags

-- An entry whose paths are rewritten is written to the disk and recorded.
unfoldable pub write_member :
    Libarchive
    → ExtractFlags
    → Option Bytes
    → Bool
    → Member
    → Entry
    → Extraction
    → Code × Extraction
write_member lib flags cf_suffix is_cf m e s =
    let target = record e { pathname = with_suffix is_cf cf_suffix e.pathname } in
    let (ok, fs) = lib.extract2 (flags_for is_cf flags) (record m { entry = target }) s.files in
    if ok
    then (success, record s { recorded = record_entry m s.recorded; files = fs })
    else (failure, record s { files = fs })

-- The body of the loop of `do_extract_all`: `failure` where it leaves the loop.
unfoldable pub extract_member :
    Libarchive → Bytes → ExtractFlags → Option Bytes → Member → Extraction → Code × Extraction
extract_member lib dest flags cf_suffix m s =
    let raw = m.entry.pathname in
    if not (archive_path_is_safe (some raw))
    then (failure, s)
    else let (is_cf, searched) = is_conffile s.conffiles raw in
      elim (rewrite_all_paths m.entry (some dest)) [
        | none ↦ (success, record s { conffiles = searched })
        | some e ↦ write_member lib flags cf_suffix is_cf m e (record s { conffiles = searched })
      ]

unfoldable pub extract_loop :
    Libarchive → Bytes → ExtractFlags → Option Bytes → ℕ → Reader → Extraction → Code × Extraction
extract_loop lib dest flags cf_suffix zero r s = (failure, s)
extract_loop lib dest flags cf_suffix (suc f) r s = elim (next_header attempts r) [
  | at_end ↦ (success, s)
  | broken ↦ (failure, s)
  | entry m r' ↦
      let (code, s') = extract_member lib dest flags cf_suffix m s in
      elim code [
        | success ↦ extract_loop lib dest flags cf_suffix f r' s'
        | failure ↦ (failure, s')
      ]
]

abbrev pub has_conffiles : Option Fileset → Bool
has_conffiles none = false
has_conffiles (some set) = ltb 0 (length set.paths)

unfoldable pub do_extract_all :
    Libarchive → Bytes → ExtractFlags → Option Bytes → Reader → Extraction → Code × Extraction
do_extract_all lib dest flags cf_suffix r s =
    if not (lib.disk_writer flags)
    then (failure, s)
    else if has_conffiles s.conffiles && not (lib.disk_writer (flags_for true flags))
    then (failure, s)
    else extract_loop lib dest flags cf_suffix (rounds r) r s

abbrev pub extract_all :
    Libarchive → OpenArchive → Bytes → Option Bytes → Extraction → Code × Extraction
extract_all lib ar prefix cf_suffix s =
    do_extract_all lib prefix ar.extract_flags cf_suffix ar.reader s

-- The loop of `aept_ar_extract_selected`.
unfoldable pub selected_loop :
    Libarchive → Bytes → ExtractFlags → ℕ → Reader → Fileset → Files → Code × Files
selected_loop lib prefix flags zero r selected fs = (failure, fs)
selected_loop lib prefix flags (suc f) r selected fs = elim (next_header attempts r) [
  | at_end ↦ (success, fs)
  | broken ↦ (failure, fs)
  | entry m r' ↦
      let (chosen, searched) = fileset_contains_entry selected m.entry.pathname in
      elim chosen [
        | false ↦ selected_loop lib prefix flags f r' searched fs
        | true ↦ elim (rewrite_all_paths m.entry (some prefix)) [
          | none ↦ selected_loop lib prefix flags f r' searched fs
          | some e ↦
              let (ok, fs') = lib.extract2 flags (record m { entry = e }) fs in
              elim ok [
                | true ↦ selected_loop lib prefix flags f r' searched fs'
                | false ↦ (failure, fs')
              ]
        ]
      ]
]

unfoldable pub extract_selected : Libarchive → OpenArchive → Fileset → Bytes → Files → Code × Files
extract_selected lib ar selected prefix fs =
    let flags = record ar.extract_flags { no_overwrite = false } in
    if not (lib.disk_writer flags)
    then (failure, fs)
    else selected_loop lib prefix flags (rounds ar.reader) ar.reader selected fs
