-- ===== src/Archive/Listing.antt =====
-- src/archive.c: the paths in the data of a package, and the text of a `.list` file.
use aept.Base.{
  ℕ, zero, suc, ◌+◌, ◌/◌, ◌%◌, Bool, true, false, none, some, List, [], ◌∷◌, ◌++◌, ltb, ◌==◌,
  if◌then◌else◌,
}
use aept.Text.Strings.{Bytes}
use aept.Files.{FilePath, Files, Code, success, failure}
use aept.Util.{archive_path_is_safe}
use aept.Archive.Reader.{
  Member, Reader, entry, at_end, broken, next_header, attempts, rounds, Libarchive,
  open_pkg_data_archive,
}
use aept.Archive.Extract.{FileEntry, is_link_mode, is_dir_entry}

abbrev pub listed_entry : Member → FileEntry
listed_entry m = record {
  path = m.entry.pathname;
  link_target = if is_link_mode m.mode then m.symlink else none;
  mode = m.mode;
}

-- The loop of `aept_ar_list_data_paths`: the entries that are not directories.
unfoldable pub list_loop : ℕ → Reader → List FileEntry → Code × List FileEntry
list_loop zero r out = (failure, out)
list_loop (suc f) r out = elim (next_header attempts r) [
  | at_end ↦ (success, out)
  | broken ↦ (failure, out)
  | entry m r' ↦ elim (is_dir_entry m.mode) [
    | true ↦ list_loop f r' out
    | false ↦ elim (archive_path_is_safe (some m.entry.pathname)) [
      | false ↦ (failure, out)
      | true ↦ list_loop f r' (out ++ listed_entry m ∷ [])
    ]
  ]
]

unfoldable pub list_data_paths : Libarchive → FilePath → Bool → Files → Code × List FileEntry
list_data_paths lib ipk_path ignore_uid fs =
    elim (open_pkg_data_archive lib ipk_path ignore_uid fs) [
      | none ↦ (failure, [])
      | some ar ↦ list_loop (rounds ar.reader) ar.reader []
    ]

-- The octal digits of a number in front of `tail`; the number itself is fuel enough.
unfoldable pub octal_digits : ℕ → ℕ → Bytes → Bytes
octal_digits zero n tail = tail
octal_digits (suc f) n tail = elim (n / 8 == 0) [
  | true ↦ (b'0' + n % 8) ∷ tail
  | false ↦ octal_digits f (n / 8) ((b'0' + n % 8) ∷ tail)
]

-- `%#03o`: a leading zero, and zeros up to three characters.
unfoldable pub print_mode : ℕ → Bytes → Bytes
print_mode mode tail =
    let digits = octal_digits (suc mode) mode tail in
    if mode == 0
    then b'0' ∷ b'0' ∷ digits
    else if ltb mode 8
    then b'0' ∷ b'0' ∷ digits
    else b'0' ∷ digits

-- `"%s\t%#03o\t%s\n"` and `"%s\t%#03o\n"`, without the newline.
unfoldable pub list_line : FileEntry → Bytes
list_line e =
    e.path
    ++ b'\t' ∷ print_mode e.mode (elim e.link_target [ none ↦ [] | some target ↦ b'\t' ∷ target ])

-- What `aept_ar_file_list_write` writes.
unfoldable pub file_list_write : List FileEntry → Bytes
file_list_write [] = []
file_list_write (e ∷ es) = list_line e ++ b'\n' ∷ file_list_write es
