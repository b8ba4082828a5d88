-- ===== src/Update.antt =====
-- src/update.c, src/verify.c and src/clean.c: the lists of packages are downloaded and their signatures
-- verified, the lists of sources that are no longer configured are removed, and so is the cache.
pub mod Signed
pub mod Unpacked
pub mod Stale
mod Tests
use aept.Base.{
  ℕ, zero, suc, Bool, true, false, not, ◌&&◌, ◌||◌, Option, none, some, List, [], ◌∷◌, ◌++◌, ◌-◌,
  ltb, if◌then◌else◌, length, take, drop, any,
}
use aept.Text.Strings.{Bytes, codes, str_eq}
use aept.Files.{FilePath, Files, Code, success, failure, write, unlink}
use aept.Config.{Source, Config}
use aept.Process.{Waited, exited, signaled, stopped, interrupted, wait_failed}
use aept.Download.{Transfer, download}

-- What `archive_read_data` answers: bytes, which `fwrite` takes or not, or an error; behind the list is
-- the end of the data.
pub data DataRead : Type 0 where
  block : Bytes → Bool → DataRead
  corrupt : DataRead

-- `stream_entry`: what it writes, and its result.
unfoldable pub stream_entry : List DataRead → Bytes × Code
stream_entry [] = ([], success)
stream_entry (d ∷ ds) =
    let (text, code) = stream_entry ds in
    elim d [
      | corrupt ↦ ([], failure)
      | block bytes written ↦ if written then (bytes ++ text, code) else ([], failure)
    ]

-- What an update finds outside: the transfer of a URL to a file, the data in a compressed file (`none`
-- where it cannot be opened), the calls of `fopen` and `fclose` on the list that fail, and the answers
-- of `waitpid` for usign on a list and a signature (`none` where `fork` fails).
pub record Outside : Type 0 where
  pub transfer : Bytes → FilePath → Transfer
  pub gunzip : Bytes → Option (List DataRead)
  pub open_fails : FilePath → Bool
  pub close_fails : FilePath → Bool
  pub usign : FilePath → FilePath → Files → Option (List Waited)

unfoldable pub decompress_gz : Outside → FilePath → FilePath → Files → Code × Files
decompress_gz out gz_path out_path fs = elim (fs gz_path) [
  | none ↦ (failure, fs)
  | some gz ↦ elim (out.gunzip gz) [
    | none ↦ (failure, fs)
    | some reads ↦
        if out.open_fails out_path
        then (failure, fs)
        else let (text, code) = stream_entry reads in
          (if out.close_fails out_path then failure else code, write out_path text fs)
  ]
]

-- `n ? -1 : 0`.
abbrev pub code_of : ℕ → Code
code_of zero = success
code_of (suc n) = failure

-- The loop around `waitpid` of `aept_verify_signature`, and its end; behind the list nothing comes.
unfoldable pub verify_loop : List Waited → Code
verify_loop [] = failure
verify_loop (w ∷ ws) = elim w [
  | interrupted ↦ verify_loop ws
  | exited n ↦ code_of n
  | signaled ↦ failure
  | stopped ↦ failure
  | wait_failed ↦ failure
]

unfoldable pub verify_signature : Outside → FilePath → FilePath → Files → Code
verify_signature out file sigfile fs = elim (out.usign file sigfile fs) [
  | none ↦ failure
  | some ws ↦ verify_loop ws
]

abbrev pub list_of : Config → Bytes → FilePath
list_of cfg name = cfg.lists_dir ++ b'/' ∷ name

abbrev pub sig_of : FilePath → FilePath
sig_of path = path ++ codes ".sig"

abbrev pub gz_of : FilePath → FilePath
gz_of path = path ++ codes ".gz"

-- `url/Packages.gz` is downloaded beside the list, unpacked to it, and removed.
unfoldable pub fetch_gzip : Outside → Source → FilePath → Files → Code × Files
fetch_gzip out src list_path fs =
    let (code, fetched) =
      download (out.transfer (src.url ++ codes "/Packages.gz") (gz_of list_path)) (gz_of list_path)
        fs in
    elim code [
      | failure ↦ (failure, fetched)
      | success ↦
          let (unpacked, after) = decompress_gz out (gz_of list_path) list_path fetched in
          (unpacked, unlink (gz_of list_path) after)
    ]

unfoldable pub fetch_list : Outside → Source → FilePath → Files → Code × Files
fetch_list out src list_path fs =
    if src.gzip
    then fetch_gzip out src list_path fs
    else download (out.transfer (src.url ++ codes "/Packages") list_path) list_path fs

-- The signature is downloaded and verified; where that fails the list is removed.
unfoldable pub check_list : Outside → Source → FilePath → Files → Code × Files
check_list out src list_path fs =
    let (code, fetched) =
      download (out.transfer (src.url ++ codes "/Packages.sig") (sig_of list_path))
        (sig_of list_path) fs in
    elim code [
      | failure ↦ (failure, unlink list_path fetched)
      | success ↦ elim (verify_signature out list_path (sig_of list_path) fetched) [
        | success ↦ (success, fetched)
        | failure ↦ (failure, unlink (sig_of list_path) (unlink list_path fetched))
      ]
    ]

-- The body of the loop of `aept_op_update`: `failure` where it counts an error.
unfoldable pub update_source : Outside → Config → Source → Files → Code × Files
update_source out cfg src fs =
    let (code, fetched) = fetch_list out src (list_of cfg src.name) fs in
    elim code [
      | failure ↦ (failure, fetched)
      | success ↦
          if cfg.check_signature
          then check_list out src (list_of cfg src.name) fetched
          else (success, fetched)
    ]

-- The loop; `cancelled i` is the answer of `aept_cancelled` in round `i`. The number of errors.
unfoldable pub update_all : Outside → Config → (ℕ → Bool) → ℕ → List Source → Files → ℕ × Files
update_all out cfg cancelled i [] fs = (0, fs)
update_all out cfg cancelled i (src ∷ srcs) fs = elim (cancelled i) [
  | true ↦ (1, fs)
  | false ↦
      let (code, after) = update_source out cfg src fs in
      let (errors, last) = update_all out cfg cancelled (suc i) srcs after in
      elim code [ success ↦ (errors, last) | failure ↦ (suc errors, last) ]
]

-- The name of the source that a file in the directory of the lists is about.
abbrev pub base_of : Bytes → Bytes
base_of name =
    if ltb 4 (length name) && str_eq (drop (length name - 4) name) (codes ".sig")
    then take (length name - 4) name
    else name

abbrev pub is_active_source : Config → Bytes → Bool
is_active_source cfg name = any (λ src. str_eq name src.name) cfg.sources

abbrev pub is_dots : Bytes → Bool
is_dots name = str_eq name (codes ".") || str_eq name (codes "..")

-- One name in the directory of the lists.
unfoldable pub prune_entry : Config → Bytes → Files → Files
prune_entry cfg name fs =
    if is_dots name
    then fs
    else if is_active_source cfg (base_of name)
    then fs
    else unlink (list_of cfg name) fs

abbrev pub prune_names : Config → List Bytes → Files → Files
prune_names cfg [] fs = fs
prune_names cfg (n ∷ ns) fs = prune_names cfg ns (prune_entry cfg n fs)

-- `none` where the directory cannot be opened.
abbrev pub prune_stale_lists : Config → Option (List Bytes) → Files → Files
prune_stale_lists cfg none fs = fs
prune_stale_lists cfg (some names) fs = prune_names cfg names fs

-- `entries` is what the directory lists when the loop is over.
unfoldable pub op_update :
    Outside → Config → (ℕ → Bool) → (Files → Option (List Bytes)) → Files → Code × Files
op_update out cfg cancelled entries fs =
    let (errors, updated) = update_all out cfg cancelled 0 cfg.sources fs in
    (code_of errors, prune_stale_lists cfg (entries updated) updated)

-- The loop of `aept_op_clean` over the directory of the cache.
unfoldable pub clean_names : (FilePath → Bool) → Config → List Bytes → Files → ℕ × Files
clean_names unlink_fails cfg [] fs = (0, fs)
clean_names unlink_fails cfg (n ∷ ns) fs =
    let path = cfg.cache_dir ++ b'/' ∷ n in
    if is_dots n
    then clean_names unlink_fails cfg ns fs
    else if unlink_fails path
    then (let (errors, last) = clean_names unlink_fails cfg ns fs in (suc errors, last))
    else clean_names unlink_fails cfg ns (unlink path fs)

-- What `opendir` gives: the names, ENOENT, or another error.
pub data Opened : Type 0 where
  listing : List Bytes → Opened
  missing refused : Opened

unfoldable pub op_clean : (FilePath → Bool) → Config → Opened → Files → Code × Files
op_clean unlink_fails cfg missing fs = (success, fs)
op_clean unlink_fails cfg refused fs = (failure, fs)
op_clean unlink_fails cfg (listing names) fs =
    let (errors, last) = clean_names unlink_fails cfg names fs in (code_of errors, last)
