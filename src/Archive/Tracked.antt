-- ===== src/Archive/Tracked.antt =====
-- What an extraction changes on the disk: the files that it records, and nothing outside the prefix.
use mathlib.Core.Path.{subst}
use aept.Base.{
  All-append, All-left, All-right, ℕ, zero, suc, ◌≡◌, refl, ap, sym, ◌∙◌, inl, inr, Bool, true, not,
  ◌&&◌, Option, none, some, List, [], ◌∷◌, ◌++◌, arith, Bool-cases, Option-cases, All, append_assoc,
  append-nil,
}
use aept.Text.Strings.{Bytes}
use aept.Files.{FilePath, Files, Code, success, Code-cases}
use aept.Util.{archive_path_is_safe}
use aept.Fileset.{Fileset}
use aept.Archive.{Entry, safe_join, rewrite_all_paths}
use aept.Archive.Reader.{
  Member, Reader, Header, good, warned, ended, retry, fatal, entry, Next-cases, next_header,
  attempts, rounds, ExtractFlags, Libarchive, OpenArchive,
}
use aept.Archive.Writes.{
  Reaches, WritesItsEntry, IsOpened, IsOpened-secure, flags_for_secure, rewrite_all_paths-pathname,
  rewrite_all_paths-hardlink,
}
use aept.Archive.Extract.{
  FileEntry, kept_entry, Extraction, is_conffile, with_suffix, flags_for, write_member,
  extract_member, extract_loop, do_extract_all, has_conffiles, extract_all,
}

-- Nothing that is done where an entry is extracted to, with the suffix or without, reaches the file `q`.
abbrev pub IsApart :
    (FilePath → FilePath → Type 0) → Bytes → Option Bytes → FilePath → FileEntry → Type 0
IsApart linked dest cf_suffix q e =
    (p : Bytes) (is_cf : Bool)
    → safe_join (some dest) e.path ≡ some p
    → Reaches linked q (with_suffix is_cf cf_suffix p)
    → ⊥

-- The list that is recorded so far, none where there is no list.
abbrev pub recorded_of : Option (List FileEntry) → List FileEntry
recorded_of none = []
recorded_of (some es) = es

-- What is done at the target of a hard link of the archive does not reach `q`.
abbrev pub SparesLink : (FilePath → FilePath → Type 0) → Bytes → FilePath → Member → Type 0
SparesLink linked dest q m =
    (hl p : Bytes)
    → m.entry.hardlink ≡ some hl
    → safe_join (some dest) hl ≡ some p
    → Reaches linked q p
    → ⊥

abbrev pub OfMember : (Member → Type 0) → Header → Type 0
OfMember P (good m) = P m
OfMember P (warned m) = P m
OfMember P ended = Unit
OfMember P retry = Unit
OfMember P fatal = Unit

All-next_header :
    (P : Member → Type 0) (k : ℕ) (r r' : Reader) (m : Member)
    → All (OfMember P) r
    → next_header k r ≡ entry m r'
    → P m × All (OfMember P) r'
unfolding next_header
All-next_header P zero r r' m h = λ e. cc
All-next_header P (suc k) [] r' m h = λ e. cc
All-next_header P (suc k) (good x ∷ r) r' m h = λ e.
    let f : x ≡ m = cc in let g : r ≡ r' = cc in (subst P f h.0, subst (All (OfMember P)) g h.1)
All-next_header P (suc k) (warned x ∷ r) r' m h = λ e.
    let f : x ≡ m = cc in let g : r ≡ r' = cc in (subst P f h.0, subst (All (OfMember P)) g h.1)
All-next_header P (suc k) (ended ∷ r) r' m h = λ e. cc
All-next_header P (suc k) (retry ∷ r) r' m h = All-next_header P k r r' m h.1
All-next_header P (suc k) (fatal ∷ r) r' m h = λ e. cc

-- From a list `es` and files `fs` the loop has come to `s'`: the list has grown by safe paths, and a
-- file that is apart from these is as it was.
pub record Tracks (linked : FilePath → FilePath → Type 0) (dest : Bytes) (cf_suffix : Option Bytes)
    (q : FilePath) (es : List FileEntry) (fs : Files) (s' : Extraction) : Type 0 where
  pub extra : List FileEntry
  pub grown : s'.recorded ≡ some (es ++ extra)
  pub safe : All (λ e. archive_path_is_safe (some e.path) ≡ true) extra
  pub untouched : All (IsApart linked dest cf_suffix q) extra → s'.files q ≡ fs q

module _ (lib : Libarchive) (dest : Bytes) (flags : ExtractFlags) (cf_suffix : Option Bytes)
    (linked : FilePath → FilePath → Type 0) (q : FilePath) (law : WritesItsEntry lib linked)
    (secure : flags.secure_symlinks ≡ true) where
  write_member-Tracks :
      (is_cf : Bool) (m : Member) (e : Entry) (s : Extraction) (es : List FileEntry)
      → archive_path_is_safe (some m.entry.pathname) ≡ true
      → safe_join (some dest) m.entry.pathname ≡ some e.pathname
      → ((p : FilePath) → e.hardlink ≡ some p → Reaches linked q p → ⊥)
      → s.recorded ≡ some es
      → (write_member lib flags cf_suffix is_cf m e s).0 ≡ success
      → Tracks linked dest cf_suffix q es s.files (write_member lib flags cf_suffix is_cf m e s).1
  unfolding write_member
  write_member-Tracks is_cf m e s es safe joined spares r =
      let target : Member = record m {
        entry = record e { pathname = with_suffix is_cf cf_suffix e.pathname };
      } in
      let kept = λ (n : Reaches linked q target.entry.pathname → ⊥).
        law (flags_for is_cf flags) target s.files q (flags_for_secure is_cf flags secure) n
          spares in
      elim (Bool-cases (lib.extract2 (flags_for is_cf flags) target s.files).0) [
        | inr f ↦ rw f (λ h. cc)
        | inl t ↦ rw t (λ h. record {
          extra = kept_entry m ∷ [];
          grown = rw r refl;
          safe = (safe, tt);
          untouched = λ apart. kept (apart.0 e.pathname is_cf joined);
        })
      ]

  extract_member-Tracks :
      (m : Member) (s : Extraction) (es : List FileEntry)
      → SparesLink linked dest q m
      → s.recorded ≡ some es
      → (extract_member lib dest flags cf_suffix m s).0 ≡ success
      → Tracks linked dest cf_suffix q es s.files (extract_member lib dest flags cf_suffix m s).1
  unfolding extract_member
  extract_member-Tracks m s es spares r =
      elim (Bool-cases (archive_path_is_safe (some m.entry.pathname))) [
        | inr unsafe ↦ rw unsafe (λ h. cc)
        | inl safe ↦ elim (Option-cases (rewrite_all_paths m.entry (some dest))) [
          | inl gone ↦
              rw (safe, gone)
                (λ h. record {
                  extra = [];
                  grown = rw append-nil r;
                  safe = tt;
                  untouched = λ apart. refl;
                })
          | inr (e, there) ↦
              rw (safe, there)
                (write_member-Tracks (is_conffile s.conffiles m.entry.pathname).0 m e
                  (record s { conffiles = (is_conffile s.conffiles m.entry.pathname).1 }) es safe
                  (rewrite_all_paths-pathname m.entry e dest there)
                  (λ p k sh.
                    (let (hl, link, joined) = rewrite_all_paths-hardlink m.entry e dest p there k in
                      spares hl p link joined sh))
                  r)
        ]
      ]

  Tracks-trans :
      (es : List FileEntry) (fs : Files) (s' s'' : Extraction)
      (k : Tracks linked dest cf_suffix q es fs s')
      → Tracks linked dest cf_suffix q (es ++ k.extra) s'.files s''
      → Tracks linked dest cf_suffix q es fs s''
  Tracks-trans es fs s' s'' k l = record {
    extra = k.extra ++ l.extra;
    grown = l.grown ∙ ap some (append_assoc es k.extra l.extra);
    safe = All-append _ k.extra l.extra k.safe l.safe;
    untouched = λ apart.
        l.untouched (All-right _ k.extra l.extra apart)
        ∙ k.untouched (All-left _ k.extra l.extra apart);
  }

  extract_loop-Tracks :
      (f : ℕ) (r : Reader) (s : Extraction) (es : List FileEntry)
      → All (OfMember (SparesLink linked dest q)) r
      → s.recorded ≡ some es
      → (extract_loop lib dest flags cf_suffix f r s).0 ≡ success
      → Tracks linked dest cf_suffix q es s.files (extract_loop lib dest flags cf_suffix f r s).1
  unfolding extract_loop
  extract_loop-Tracks zero r s es spared h = λ ok. cc
  extract_loop-Tracks (suc f) r s es spared h = elim (Next-cases (next_header attempts r)) [
    | inl t ↦
        rw (t, extract_loop)
          (λ ok. record {
            extra = [];
            grown = rw append-nil h;
            safe = tt;
            untouched = λ apart. refl;
          })
    | inr (inl t) ↦ rw (t, extract_loop) (λ ok. cc)
    | inr (inr (m, r', t)) ↦
        rw (t, extract_loop)
          (elim (Code-cases (extract_member lib dest flags cf_suffix m s).0) [
            | inr bad ↦ rw (bad, extract_loop) (λ ok. cc)
            | inl done ↦
                let s' = (extract_member lib dest flags cf_suffix m s).1 in
                let (first, later) =
                  All-next_header (SparesLink linked dest q) attempts r r' m spared t in
                let k = extract_member-Tracks m s es first h done in
                rw (done, extract_loop)
                  (λ ok.
                    Tracks-trans es s.files s' _ k
                      (extract_loop-Tracks f r' s' (es ++ k.extra) later k.grown ok))
          ])
  ]

abbrev pub starting : Option Fileset → Files → Extraction
starting conffiles fs = record { recorded = some []; conffiles = conffiles; files = fs }

-- What the call of `aept_ar_extract_all` with an empty list leaves.
abbrev pub extracted :
    Libarchive → OpenArchive → Bytes → Option Bytes → Option Fileset → Files → Code × Extraction
extracted lib ar prefix cf_suffix conffiles fs =
    extract_all lib ar prefix cf_suffix (starting conffiles fs)

do_extract_all-Tracks :
    (lib : Libarchive) (dest : Bytes) (flags : ExtractFlags) (cf_suffix : Option Bytes)
    (linked : FilePath → FilePath → Type 0) (r : Reader) (s : Extraction) (es : List FileEntry)
    (q : FilePath)
    → WritesItsEntry lib linked
    → flags.secure_symlinks ≡ true
    → All (OfMember (SparesLink linked dest q)) r
    → s.recorded ≡ some es
    → (do_extract_all lib dest flags cf_suffix r s).0 ≡ success
    → Tracks linked dest cf_suffix q es s.files (do_extract_all lib dest flags cf_suffix r s).1
unfolding do_extract_all
do_extract_all-Tracks lib dest flags cf_suffix linked r s es q law secure spared h =
    elim (Bool-cases (lib.disk_writer flags)) [
      | inr t ↦ rw t (λ ok. cc)
      | inl t ↦
          elim (Bool-cases
            (has_conffiles s.conffiles && not (lib.disk_writer (flags_for true flags)))) [
              | inl u ↦ rw (t, u) (λ ok. cc)
              | inr u ↦
                  rw (t, u)
                    (extract_loop-Tracks lib dest flags cf_suffix linked q law secure (rounds r) r s
                      es spared h)
            ]
    ]

-- A successful extraction of a package's control or data archive changes no file but those that what is
-- done where the recorded entries are extracted to, or at the targets of the archive's hard links,
-- may reach by their names or by the links on the disk; and every recorded path is one that
-- `aept_archive_path_is_safe` accepts. It is assumed of libarchive that, where it is told to refuse
-- symbolic links, it changes only what an entry's pathname and its hard link reach.
pub extract_all-IsTracked :
    (lib : Libarchive) (ar : OpenArchive) (prefix : Bytes) (cf_suffix : Option Bytes)
    (linked : FilePath → FilePath → Type 0) (conffiles : Option Fileset) (fs : Files) (q : FilePath)
    (es : List FileEntry)
    → WritesItsEntry lib linked
    → IsOpened lib ar
    → All (OfMember (SparesLink linked prefix q)) ar.reader
    → (extracted lib ar prefix cf_suffix conffiles fs).0 ≡ success
    → (extracted lib ar prefix cf_suffix conffiles fs).1.recorded ≡ some es
    → All (λ e. archive_path_is_safe (some e.path) ≡ true) es
      × (All (IsApart linked prefix cf_suffix q) es
          → (extracted lib ar prefix cf_suffix conffiles fs).1.files q ≡ fs q)
extract_all-IsTracked lib ar prefix cf_suffix linked conffiles fs q es law opened spared ok h =
    let k =
      do_extract_all-Tracks lib prefix ar.extract_flags cf_suffix linked ar.reader
        (starting conffiles fs) [] q law (IsOpened-secure lib ar opened) spared refl ok in
    let same : k.extra ≡ es = ground (arith, k.grown) in
    (
      subst (All (λ e. archive_path_is_safe (some e.path) ≡ true)) same k.safe,
      λ apart. k.untouched (subst (All (IsApart linked prefix cf_suffix q)) (sym same) apart),
    )
