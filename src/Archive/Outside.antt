-- ===== src/Archive/Outside.antt =====
-- What an extraction cannot reach: the files that are not below its prefix.
use mathlib.Core.Path.{subst}
use aept.Base.{
  ℕ, zero, suc, ◌≡◌, refl, sym, ◌∙◌, inl, inr, Bool, true, false, none, some, not, ◌&&◌, Option,
  Bool-cases, Option-cases,
}
use aept.Text.Strings.{Bytes}
use aept.Files.{FilePath, Code-cases}
use aept.Util.{archive_path_is_safe}
use aept.Archive.{Entry, rewrite_all_paths}
use aept.Archive.Inside.{IsBelow, safe_join-IsBelow}
use aept.Archive.Reader.{
  Member, Reader, Next-cases, next_header, attempts, rounds, ExtractFlags, Libarchive, OpenArchive,
}
use aept.Archive.Extract.{
  Extraction, is_conffile, with_suffix, flags_for, write_member, extract_member, extract_loop,
  do_extract_all, has_conffiles, extract_all,
}
use aept.Archive.Writes.{
  Reaches, WritesItsEntry, IsOpened, IsOpened-secure, flags_for_secure, rewrite_all_paths-pathname,
  rewrite_all_paths-hardlink,
}

-- Nothing that is done at a name below the prefix, or at such a name with the suffix, reaches the file.
abbrev pub IsOutside : (FilePath → FilePath → Type 0) → Bytes → Option Bytes → FilePath → Type 0
IsOutside linked dest cf_suffix q =
    (p : Bytes) (is_cf : Bool)
    → IsBelow dest p
    → Reaches linked q (with_suffix is_cf cf_suffix p)
    → ⊥

with_suffix-plain : (cf_suffix : Option Bytes) (p : Bytes) → with_suffix false cf_suffix p ≡ p
with_suffix-plain none p = refl
with_suffix-plain (some suffix) p = refl

module _ (lib : Libarchive) (dest : Bytes) (flags : ExtractFlags) (cf_suffix : Option Bytes)
    (linked : FilePath → FilePath → Type 0) (q : FilePath) (law : WritesItsEntry lib linked)
    (secure : flags.secure_symlinks ≡ true) (out : IsOutside linked dest cf_suffix q) where
  write_member_outside :
      (is_cf : Bool) (m : Member) (e : Entry) (s : Extraction)
      → rewrite_all_paths m.entry (some dest) ≡ some e
      → (write_member lib flags cf_suffix is_cf m e s).1.files q ≡ s.files q
  unfolding write_member
  write_member_outside is_cf m e s joined =
      let target : Member = record m {
        entry = record e { pathname = with_suffix is_cf cf_suffix e.pathname };
      } in
      let below =
        safe_join-IsBelow dest m.entry.pathname e.pathname
          (rewrite_all_paths-pathname m.entry e dest joined) in
      let kept =
        law (flags_for is_cf flags) target s.files q (flags_for_secure is_cf flags secure)
          (out e.pathname is_cf below)
          (λ p k reached.
            (let (hl, link, put) = rewrite_all_paths-hardlink m.entry e dest p joined k in
              out p false (safe_join-IsBelow dest hl p put)
                (subst (Reaches linked q) (sym (with_suffix-plain cf_suffix p)) reached))) in
      elim (Bool-cases (lib.extract2 (flags_for is_cf flags) target s.files).0) [
        | inr f ↦ rw f kept
        | inl t ↦ rw t kept
      ]

  extract_member_outside :
      (m : Member) (s : Extraction)
      → (extract_member lib dest flags cf_suffix m s).1.files q ≡ s.files q
  unfolding extract_member
  extract_member_outside m s = elim (Bool-cases (archive_path_is_safe (some m.entry.pathname))) [
    | inr unsafe ↦ rw unsafe refl
    | inl safe ↦ elim (Option-cases (rewrite_all_paths m.entry (some dest))) [
      | inl gone ↦ rw (safe, gone) refl
      | inr (e, there) ↦
          rw (safe, there)
            (write_member_outside (is_conffile s.conffiles m.entry.pathname).0 m e
              (record s { conffiles = (is_conffile s.conffiles m.entry.pathname).1 }) there)
    ]
  ]

  extract_loop_outside :
      (f : ℕ) (r : Reader) (s : Extraction)
      → (extract_loop lib dest flags cf_suffix f r s).1.files q ≡ s.files q
  unfolding extract_loop
  extract_loop_outside zero r s = refl
  extract_loop_outside (suc f) r s = elim (Next-cases (next_header attempts r)) [
    | inl t ↦ rw (t, extract_loop) refl
    | inr (inl t) ↦ rw (t, extract_loop) refl
    | inr (inr (m, r', t)) ↦
        rw (t, extract_loop)
          (let s' = (extract_member lib dest flags cf_suffix m s).1 in
            elim (Code-cases (extract_member lib dest flags cf_suffix m s).0) [
              | inr bad ↦ rw (bad, extract_loop) (extract_member_outside m s)
              | inl done ↦
                  rw (done, extract_loop)
                    (extract_loop_outside f r' s' ∙ extract_member_outside m s)
            ])
  ]

  do_extract_all_outside :
      (r : Reader) (s : Extraction)
      → (do_extract_all lib dest flags cf_suffix r s).1.files q ≡ s.files q
  unfolding do_extract_all
  do_extract_all_outside r s = elim (Bool-cases (lib.disk_writer flags)) [
    | inr t ↦ rw t refl
    | inl t ↦
        elim (Bool-cases
          (has_conffiles s.conffiles && not (lib.disk_writer (flags_for true flags)))) [
            | inl u ↦ rw (t, u) refl
            | inr u ↦ rw (t, u) (extract_loop_outside (rounds r) r s)
          ]
  ]

-- The extraction of a package's control or data archive below a prefix, however it ends, changes no file
-- that nothing done at the names below the prefix, or at these with the suffix, may reach. It is assumed
-- of libarchive that, where it is told to refuse symbolic links, it changes only what an entry's
-- pathname and its hard link reach.
pub extract_all_outside :
    (lib : Libarchive) (ar : OpenArchive) (prefix : Bytes) (cf_suffix : Option Bytes)
    (linked : FilePath → FilePath → Type 0) (q : FilePath) (s : Extraction)
    → WritesItsEntry lib linked
    → IsOpened lib ar
    → IsOutside linked prefix cf_suffix q
    → (extract_all lib ar prefix cf_suffix s).1.files q ≡ s.files q
extract_all_outside lib ar prefix cf_suffix linked q s law opened out =
    do_extract_all_outside lib prefix ar.extract_flags cf_suffix linked q law
      (IsOpened-secure lib ar opened) out ar.reader s
