-- ===== src/Archive/Fuel.antt =====
-- The loops over the headers of an archive end by themselves: the fuel that they are given is enough.
use aept.Base.{
  ℕ, zero, suc, ◌<◌, ◌≡◌, refl, inl, inr, Option, some, List, [], ◌∷◌, ◌++◌, arith, Bool-cases,
  Option-cases, length,
}
use aept.Text.Strings.{Bytes, strip_prefix}
use aept.Files.{Code-cases}
use aept.Util.{archive_path_is_safe}
use aept.Archive.Reader.{
  Member, Reader, good, warned, ended, retry, fatal, entry, Next-cases, next_header, attempts,
  ExtractFlags, Libarchive, skip_dot_slash, seek_member,
}
use aept.Archive.Extract.{FileEntry, is_dir_entry, Extraction, extract_member, extract_loop}
use aept.Archive.Listing.{listed_entry, list_loop}

-- An entry takes a header at least.
next_header_shorter :
    (k : ℕ) (r r' : Reader) (m : Member) → next_header k r ≡ entry m r' → length r' < length r
unfolding next_header
next_header_shorter zero r r' m h = cc
next_header_shorter (suc k) [] r' m h = cc
next_header_shorter (suc k) (good x ∷ r) r' m h = let e : r ≡ r' = cc in rw (← e) (omega arith)
next_header_shorter (suc k) (warned x ∷ r) r' m h = let e : r ≡ r' = cc in rw (← e) (omega arith)
next_header_shorter (suc k) (ended ∷ r) r' m h = cc
next_header_shorter (suc k) (retry ∷ r) r' m h = omega (arith, next_header_shorter k r r' m h)
next_header_shorter (suc k) (fatal ∷ r) r' m h = cc

-- Any two amounts of fuel above the number of headers give the extraction the same end.
pub extract_loop_fuel :
    (lib : Libarchive) (dest : Bytes) (flags : ExtractFlags) (suffix : Option Bytes) (f g : ℕ)
    (r : Reader) (s : Extraction)
    → length r < f
    → length r < g
    → extract_loop lib dest flags suffix f r s ≡ extract_loop lib dest flags suffix g r s
unfolding extract_loop
extract_loop_fuel lib dest flags suffix zero g r s h k = absurd (omega arith)
extract_loop_fuel lib dest flags suffix (suc f) zero r s h k = absurd (omega arith)
extract_loop_fuel lib dest flags suffix (suc f) (suc g) r s h k =
    elim (Next-cases (next_header attempts r)) [
      | inl t ↦ rw (t, extract_loop) refl
      | inr (inl t) ↦ rw (t, extract_loop) refl
      | inr (inr (m, r', t)) ↦
          let less = next_header_shorter attempts r r' m t in
          rw (t, extract_loop)
            (elim (Code-cases (extract_member lib dest flags suffix m s).0) [
              | inr bad ↦ rw (bad, extract_loop) refl
              | inl done ↦
                  rw (done, extract_loop)
                    (extract_loop_fuel lib dest flags suffix f g r'
                      (extract_member lib dest flags suffix m s).1 (omega arith) (omega arith))
            ])
    ]

-- So they give the listing of the data's paths.
pub list_loop_fuel :
    (f g : ℕ) (r : Reader) (out : List FileEntry)
    → length r < f
    → length r < g
    → list_loop f r out ≡ list_loop g r out
unfolding list_loop
list_loop_fuel zero g r out h k = absurd (omega arith)
list_loop_fuel (suc f) zero r out h k = absurd (omega arith)
list_loop_fuel (suc f) (suc g) r out h k = elim (Next-cases (next_header attempts r)) [
  | inl t ↦ rw (t, list_loop) refl
  | inr (inl t) ↦ rw (t, list_loop) refl
  | inr (inr (m, r', t)) ↦
      let less = next_header_shorter attempts r r' m t in
      rw (t, list_loop)
        (elim (Bool-cases (is_dir_entry m.mode)) [
          | inl dir ↦ rw (dir, list_loop) (list_loop_fuel f g r' out (omega arith) (omega arith))
          | inr file ↦ elim (Bool-cases (archive_path_is_safe (some m.entry.pathname))) [
            | inr unsafe ↦ rw (file, unsafe, list_loop) refl
            | inl safe ↦
                rw (file, safe, list_loop)
                  (list_loop_fuel f g r' (out ++ listed_entry m ∷ []) (omega arith) (omega arith))
          ]
        ])
]

-- And the search for a member.
pub seek_member_fuel :
    (f g : ℕ) (r : Reader) (prefix : Bytes)
    → length r < f
    → length r < g
    → seek_member f r prefix ≡ seek_member g r prefix
unfolding seek_member
seek_member_fuel zero g r prefix h k = absurd (omega arith)
seek_member_fuel (suc f) zero r prefix h k = absurd (omega arith)
seek_member_fuel (suc f) (suc g) r prefix h k = elim (Next-cases (next_header attempts r)) [
  | inl t ↦ rw (t, seek_member) refl
  | inr (inl t) ↦ rw (t, seek_member) refl
  | inr (inr (m, r', t)) ↦
      let less = next_header_shorter attempts r r' m t in
      rw (t, seek_member)
        (elim (Option-cases (strip_prefix prefix (skip_dot_slash m.entry.pathname))) [
          | inr (rest, found) ↦ rw (found, seek_member) refl
          | inl other ↦
              rw (other, seek_member) (seek_member_fuel f g r' prefix (omega arith) (omega arith))
        ])
]
