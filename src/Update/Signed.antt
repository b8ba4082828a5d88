-- ===== src/Update/Signed.antt =====
-- Which lists an update leaves.
use aept.Base.{
  ◌≡◌, ◌≢◌, refl, sym, ap, ◌∙◌, ◌⊎◌, inl, inr, ℕ, zero, suc, Bool, true, false, Option, none, List,
  [], ◌∷◌, ◌++◌, arith, Bool-cases,
}
use aept.Text.Strings.{Bytes, codes}
use aept.Files.{FilePath, Files, success, failure, Code-cases, unlink, unlink_self, unlink_other}
use aept.Config.{Source, Config}
use aept.Download.{download}
use aept.Download.Verified.{download_outcome}
use aept.Update.{
  Outside, code_of, verify_signature, list_of, sig_of, fetch_list, check_list, update_source,
  update_all, prune_stale_lists, op_update,
}

pub suffixed_ne : (p : FilePath) (c : ℕ) (cs : Bytes) → p ++ c ∷ cs ≢ p
suffixed_ne [] c cs h = cc
suffixed_ne (d ∷ ds) c cs h = suffixed_ne ds c cs (cc)

-- The signature that lies beside the list is accepted by usign.
abbrev pub IsSigned : Outside → FilePath → Files → Type 0
IsSigned out path fs = verify_signature out path (sig_of path) fs ≡ success

check_list-IsSigned :
    (out : Outside) (src : Source) (path : FilePath) (fs : Files)
    → (check_list out src path fs).0 ≡ success
    → IsSigned out path (check_list out src path fs).1
unfolding check_list
check_list-IsSigned out src path fs =
    let (code, fetched) =
      download (out.transfer (src.url ++ codes "/Packages.sig") (sig_of path)) (sig_of path) fs in
    elim (Code-cases code) [
      | inr bad ↦ rw (bad, check_list) (λ h. cc)
      | inl got ↦ elim (Code-cases (verify_signature out path (sig_of path) fetched)) [
        | inr bad ↦ rw (got, bad, check_list) (λ h. cc)
        | inl good ↦ rw (got, good, check_list) (λ h. good)
      ]
    ]

pub check_list-gone :
    (out : Outside) (src : Source) (path : FilePath) (fs : Files)
    → (check_list out src path fs).0 ≡ failure
    → (check_list out src path fs).1 path ≡ none
unfolding check_list
check_list-gone out src path fs =
    let (code, fetched) =
      download (out.transfer (src.url ++ codes "/Packages.sig") (sig_of path)) (sig_of path) fs in
    elim (Code-cases code) [
      | inr bad ↦ rw (bad, check_list) (λ h. unlink_self path fetched)
      | inl got ↦ elim (Code-cases (verify_signature out path (sig_of path) fetched)) [
        | inl good ↦ rw (got, good, check_list) (λ h. cc)
        | inr bad ↦
            rw (got, bad, check_list)
              (λ h.
                unlink_other (sig_of path) path (unlink path fetched)
                  (suffixed_ne path b'.' (codes "sig"))
                ∙ unlink_self path fetched)
      ]
    ]

update_source-IsSigned :
    (out : Outside) (cfg : Config) (src : Source) (fs : Files)
    → cfg.check_signature ≡ true
    → (update_source out cfg src fs).0 ≡ success
    → IsSigned out (list_of cfg src.name) (update_source out cfg src fs).1
unfolding update_source
update_source-IsSigned out cfg src fs on =
    let path = list_of cfg src.name in
    elim (Code-cases (fetch_list out src path fs).0) [
      | inr bad ↦ rw (bad, update_source) (λ h. cc)
      | inl got ↦
          rw (got, on, update_source)
            (check_list-IsSigned out src path (fetch_list out src path fs).1)
    ]

fetch_list_plain :
    (out : Outside) (src : Source) (path : FilePath) (fs : Files)
    → src.gzip ≡ false
    → fetch_list out src path fs
      ≡ download (out.transfer (src.url ++ codes "/Packages") path) path fs
unfolding fetch_list
fetch_list_plain out src path fs plain = ground arith

-- Where signatures are checked and the list is not compressed, a source that cannot be updated has no
-- list, or the one that it had before: what was downloaded and not verified does not stay.
pub update_source_failure :
    (out : Outside) (cfg : Config) (src : Source) (fs : Files)
    → cfg.check_signature ≡ true
    → src.gzip ≡ false
    → (update_source out cfg src fs).0 ≡ failure
    → ((update_source out cfg src fs).1 (list_of cfg src.name) ≡ none)
      ⊎ ((update_source out cfg src fs).1 (list_of cfg src.name) ≡ fs (list_of cfg src.name))
unfolding update_source
update_source_failure out cfg src fs on plain =
    let path = list_of cfg src.name in
    let t = out.transfer (src.url ++ codes "/Packages") path in
    let same = fetch_list_plain out src path fs plain in
    elim (Code-cases (fetch_list out src path fs).0) [
      | inr bad ↦
          rw (bad, update_source)
            (λ h. inr (
              ap (λ r. r.1 path) same
              ∙ (download_outcome t path fs).1 (sym (ap (λ r. r.0) same) ∙ bad)))
      | inl got ↦
          rw (got, on, update_source)
            (λ h. inl (check_list-gone out src path (fetch_list out src path fs).1 h))
    ]

-- Each source in turn is updated without an error, and where signatures are checked its list is signed
-- then.
abbrev pub Updated : Outside → Config → List Source → Files → Files → Type 0
Updated out cfg [] fs last = fs ≡ last
Updated out cfg (src ∷ srcs) fs last =
    ((update_source out cfg src fs).0 ≡ success)
    × (cfg.check_signature ≡ true
        → IsSigned out (list_of cfg src.name) (update_source out cfg src fs).1)
    × Updated out cfg srcs (update_source out cfg src fs).1 last

update_all-Updated :
    (out : Outside) (cfg : Config) (cancelled : ℕ → Bool) (i : ℕ) (srcs : List Source) (fs : Files)
    → (update_all out cfg cancelled i srcs fs).0 ≡ 0
    → Updated out cfg srcs fs (update_all out cfg cancelled i srcs fs).1
unfolding update_all
update_all-Updated out cfg cancelled i [] fs = λ h. refl
update_all-Updated out cfg cancelled i (src ∷ srcs) fs = elim (Bool-cases (cancelled i)) [
  | inl stop ↦ rw (stop, update_all) (λ h. absurd (omega arith))
  | inr on ↦ elim (Code-cases (update_source out cfg src fs).0) [
    | inr bad ↦ rw (on, bad, update_all) (λ h. absurd (omega arith))
    | inl ok ↦
        rw (on, ok, update_all)
          (λ h. (
            refl,
            (λ flag. update_source-IsSigned out cfg src fs flag ok),
            update_all-Updated out cfg cancelled (suc i) srcs (update_source out cfg src fs).1 h,
          ))
  ]
]

pub code_of_success : (n : ℕ) → code_of n ≡ success → n ≡ 0
code_of_success zero h = refl
code_of_success (suc n) h = cc

-- If `aept_op_update` reports success, each configured source was updated, in order, without an error
-- and, where signatures are checked, with a list that usign accepts; then the stale lists were removed.
pub op_update-Updated :
    (out : Outside) (cfg : Config) (cancelled : ℕ → Bool) (entries : Files → Option (List Bytes))
    (fs : Files)
    → (op_update out cfg cancelled entries fs).0 ≡ success
    → (updated : Files) × Updated out cfg cfg.sources fs updated
      × ((op_update out cfg cancelled entries fs).1
          ≡ prune_stale_lists cfg (entries updated) updated)
unfolding op_update
op_update-Updated out cfg cancelled entries fs h =
    let run = update_all out cfg cancelled 0 cfg.sources fs in
    (run.1, update_all-Updated out cfg cancelled 0 cfg.sources fs (code_of_success run.0 h), refl)
