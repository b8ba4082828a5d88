-- ===== src/Update/Tests.antt =====
-- Tests of src/update.c and src/clean.c, and instances of their theorems.
use aept.Base.{
  ◌≡◌, ◌⊎◌, refl, true, false, ◌&&◌, none, some, Option, List, [], ◌∷◌, if◌then◌else◌, any,
}
use aept.Text.Strings.{Bytes, codes, str_eq}
use aept.Files.{Files, success, failure, no_faults, unlink, rename, write}
use aept.Config.{Source, Config, config_defaults}
use aept.Process.{exited}
use aept.Download.{chunk, finished, receive, Transfer, download}
use aept.Update.{
  block, corrupt, stream_entry, Outside, verify_loop, verify_signature, list_of, fetch_list,
  fetch_gzip, check_list, decompress_gz, update_source, update_all, prune_entry, prune_names,
  prune_stale_lists, op_update,
}
use aept.Update.Signed.{Updated, op_update-Updated, update_source_failure}
use aept.Update.Stale.{is_stale, prune_names_lem}

abbrev main : Source
main = record { name = codes "main"; url = codes "https://example.org"; gzip = true }

abbrev plain : Source
plain = record main { gzip = false }

abbrev cfg : Config
cfg = record config_defaults { sources = main ∷ [] }

abbrev sending : Bytes → Transfer
sending text = record {
  connected = true;
  rounds =
      record { answer = chunk text true; cancelled = false }
      ∷ record { answer = finished; cancelled = false }
      ∷ [];
  faults = no_faults;
  pid = codes "42";
}

-- All transfers end well, the data are unpacked to the end, and usign accepts the signature.
abbrev outside : Outside
outside = record {
  transfer = λ url path. sending (codes "gz");
  gunzip = λ gz. some (block (codes "Package: a\n") true ∷ []);
  open_fails = λ path. false;
  close_fails = λ path. false;
  usign = λ list sig fs. some (exited 0 ∷ []);
}

abbrev no_files : Files
no_files q = none

-- The directory holds the list, its signature and what is left of a source that is gone.
abbrev entries : Files → Option (List Bytes)
entries fs = some (codes ".." ∷ codes "main" ∷ codes "main.sig" ∷ codes "old.sig" ∷ [])

updated : (op_update outside cfg (λ i. false) entries no_files).0 ≡ success
unfolding op_update update_all update_source fetch_list fetch_gzip check_list decompress_gz
    stream_entry verify_signature verify_loop download receive str_eq unlink rename write
    prune_entry
updated = refl

op_update-Updated_example :
    (fs : Files) × Updated outside cfg cfg.sources no_files fs
    × ((op_update outside cfg (λ i. false) entries no_files).1
        ≡ prune_stale_lists cfg (entries fs) fs)
op_update-Updated_example = op_update-Updated outside cfg (λ i. false) entries no_files updated

-- usign refuses.
abbrev forged : Outside
forged = record outside { usign = λ list sig fs. some (exited 1 ∷ []) }

not_updated : (update_source forged cfg plain no_files).0 ≡ failure
unfolding update_source fetch_list check_list verify_signature verify_loop download receive str_eq
    unlink rename write
not_updated = refl

update_source_failure_example :
    ((update_source forged cfg plain no_files).1 (list_of cfg (codes "main")) ≡ none)
    ⊎ ((update_source forged cfg plain no_files).1 (list_of cfg (codes "main"))
        ≡ no_files (list_of cfg (codes "main")))
update_source_failure_example =
    update_source_failure forged cfg plain no_files refl refl not_updated

-- The data break off behind the first package, and usign would refuse the list.
abbrev torn : Outside
torn = record forged { gunzip = λ gz. some (block (codes "Package: evil\n") true ∷ corrupt ∷ []) }

-- What was unpacked until then stays as the list.
stays :
    (update_source torn cfg main no_files).1 (list_of cfg (codes "main"))
    ≡ some (codes "Package: evil\n")
unfolding update_source fetch_list fetch_gzip decompress_gz stream_entry check_list verify_signature
    verify_loop download receive str_eq unlink rename write
stays = refl

abbrev all_files : Files
all_files q = some (codes "x")

abbrev listed : List Bytes
listed = codes ".." ∷ codes "main.sig" ∷ codes "old.sig" ∷ []

prune_names_lem_example : prune_names cfg listed all_files (list_of cfg (codes "old.sig")) ≡ (
    if any (λ n. str_eq n (codes "old.sig")) listed && is_stale cfg (codes "old.sig")
    then none
    else all_files (list_of cfg (codes "old.sig")))
prune_names_lem_example = prune_names_lem cfg listed (codes "old.sig") all_files

stale : is_stale cfg (codes "old.sig") ∷ is_stale cfg (codes "main.sig") ∷ [] ≡ true ∷ false ∷ []
unfolding str_eq
stale = refl
