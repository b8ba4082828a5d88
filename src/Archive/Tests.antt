-- ===== src/Archive/Tests.antt =====
-- Tests of src/archive.c's paths, and instances of the theorems.
use aept.Base.{
  ◌≡◌, ◌≢◌, refl, sym, ap, ◌∙◌, inl, inr, true, false, Option, none, some, List, [], ◌∷◌, ◌++◌, All,
  if◌then◌else◌,
}
use aept.Text.Strings.{Bytes, codes, str_eq, strip_prefix}
use aept.Util
use aept.Files.{FilePath, Files, success, write, write_other}
use aept.Archive.Reader.{
  Member, Reader, good, warned, retry, next_header, skip_dot_slash, seek_member, open_ipk_tar,
  Libarchive, OpenArchive, open_pkg_data_archive, data_flags,
}
use aept.Archive.Extract.{
  FileEntry, kept_link, is_conffile, write_member, extract_member, extract_loop, do_extract_all,
  extract_all,
}
use aept.Archive.Writes.{Reaches, WritesItsEntry, IsOpened}
use aept.Archive.Tracked.{IsApart, OfMember, SparesLink, extracted, starting, extract_all-IsTracked}
use aept.Archive.Outside.{IsOutside, extract_all_outside}
use aept.Util.{strip_slashes, strip_dot_slashes, archive_path_is_safe, symlink_target_is_recordable}
use aept.Archive.{
  split_slash, tokens, add_part, add_parts, join_onto, normalize_path, trim_slashes, join_below,
  safe_join, rewrite_pathname, rewrite_all_paths,
}
use aept.Archive.Inside.{IsBelow, safe_join-IsBelow, safe_join-root}

normal : normalize_path (codes "./a//b/./../c/") ≡ codes "a/c"
unfolding normalize_path tokens split_slash add_parts add_part join_onto str_eq
normal = refl

abbrev target : Bytes
target = codes "/target/"

inside : safe_join (some target) (codes "./usr/bin/x") ≡ some (codes "/target/usr/bin/x")
unfolding safe_join join_below strip_prefix normalize_path tokens split_slash add_parts add_part
    join_onto trim_slashes Util.normalize_path strip_slashes strip_dot_slashes str_eq
inside = refl

at_root : safe_join (some (codes "/")) (codes "./..") ≡ some (codes "/")
unfolding safe_join join_below strip_prefix normalize_path tokens split_slash add_parts add_part
    join_onto trim_slashes Util.normalize_path strip_slashes strip_dot_slashes str_eq
at_root = refl

outside :
    (safe_join (some target) (codes "../etc/passwd") ≡ none)
    × (safe_join (some target) (codes "../targetx") ≡ none)
    × (safe_join (some (codes "/")) (codes "etc/passwd") ≡ none)
unfolding safe_join join_below strip_prefix normalize_path tokens split_slash add_parts add_part
    join_onto trim_slashes Util.normalize_path strip_slashes strip_dot_slashes str_eq
outside = (refl, refl, refl)

safe_join-IsBelow_example : IsBelow target (codes "/target/usr/bin/x")
safe_join-IsBelow_example =
    safe_join-IsBelow target (codes "./usr/bin/x") (codes "/target/usr/bin/x") inside

safe_join-root_example : codes "/" ≡ codes "/"
safe_join-root_example = safe_join-root (codes "./..") (codes "/") at_root

abbrev readme : Bytes
readme = codes "./doc/./README"

-- A package whose data is one program, a symbolic link to it and a hard link to it.
abbrev program : Member
program = record {
  entry = record { pathname = codes "./bin/app"; hardlink = none };
  symlink = none;
  mode = 33261;
  body = codes "#!";
}

abbrev link : Member
link = record {
  entry = record { pathname = codes "./bin/a"; hardlink = none };
  symlink = some (codes "app");
  mode = 41471;
  body = [];
}

abbrev second : Member
second = record {
  entry = record { pathname = codes "./bin/b"; hardlink = some (codes "./bin/app") };
  symlink = none;
  mode = 33261;
  body = codes "#!";
}

abbrev reader : Reader
reader = good program ∷ retry ∷ warned link ∷ good second ∷ []

-- The member of the package's container that holds the data.
abbrev data_member : Member
data_member = record {
  entry = record { pathname = codes "./data.tar.gz"; hardlink = none };
  symlink = none;
  mode = 33188;
  body = [];
}

-- Data of a hard link is written through the link.
unfoldable write_through : Option FilePath → Bytes → Files → Files
write_through none body fs = fs
write_through (some p) body fs = write p body fs

abbrev lib : Libarchive
lib = record {
  read_container = λ path fs. some (good data_member ∷ []);
  read_tar = λ s. some reader;
  disk_writer = λ flags. true;
  extract2 = λ flags m fs.
      (true, write m.entry.pathname m.body (write_through m.entry.hardlink m.body fs));
}

-- A disk on which `/target/bin/old` is a link to a file outside.
abbrev Linked : FilePath → FilePath → Type 0
Linked q p = (q ≡ codes "/srv/old") × (p ≡ codes "/target/bin/old")

write_through_other :
    (hl : Option FilePath) (body : Bytes) (fs : Files) (q : FilePath)
    → ((p : FilePath) → hl ≡ some p → Reaches Linked q p → ⊥)
    → write_through hl body fs q ≡ fs q
unfolding write_through
write_through_other none body fs q h = refl
write_through_other (some p) body fs q h = write_other p q body fs (λ e. h p refl (inl (sym e)))

lib_law : WritesItsEntry lib Linked
lib_law flags m fs q secure h k =
    write_other m.entry.pathname q m.body (write_through m.entry.hardlink m.body fs)
      (λ e. h (inl (sym e)))
    ∙ write_through_other m.entry.hardlink m.body fs q k

abbrev before_it : Files
before_it q = if str_eq q (codes "/target/etc/x") then some (codes "x") else none

abbrev opened : OpenArchive
opened = record { reader = reader; extract_flags = data_flags false }

opened-IsOpened : IsOpened lib opened
unfolding open_pkg_data_archive open_ipk_tar seek_member next_header skip_dot_slash strip_prefix
    str_eq
opened-IsOpened = inr (codes "app.ipk", false, before_it, refl)

abbrev entries : List FileEntry
entries =
    record { path = codes "./bin/app"; link_target = none; mode = 33261 }
    ∷ record { path = codes "./bin/a"; link_target = some (codes "app"); mode = 41471 }
    ∷ record { path = codes "./bin/b"; link_target = none; mode = 33261 }
    ∷ []

recorded_here :
    ((extracted lib opened target none none before_it).0 ≡ success)
    × ((extracted lib opened target none none before_it).1.recorded ≡ some entries)
unfolding extract_all do_extract_all extract_loop next_header extract_member is_conffile
    write_member kept_link rewrite_all_paths rewrite_pathname safe_join join_below strip_prefix
    normalize_path tokens split_slash add_parts add_part join_onto trim_slashes Util.normalize_path
    strip_slashes strip_dot_slashes str_eq archive_path_is_safe symlink_target_is_recordable
recorded_here = (refl, refl)

joined_link : safe_join (some target) (codes "./bin/app") ≡ some (codes "/target/bin/app")
unfolding safe_join join_below strip_prefix normalize_path tokens split_slash add_parts add_part
    join_onto trim_slashes Util.normalize_path strip_slashes strip_dot_slashes str_eq
joined_link = refl

apart_from_app :
    {p : Bytes} → codes "/target/bin/app" ≡ p → Reaches Linked (codes "/target/etc/x") p → ⊥
apart_from_app x (inl k) = let y : codes "/target/etc/x" ≡ codes "/target/bin/app" = k ∙ sym x in cc
apart_from_app x (inr k) = let y : codes "/target/etc/x" ≡ codes "/srv/old" = k.0 in cc

link_elsewhere : SparesLink Linked target (codes "/target/etc/x") second
link_elsewhere hl p e j k =
    let f : codes "./bin/app" ≡ hl = cc in
    let g : some (codes "/target/bin/app") ≡ some p =
      sym joined_link ∙ ap (safe_join (some target)) f ∙ j in
    let x : codes "/target/bin/app" ≡ p = cc in apart_from_app x k

links_elsewhere : All (OfMember (SparesLink Linked target (codes "/target/etc/x"))) reader
links_elsewhere = (λ hl p e. cc, (tt, (λ hl p e. cc, (link_elsewhere, tt))))

extract_all-IsTracked_example :
    All (λ e. archive_path_is_safe (some e.path) ≡ true) entries
    × (All (IsApart Linked target none (codes "/target/etc/x")) entries
        → (extracted lib opened target none none before_it).1.files (codes "/target/etc/x")
          ≡ some (codes "x"))
unfolding str_eq
extract_all-IsTracked_example =
    extract_all-IsTracked lib opened target none Linked none before_it (codes "/target/etc/x")
      entries lib_law opened-IsOpened links_elsewhere recorded_here.0 recorded_here.1

normal_target : normalize_path target ≡ codes "/target"
unfolding normalize_path tokens split_slash add_parts add_part join_onto str_eq
normal_target = refl

elsewhere : (rest : Bytes) → codes "/etc/x" ≢ codes "/target" ++ rest
elsewhere rest e = cc

passwd-IsOutside : IsOutside Linked target none (codes "/etc/x")
passwd-IsOutside p is_cf b (inl e) =
    elsewhere b.rest (e ∙ b.path_is ∙ ap (λ x. x ++ b.rest) normal_target)
passwd-IsOutside p is_cf b (inr e) = let y : codes "/etc/x" ≡ codes "/srv/old" = e.0 in cc

extract_all_outside_example :
    (extract_all lib opened target none (starting none before_it)).1.files (codes "/etc/x") ≡ none
unfolding str_eq
extract_all_outside_example =
    extract_all_outside lib opened target none Linked (codes "/etc/x") (starting none before_it)
      lib_law opened-IsOpened passwd-IsOutside
