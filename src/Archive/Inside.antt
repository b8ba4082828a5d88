-- ===== src/Archive/Inside.antt =====
-- Where `safe_join` puts an entry: below the prefix, or nowhere.
use mathlib.Core.Path.{subst}
use aept.Base.{
  ◌≡◌, refl, ap, sym, ◌∙◌, inl, inr, true, some, List, [], ◌∷◌, ◌++◌, arith, Bool-cases,
  Option-cases, All,
}
use aept.Text.Strings.{Bytes, codes, strip_prefix}
use aept.Util
use aept.Archive.{
  split_slash, tokens, add_part, add_parts, join_onto, is_absolute, normalize_path, trim_slashes,
  at_boundary, join_below, safe_join,
}
use aept.Archive.Paths.{
  IsPart, parts_of, parts_of-IsPart, rev_onto, tokens-join_onto, tokens-slash,
  normalize_path-normalize_path, normalize_path-one_slash,
}

All-rev_onto :
    (P : Bytes → Type 0) (ps ts : List Bytes) → All P ps → All P ts → All P (rev_onto ps ts)
All-rev_onto P [] ts h k = k
All-rev_onto P (p ∷ ps) ts h k = All-rev_onto P ps (p ∷ ts) h.1 (h.0, k)

-- The components of a normal form are names: none is `.` or `..`.
pub normalize_path-IsPart : (s : Bytes) → All IsPart (tokens (normalize_path s))
unfolding normalize_path
normalize_path-IsPart s = elim (Bool-cases (is_absolute s)) [
  | inl t ↦
      rw (t, tokens-slash (join_onto (parts_of s) [])) (parts (parts_of s) (parts_of-IsPart s))
  | inr f ↦ rw f (parts (parts_of s) (parts_of-IsPart s))
]
  where
    parts : (ps : List Bytes) → All IsPart ps → All IsPart (tokens (join_onto ps []))
    parts ps h =
        rw (tokens-join_onto ps [] h refl)
          (All-rev_onto IsPart ps (tokens []) h (unfold tokens split_slash in tt))

pub strip_prefix_found : (p s rest : Bytes) → strip_prefix p s ≡ some rest → s ≡ p ++ rest
unfolding strip_prefix
strip_prefix_found [] s rest h = ground arith
strip_prefix_found (p ∷ ps) [] rest h = cc
strip_prefix_found (p ∷ ps) (x ∷ xs) rest h = ground (arith, strip_prefix_found ps xs rest)

pub strip_prefix-append : (p rest : Bytes) → strip_prefix p (p ++ rest) ≡ some rest
unfolding strip_prefix
strip_prefix-append [] rest = refl
strip_prefix-append (p ∷ ps) rest = ground (arith, strip_prefix-append ps rest)

-- A path below a directory: the directory's normal form, alone or in front of a slash and more, no
-- component of which leads upwards.
pub record IsBelow (prefix path : Bytes) : Type 0 where
  pub rest : Bytes
  pub path_is : path ≡ normalize_path prefix ++ rest
  pub boundary : at_boundary rest ≡ true
  pub normal : normalize_path path ≡ path
  pub names : All IsPart (tokens path)

join_below-IsBelow : (prefix entry p : Bytes) → join_below prefix entry ≡ some p → IsBelow prefix p
unfolding join_below
join_below-IsBelow prefix entry p h =
    let resolved = normalize_path (trim_slashes prefix ++ b'/' ∷ entry) in
    elim (Option-cases (strip_prefix (normalize_path prefix) resolved)) [
      | inl gone ↦ absurd (ground arith)
      | inr (rest, there) ↦
          let found : (at_boundary rest ≡ true) × (resolved ≡ p) = ground arith in
          record {
            rest = rest;
            path_is = sym found.1 ∙ strip_prefix_found (normalize_path prefix) resolved rest there;
            boundary = found.0;
            normal = subst (λ x. normalize_path x ≡ x) found.1 (normalize_path-normalize_path _);
            names = subst (λ x. All IsPart (tokens x)) found.1 (normalize_path-IsPart _);
          }
    ]

-- What `safe_join` gives for a prefix is below the prefix: it is the normal form of the prefix, alone
-- or followed by a slash and more, and none of its components is `.` or `..`.
pub safe_join-IsBelow :
    (prefix entry p : Bytes) → safe_join (some prefix) entry ≡ some p → IsBelow prefix p
unfolding safe_join
safe_join-IsBelow prefix entry p h =
    join_below-IsBelow prefix (Util.normalize_path entry) p (ground arith)

root_is : normalize_path (codes "/") ≡ codes "/"
unfolding normalize_path tokens split_slash add_parts add_part join_onto
root_is = refl

-- With the prefix `/`, `safe_join` gives no path but `/` itself: every other entry is refused.
pub safe_join-root : (entry p : Bytes) → safe_join (some (codes "/")) entry ≡ some p → p ≡ codes "/"
safe_join-root entry p h =
    let b = safe_join-IsBelow (codes "/") entry p h in
    below b.rest (b.path_is ∙ ap (λ x. x ++ b.rest) root_is) b.boundary
  where
    below : (rest : Bytes) → p ≡ b'/' ∷ rest → at_boundary rest ≡ true → p ≡ codes "/"
    below [] e k = e
    below (c ∷ cs) e k =
        let b = safe_join-IsBelow (codes "/") entry p h in
        absurd (let f = sym k ∙ normalize_path-one_slash p (c ∷ cs) (b.normal ∙ e) in cc)
