-- ===== src/Archive/Paths.antt =====
-- Normal forms of paths: their parts, and how the parts are read back.
use aept.Base.{
  ℕ, ◌≡◌, ◌≢◌, refl, ap, sym, ◌∙◌, inl, inr, true, false, not, List, [], ◌∷◌, ◌++◌, append-nil,
  arith, ◌==◌, Bool-cases, List-cases, keep, keep-append, All,
}
use aept.Text.Strings.{Bytes, codes, str_eq, is_empty, has}
use aept.Archive.{
  onto_head, split_slash, tokens, add_part, add_parts, join_onto, is_absolute, normalize_path,
  at_boundary,
}

-- A component between slashes.
abbrev pub IsToken : Bytes → Type 0
IsToken t = (is_empty t ≡ false) × (has b'/' t ≡ false)

-- A component that names an entry of a directory: neither `.` nor `..`.
abbrev pub IsPart : Bytes → Type 0
IsPart t = IsToken t × (str_eq t (codes ".") ≡ false) × (str_eq t (codes "..") ≡ false)

split_slash-cons :
    (c : ℕ) (cs : Bytes) → (c == b'/') ≡ false → split_slash (c ∷ cs) ≡ onto_head c (split_slash cs)
unfolding split_slash
split_slash-cons c cs h = rw (h, split_slash)

split_slash-slash :
    (c : ℕ) (cs : Bytes) → (c == b'/') ≡ true → split_slash (c ∷ cs) ≡ [] ∷ split_slash cs
unfolding split_slash
split_slash-slash c cs h = rw (h, split_slash)

abbrev SlashFree : List Bytes → Type 0
SlashFree = All (λ t. has b'/' t ≡ false)

onto_head-SlashFree :
    (c : ℕ) (ts : List Bytes) → (c == b'/') ≡ false → SlashFree ts → SlashFree (onto_head c ts)
onto_head-SlashFree c [] h k = (ground arith, tt)
onto_head-SlashFree c (t ∷ ts) h k = (ground (arith, k.0), k.1)

split_slash-SlashFree : (s : Bytes) → SlashFree (split_slash s)
split_slash-SlashFree [] = unfold split_slash in (refl, tt)
split_slash-SlashFree (c ∷ cs) = elim (Bool-cases (c == b'/')) [
  | inl t ↦ rw (split_slash-slash c cs t) (refl, split_slash-SlashFree cs)
  | inr f ↦
      rw (split_slash-cons c cs f)
        (onto_head-SlashFree c (split_slash cs) f (split_slash-SlashFree cs))
]

nonempty-IsToken : (ts : List Bytes) → SlashFree ts → All IsToken (keep (λ t. not (is_empty t)) ts)
nonempty-IsToken [] h = tt
nonempty-IsToken ([] ∷ ts) h = nonempty-IsToken ts h.1
nonempty-IsToken ((c ∷ cs) ∷ ts) h = ((refl, h.0), nonempty-IsToken ts h.1)

pub tokens-IsToken : (s : Bytes) → All IsToken (tokens s)
unfolding tokens
tokens-IsToken s = nonempty-IsToken (split_slash s) (split_slash-SlashFree s)

-- Every token that `add_parts` holds is a part.
add_part-IsPart :
    (ps : List Bytes) (t : Bytes) → All IsPart ps → IsToken t → All IsPart (add_part ps t)
add_part-IsPart ps t h k = elim (Bool-cases (str_eq t (codes "."))) [
  | inl dot ↦ unfold add_part in rw dot h
  | inr no_dot ↦ elim (Bool-cases (str_eq t (codes ".."))) [
    | inl dots ↦ unfold add_part in rw (no_dot, dots) (dropped ps h)
    | inr no_dots ↦ unfold add_part in rw (no_dot, no_dots) ((k, no_dot, no_dots), h)
  ]
]
  where
    dropped :
        (ps : List Bytes)
        → All IsPart ps
        → All IsPart (elim ps [ [] ↦ [] | last ∷ others ↦ others ])
    dropped [] h = tt
    dropped (p ∷ ps) h = h.1

pub add_parts-IsPart :
    (ps ts : List Bytes) → All IsPart ps → All IsToken ts → All IsPart (add_parts ps ts)
unfolding add_parts
add_parts-IsPart ps [] h k = h
add_parts-IsPart ps (t ∷ ts) h k =
    add_parts-IsPart (add_part ps t) ts (add_part-IsPart ps t h k.0) k.1

-- The parts of a path, the last one in front.
abbrev pub parts_of : Bytes → List Bytes
parts_of s = add_parts [] (tokens s)

pub parts_of-IsPart : (s : Bytes) → All IsPart (parts_of s)
parts_of-IsPart s = add_parts-IsPart [] (tokens s) tt (tokens-IsToken s)

pub tokens-slash : (s : Bytes) → tokens (b'/' ∷ s) ≡ tokens s
unfolding tokens split_slash
tokens-slash s = refl

-- A slash splits the tokens of a string.
pub tokens-append : (s t : Bytes) → tokens (s ++ b'/' ∷ t) ≡ tokens s ++ tokens t
unfolding tokens
tokens-append s t =
    ap (keep (λ x. not (is_empty x))) (split_append s)
    ∙ keep-append (λ x. not (is_empty x)) (split_slash s) (split_slash t)
  where
    nonempty : (s : Bytes) → split_slash s ≢ []
    nonempty [] e = let f : ◌≡◌ {A = List Bytes} ([] ∷ []) [] = (unfold split_slash in e) in cc
    nonempty (c ∷ cs) e = elim (Bool-cases (c == b'/')) [
      | inl h ↦ absurd (let f = sym (split_slash-slash c cs h) ∙ e in cc)
      | inr h ↦ absurd (elim (List-cases (split_slash cs)) [
        | inl k ↦ nonempty cs k
        | inr (x, xs, k) ↦ let f = sym (split_slash-cons c cs h ∙ ap (onto_head c) k) ∙ e in cc
      ])
    ]

    onto : (c : ℕ) (xs ys : List Bytes) → xs ≢ [] → onto_head c xs ++ ys ≡ onto_head c (xs ++ ys)
    onto c [] ys h = absurd (h refl)
    onto c (x ∷ xs) ys h = refl

    split_append : (s : Bytes) → split_slash (s ++ b'/' ∷ t) ≡ split_slash s ++ split_slash t
    split_append [] = unfold split_slash in refl
    split_append (c ∷ cs) = elim (Bool-cases (c == b'/')) [
      | inl h ↦
          rw (split_slash-slash c (cs ++ b'/' ∷ t) h, split_slash-slash c cs h)
            (ap (◌∷◌ []) (split_append cs))
      | inr h ↦
          rw (split_slash-cons c (cs ++ b'/' ∷ t) h, split_slash-cons c cs h)
            (ap (onto_head c) (split_append cs)
              ∙ sym (onto c (split_slash cs) (split_slash t) (nonempty cs)))
    ]

-- The parts, the last one in front, put back in order in front of `ts`.
abbrev pub rev_onto : List Bytes → List Bytes → List Bytes
rev_onto [] ts = ts
rev_onto (p ∷ ps) ts = rev_onto ps (p ∷ ts)

-- A token alone.
tokens-alone : (p : Bytes) → IsToken p → tokens p ≡ p ∷ []
unfolding tokens
tokens-alone p (ne, free) = rw (whole p free, ne) refl
  where
    whole : (p : Bytes) → has b'/' p ≡ false → split_slash p ≡ p ∷ []
    whole [] h = unfold split_slash in refl
    whole (c ∷ cs) h =
        split_slash-cons c cs (ground arith) ∙ ap (onto_head c) (whole cs (ground arith))

-- A token in front of a slash or of the end of the string.
tokens-token :
    (p out : Bytes) → IsToken p → at_boundary out ≡ true → tokens (p ++ out) ≡ p ∷ tokens out
tokens-token p [] h b =
    rw (append-nil p) (tokens-alone p h ∙ ap (◌∷◌ p) (unfold tokens split_slash in refl))
tokens-token p (c ∷ out) h b =
    let slash : c ≡ b'/' = ground arith in
    rw (slash) (
      tokens-append p out
      ∙ ap (λ x. x ++ tokens out) (tokens-alone p h)
      ∙ ap (◌∷◌ p) (sym (tokens-slash out)))

pub tokens-join_onto :
    (ps : List Bytes) (out : Bytes)
    → All IsPart ps
    → at_boundary out ≡ true
    → tokens (join_onto ps out) ≡ rev_onto ps (tokens out)
unfolding join_onto
tokens-join_onto [] out h b = refl
tokens-join_onto (p ∷ []) out h b = tokens-token p out h.0.0 b
tokens-join_onto (p ∷ q ∷ qs) out h b =
    tokens-join_onto (q ∷ qs) (b'/' ∷ (p ++ out)) h.1 refl
    ∙ ap (rev_onto (q ∷ qs)) (tokens-slash (p ++ out) ∙ tokens-token p out h.0.0 b)

add_part-part : (ps : List Bytes) (t : Bytes) → IsPart t → add_part ps t ≡ t ∷ ps
unfolding add_part
add_part-part ps t h = rw (h.1, h.2) refl

-- Parts that are put back in order are found again.
add_parts-rev_onto :
    (acc ps ts : List Bytes)
    → All IsPart ps
    → add_parts acc (rev_onto ps ts) ≡ add_parts (ps ++ acc) ts
add_parts-rev_onto acc [] ts h = refl
add_parts-rev_onto acc (p ∷ ps) ts h =
    add_parts-rev_onto acc ps (p ∷ ts) h.1
    ∙ (unfold add_parts in ap (λ x. add_parts x ts) (add_part-part (ps ++ acc) p h.0))

pub no_tokens : tokens [] ≡ []
unfolding tokens split_slash
no_tokens = refl

pub parts_of-join_onto : (ps : List Bytes) → All IsPart ps → parts_of (join_onto ps []) ≡ ps
parts_of-join_onto ps h =
    ap (add_parts []) (tokens-join_onto ps [] h refl ∙ ap (rev_onto ps) no_tokens)
    ∙ add_parts-rev_onto [] ps [] h
    ∙ (unfold add_parts in append-nil ps)

join_onto-relative :
    (p : Bytes) (ps : List Bytes) (out : Bytes)
    → All IsPart (p ∷ ps)
    → is_absolute (join_onto (p ∷ ps) out) ≡ false
unfolding join_onto
join_onto-relative [] ps out h = absurd (let e = h.0.0.0 in cc)
join_onto-relative (c ∷ p) [] out h = ground (arith, h.0.0.1)
join_onto-relative p (q ∷ qs) out h = join_onto-relative q qs (b'/' ∷ (p ++ out)) h.1

joined-relative : (ps : List Bytes) → All IsPart ps → is_absolute (join_onto ps []) ≡ false
joined-relative [] h = unfold join_onto in refl
joined-relative (p ∷ ps) h = join_onto-relative p ps [] h

absolute : (s : Bytes) → is_absolute s ≡ true → normalize_path s ≡ b'/' ∷ join_onto (parts_of s) []
unfolding normalize_path
absolute s t = rw t refl

relative : (s : Bytes) → is_absolute s ≡ false → normalize_path s ≡ join_onto (parts_of s) []
unfolding normalize_path
relative s f = rw f refl

-- No normal form begins with two slashes.
pub normalize_path-one_slash :
    (s rest : Bytes) → normalize_path s ≡ b'/' ∷ rest → is_absolute rest ≡ false
normalize_path-one_slash s rest h = elim (Bool-cases (is_absolute s)) [
  | inl t ↦
      let e : b'/' ∷ join_onto (parts_of s) [] ≡ b'/' ∷ rest = sym (absolute s t) ∙ h in
      let f : join_onto (parts_of s) [] ≡ rest = cc in
      sym (ap is_absolute f) ∙ joined-relative (parts_of s) (parts_of-IsPart s)
  | inr f ↦
      let e : join_onto (parts_of s) [] ≡ b'/' ∷ rest = sym (relative s f) ∙ h in
      let g : false ≡ true =
        sym (joined-relative (parts_of s) (parts_of-IsPart s)) ∙ ap is_absolute e in
      cc
]

pub parts_of-normalize_path : (s : Bytes) → parts_of (normalize_path s) ≡ parts_of s
unfolding normalize_path
parts_of-normalize_path s = elim (Bool-cases (is_absolute s)) [
  | inl t ↦
      rw t
        (ap (add_parts []) (tokens-slash _) ∙ parts_of-join_onto (parts_of s) (parts_of-IsPart s))
  | inr f ↦ rw f (parts_of-join_onto (parts_of s) (parts_of-IsPart s))
]

pub is_absolute-normalize_path : (s : Bytes) → is_absolute (normalize_path s) ≡ is_absolute s
unfolding normalize_path
is_absolute-normalize_path s = elim (Bool-cases (is_absolute s)) [
  | inl t ↦ rw (t) refl
  | inr f ↦ rw (f) (joined-relative (parts_of s) (parts_of-IsPart s))
]

-- The normal form of a normal form is that normal form.
pub normalize_path-normalize_path :
    (s : Bytes) → normalize_path (normalize_path s) ≡ normalize_path s
normalize_path-normalize_path s =
    let a = is_absolute-normalize_path s in
    let q = parts_of-normalize_path s in unfold normalize_path in rw (a, q) refl
