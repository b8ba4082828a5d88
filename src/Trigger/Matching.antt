-- ===== src/Trigger/Matching.antt =====
-- The directories that are matched for one package.
use aept.Base.{
  ◌≡◌, ap, sym, ◌∙◌, inl, inr, Bool, true, ◌&&◌, ◌||◌, List, [], ◌∷◌, ◌++◌, arith, any, any-append,
  Bool-cases, if◌then◌else◌,
}
use aept.Text.Strings.{Bytes, str_eq, str_eq_iff}
use aept.Config.{Config}
use aept.Trigger.Ctx.{TriggerCtx, holds}
use aept.Trigger.Entries.{TriggerEntry}
use aept.Trigger.Run.{Outside, match_dirs, is_concrete, match_entry, match_entries}

-- A path is added where it is not there yet.
abbrev add_new : Bytes → List Bytes → List Bytes
add_new y m = if holds y m then m else m ++ y ∷ []

holds-add_new : (x y : Bytes) (m : List Bytes) → holds x (add_new y m) ≡ (holds x m || str_eq y x)
holds-add_new x y m = elim (Bool-cases (holds y m)) [
  | inl t ↦ elim (Bool-cases (str_eq y x)) [
    | inl e ↦
        let same : holds x m ≡ true = ap (λ z. holds z m) (sym ((str_eq_iff y x).0 e)) ∙ t in
        rw t (ground (arith, same))
    | inr f ↦ rw (t, f) (ground arith)
  ]
  | inr f ↦ rw f (any-append (λ z. str_eq z x) m (y ∷ []) ∙ ground arith)
]

-- The directory `x` is one of the collected ones, and the pattern matches it.
abbrev pub matches : Outside → Bytes → List Bytes → Bytes → Bool
matches out pat dirs x = any (λ d. out.fnmatch pat (b'/' ∷ d) && str_eq (b'/' ∷ d) x) dirs

holds-match_dirs :
    (out : Outside) (pat : Bytes) (dirs m : List Bytes) (x : Bytes)
    → holds x (match_dirs out pat dirs m) ≡ (holds x m || matches out pat dirs x)
unfolding match_dirs
holds-match_dirs out pat [] m x = ground arith
holds-match_dirs out pat (d ∷ ds) m x = elim (Bool-cases (out.fnmatch pat (b'/' ∷ d))) [
  | inl t ↦ rw t (
      holds-match_dirs out pat ds (add_new (b'/' ∷ d) m) x
      ∙ ground (arith, holds-add_new x (b'/' ∷ d) m))
  | inr f ↦ rw f (holds-match_dirs out pat ds m x ∙ ground arith)
]

-- The entry triggers its package for the directory `x`: its pattern matches `x`, which was collected,
-- or the package is fresh and `x` is its pattern, the path of a directory that is there.
abbrev pub triggers : Outside → Config → TriggerCtx → Bool → TriggerEntry → Bytes → Bool
triggers out cfg tctx fresh e x =
    matches out e.pattern tctx.dirs x || (is_concrete out cfg fresh e && str_eq e.pattern x)

holds-match_entry :
    (out : Outside) (cfg : Config) (tctx : TriggerCtx) (fresh : Bool) (e : TriggerEntry)
    (m : List Bytes) (x : Bytes)
    → holds x (match_entry out cfg tctx fresh e m) ≡ (holds x m || triggers out cfg tctx fresh e x)
unfolding match_entry
holds-match_entry out cfg tctx fresh e m x =
    let dirs = holds-match_dirs out e.pattern tctx.dirs m x in
    elim (Bool-cases (is_concrete out cfg fresh e)) [
      | inl t ↦
          rw t (
            holds-add_new x e.pattern (match_dirs out e.pattern tctx.dirs m) ∙ ground (arith, dirs))
      | inr f ↦ rw f (dirs ∙ ground arith)
    ]

pub holds-match_entries :
    (out : Outside) (cfg : Config) (tctx : TriggerCtx) (fresh : Bool) (es : List TriggerEntry)
    (m : List Bytes) (x : Bytes)
    → holds x (match_entries out cfg tctx fresh es m)
      ≡ (holds x m || any (λ e. triggers out cfg tctx fresh e x) es)
unfolding match_entries
holds-match_entries out cfg tctx fresh [] m x = ground arith
holds-match_entries out cfg tctx fresh (e ∷ es) m x =
    holds-match_entries out cfg tctx fresh es (match_entry out cfg tctx fresh e m) x
    ∙ ground (arith, holds-match_entry out cfg tctx fresh e m x)
