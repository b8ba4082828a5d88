-- ===== src/Conffile/Modified.antt =====
-- A configuration file that was modified stays, unless its owner agrees.
use aept.Base.{
  ℕ, ◌≡◌, ◌≢◌, refl, ap, sym, ◌∙◌, ◌⊎◌, inl, inr, Bool, true, false, ◌||◌, Option, none, some, List,
  [], ◌∷◌, arith, Bool-cases, Option-cases, any, ◌==◌,
}
use aept.Text.Strings.{Bytes, codes, str_eq_ne}
use aept.Files.{FilePath, Files, unlink_other, rename_other}
use aept.Config.{Config}
use aept.Conffile.Upgrade.{
  Answer, install_new, keep_old, review, Key, decline, accept, show_diff, start_shell, other,
  key_of, Outside, ask, conffile_prompt, decide, answer_for, take_new, carry_out,
}

abbrev pub is_accept : ℕ → Bool
is_accept ch = ch == b'y' || (ch == b'Y' || (ch == b'i' || ch == b'I'))

-- Nobody agrees to the new version: it is not forced, and nobody is asked, or the answer is never yes.
abbrev pub NoConsent : Outside → Config → List ℕ → Type 0
NoConsent out cfg keys =
    (cfg.force_confnew ≡ false)
    × ((cfg.force_confold ≡ true) ⊎ (out.isatty ≡ false) ⊎ (any is_accept keys ≡ false))

-- The programs that the prompt starts leave the file at `q` alone.
abbrev pub LeavesAlone : Outside → FilePath → Type 0
LeavesAlone out q = (argv : List Bytes) (fs : Files) → out.system argv fs q ≡ fs q

key_of-accept : (ch : ℕ) → key_of ch ≡ accept → is_accept ch ≡ true
unfolding key_of
key_of-accept ch h = ground arith

-- What the prompt comes to when nobody agrees.
record Declined (q : FilePath) (fs : Files) (r : Answer × List ℕ × Files) : Type 0 where
  answer : r.0 ≢ install_new
  quiet : any is_accept r.1 ≡ false
  kept : r.2 q ≡ fs q

Key-cases :
    (k : Key) → (k ≡ decline) ⊎ (k ≡ accept) ⊎ (k ≡ show_diff) ⊎ (k ≡ start_shell) ⊎ (k ≡ other)
Key-cases decline = inl refl
Key-cases accept = inr (inl refl)
Key-cases show_diff = inr (inr (inl refl))
Key-cases start_shell = inr (inr (inr (inl refl)))
Key-cases other = inr (inr (inr (inr refl)))

-- A program was run in between.
after :
    (out : Outside) (q : FilePath) (argv : List Bytes) (fs : Files) (r : Answer × List ℕ × Files)
    → LeavesAlone out q
    → Declined q (out.system argv fs) r
    → Declined q fs r
after out q argv fs r alone d = record {
  answer = d.answer;
  quiet = d.quiet;
  kept = d.kept ∙ alone argv fs;
}

ask-Declined :
    (out : Outside) (disk new q : FilePath) (keys : List ℕ) (fs : Files)
    → LeavesAlone out q
    → any is_accept keys ≡ false
    → Declined q fs (ask out disk new keys fs)
unfolding ask
ask-Declined out disk new q [] fs alone quiet = record {
  answer = λ e. cc;
  quiet = refl;
  kept = refl;
}
ask-Declined out disk new q (ch ∷ keys) fs alone quiet =
    let later : any is_accept keys ≡ false = ground arith in
    let diff = codes "diff" ∷ codes "-u" ∷ disk ∷ new ∷ [] in
    let sh = (elim out.shell [ none ↦ codes "/bin/sh" | some sh ↦ sh ]) ∷ [] in
    elim (Key-cases (key_of ch)) [
      | inl e ↦ rw (e, ask) (record { answer = λ e. cc; quiet = later; kept = refl })
      | inr (inl e) ↦ absurd (let yes = key_of-accept ch e in ground arith)
      | inr (inr (inl e)) ↦
          rw (e, ask)
            (after out q diff fs _ alone
              (ask-Declined out disk new q keys (out.system diff fs) alone later))
      | inr (inr (inr (inl e))) ↦
          rw (e, ask)
            (after out q sh fs _ alone
              (ask-Declined out disk new q keys (out.system sh fs) alone later))
      | inr (inr (inr (inr e))) ↦ rw (e, ask) (ask-Declined out disk new q keys fs alone later)
    ]

-- The answer for one file, where nobody agrees to the new version.
pub record Settled (out : Outside) (cfg : Config) (q : FilePath) (fs : Files)
    (r : Answer × List ℕ × Files) : Type 0 where
  pub consent : NoConsent out cfg r.1
  pub kept : r.2 q ≡ fs q

Declined-Settled :
    (out : Outside) (cfg : Config) (q : FilePath) (fs : Files) (r : Answer × List ℕ × Files)
    → cfg.force_confnew ≡ false
    → Declined q fs r
    → Settled out cfg q fs r
Declined-Settled out cfg q fs r h d = record { consent = (h, inr (inr d.quiet)); kept = d.kept }

prompt-Settled :
    (out : Outside) (cfg : Config) (disk new q : FilePath) (keys : List ℕ) (fs : Files)
    → LeavesAlone out q
    → NoConsent out cfg keys
    → ((conffile_prompt out cfg disk new keys fs).0 ≢ install_new)
      × Settled out cfg q fs (conffile_prompt out cfg disk new keys fs)
unfolding conffile_prompt
prompt-Settled out cfg disk new q keys fs alone (free, how) = elim (Bool-cases cfg.force_confold) [
  | inl old ↦
      let e : conffile_prompt out cfg disk new keys fs ≡ (keep_old, keys, fs) = ground arith in
      rw (e) (λ x. cc, record { consent = (free, inl old); kept = refl })
  | inr ask_me ↦ elim (Bool-cases out.isatty) [
    | inr no_tty ↦
        let e : conffile_prompt out cfg disk new keys fs ≡ (review, keys, fs) = ground arith in
        rw (e) (λ x. cc, record { consent = (free, inr (inl no_tty)); kept = refl })
    | inl tty ↦
        let quiet : any is_accept keys ≡ false = elim how [
          | inl t ↦ absurd (let x = sym t ∙ ask_me in cc)
          | inr (inl t) ↦ absurd (let x = sym t ∙ tty in cc)
          | inr (inr t) ↦ t
        ] in
        let d = ask-Declined out disk new q keys fs alone quiet in
        let e : conffile_prompt out cfg disk new keys fs ≡ ask out disk new keys fs =
          ground arith in
        rw (e) (d.answer, Declined-Settled out cfg q fs _ free d)
  ]
]

-- With a digest that differs from the recorded one, the comparison alone never installs.
decide_modified :
    (old new : Option Bytes) (current : Bytes)
    → old ≢ some current
    → decide old (some current) new ≢ some install_new
unfolding decide
decide_modified old none current h e = cc
decide_modified none (some n) current h e = ground arith
decide_modified (some o) (some n) current h e =
    let differs = str_eq_ne o current (λ x. h (ap some x)) in ground arith

pub answer_for-Settled :
    (out : Outside) (cfg : Config) (disk new q : FilePath) (old current newm : Option Bytes)
    (keys : List ℕ) (fs : Files)
    → LeavesAlone out q
    → NoConsent out cfg keys
    → Settled out cfg q fs (answer_for out cfg disk new old current newm keys fs)
unfolding answer_for
answer_for-Settled out cfg disk new q old current newm keys fs alone consent =
    elim (Option-cases (decide old current newm)) [
      | inr (a, e) ↦ rw (e, answer_for) (record { consent = consent; kept = refl })
      | inl e ↦ rw (e, answer_for) (prompt-Settled out cfg disk new q keys fs alone consent).1
    ]

pub answer_for_modified :
    (out : Outside) (cfg : Config) (disk new : FilePath) (old newm : Option Bytes) (current : Bytes)
    (keys : List ℕ) (fs : Files)
    → LeavesAlone out disk
    → NoConsent out cfg keys
    → old ≢ some current
    → (answer_for out cfg disk new old (some current) newm keys fs).0 ≢ install_new
unfolding answer_for
answer_for_modified out cfg disk new old newm current keys fs alone consent h =
    elim (Option-cases (decide old (some current) newm)) [
      | inr (a, e) ↦ rw (e, answer_for) (λ k. decide_modified old newm current h (e ∙ ap some k))
      | inl e ↦ rw (e, answer_for) (prompt-Settled out cfg disk new disk keys fs alone consent).0
    ]

pub take_new_other :
    (out : Outside) (disk new q : FilePath) (fs : Files)
    → new ≢ q
    → disk ≢ q
    → take_new out disk new fs q ≡ fs q
unfolding take_new
take_new_other out disk new q fs h k = elim (Option-cases (fs new)) [
  | inl e ↦ rw (e, take_new) refl
  | inr (v, e) ↦ elim (Bool-cases (out.rename_fails disk)) [
    | inl t ↦ rw (e, take_new, t) refl
    | inr f ↦ rw (e, take_new, f) (rename_other new disk q v fs h k)
  ]
]

-- Only the new version's file is touched, unless the new version is installed.
pub carry_out_other :
    (out : Outside) (disk new q : FilePath) (md5 : Option Bytes) (answer : Answer) (fs : Files)
    → new ≢ q
    → (disk ≢ q) ⊎ (answer ≢ install_new)
    → carry_out out disk new md5 answer fs q ≡ fs q
unfolding carry_out
carry_out_other out disk new q none install_new fs h k = refl
carry_out_other out disk new q (some md5) install_new fs h (inl k) =
    take_new_other out disk new q fs h k
carry_out_other out disk new q (some md5) install_new fs h (inr k) = absurd (k refl)
carry_out_other out disk new q md5 keep_old fs h k = unlink_other new q fs h
carry_out_other out disk new q md5 review fs h k = refl
