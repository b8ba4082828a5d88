-- ===== src/Config/Signature.antt =====
-- No line of a configuration file turns the signature check off but an explicit one.
use mathlib.Core.Path.{subst, subst₂}
use aept.Base.{
  ℕ, ◌≡◌, refl, ap, ◌∙◌, inl, inr, Bool, true, false, Option, none, some, List, [], ◌∷◌, ◌++◌,
  arith, Bool-cases, Option-cases,
}
use mathlib.Core.List.{Memᴰ}
use aept.Text.Strings.{Bytes, codes, str_eq, str_eq_iff, before}
use aept.Text.Lines.{read_lines}
use aept.Text.Scan.{skip_space}
use aept.Files.{FilePath, Files}
use aept.Config.{
  Config, config_defaults, add_source, add_arch, is_falsy, parse_bool, set_path, set_flag,
  set_option,
}
use aept.Config.Load.{
  is_delimiter, cut_token, strsep, directive, config_line, config_lines, config_buffer, config_load,
}

set_path-check :
    (cfg : Config) (key v : Bytes)
    → (elim (set_path cfg key v) [ some c ↦ c.check_signature | none ↦ cfg.check_signature ])
      ≡ cfg.check_signature
unfolding set_path
set_path-check cfg key v = ground arith

set_option-check :
    (cfg : Config) (key v : Bytes)
    → cfg.check_signature ≡ true
    → (set_option cfg key v).check_signature ≡ false
    → (key ≡ codes "check_signature") × (is_falsy v ≡ true)
unfolding set_option set_flag parse_bool
set_option-check cfg key v on off =
    ground (arith, set_path-check cfg key v, str_eq_iff key (codes "check_signature"))

-- What `strsep` cuts: the whole string, or the token in front of a delimiter.
abbrev pub Cuts : Bytes → Bytes → Option Bytes → Type 0
Cuts s token none = s ≡ token
Cuts s token (some rest) = (d : ℕ) × (is_delimiter d ≡ true) × (s ≡ token ++ d ∷ rest)

Cuts-cons :
    (c : ℕ) (s token : Bytes) (rest : Option Bytes)
    → Cuts s token rest
    → Cuts (c ∷ s) (c ∷ token) rest
Cuts-cons c s token none h = ap (◌∷◌ c) h
Cuts-cons c s token (some r) (d, k, e) = (d, k, ap (◌∷◌ c) e)

cut_token_at : (c : ℕ) (cs : Bytes) → is_delimiter c ≡ true → cut_token (c ∷ cs) ≡ ([], some cs)
unfolding cut_token
cut_token_at c cs h = rw (h, cut_token)

cut_token_on :
    (c : ℕ) (cs : Bytes)
    → is_delimiter c ≡ false
    → cut_token (c ∷ cs) ≡ (c ∷ (cut_token cs).0, (cut_token cs).1)
unfolding cut_token
cut_token_on c cs h = rw (h, cut_token)

cut_token-Cuts : (s : Bytes) → Cuts s (cut_token s).0 (cut_token s).1
cut_token-Cuts [] = unfold cut_token in refl
cut_token-Cuts (c ∷ cs) = elim (Bool-cases (is_delimiter c)) [
  | inl t ↦ rw (cut_token_at c cs t) (c, t, refl)
  | inr f ↦
      rw (cut_token_on c cs f)
        (Cuts-cons c cs (cut_token cs).0 (cut_token cs).1 (cut_token-Cuts cs))
]

add_source-check :
    (cfg : Config) (name url : Bytes) (gzip : Bool)
    → (add_source cfg name url gzip).check_signature ≡ cfg.check_signature
unfolding add_source
add_source-check cfg name url gzip = ground arith

-- The words that turn the check off, as `directive` gets them.
record Off (token : Bytes) (line : Option Bytes) : Type 0 where
  value : Bytes
  first : token ≡ codes "option"
  key : (strsep line).0 ≡ some (codes "check_signature")
  second : (strsep (strsep line).1).0 ≡ some value
  falsy : is_falsy value ≡ true

directive-Off :
    (cfg : Config) (token : Bytes) (line : Option Bytes)
    → cfg.check_signature ≡ true
    → (directive cfg token line).check_signature ≡ false
    → Off token line
unfolding directive add_arch
directive-Off cfg token line on off =
    let a = (strsep line).0 in
    let b = (strsep (strsep line).1).0 in
    elim (Option-cases a) [
      | inl none_a ↦ absurd (ground arith)
      | inr (k, some_a) ↦ elim (Option-cases b) [
        | inl none_b ↦ absurd (ground arith)
        | inr (v, some_b) ↦
            let opt : ((set_option cfg k v).check_signature ≡ false)
                × (str_eq token (codes "option") ≡ true) =
              ground (arith, add_source-check cfg k v true, add_source-check cfg k v false) in
            let (key_is, falsy_is) = set_option-check cfg k v on opt.0 in
            record {
              value = v;
              first = (str_eq_iff token (codes "option")).0 opt.1;
              key = some_a ∙ ap some key_is;
              second = some_b;
              falsy = falsy_is;
            }
      ]
    ]

strsep-some :
    (o : Option Bytes) (t : Bytes)
    → (strsep o).0 ≡ some t
    → (s : Bytes) × (o ≡ some s) × Cuts s t (strsep o).1
unfolding strsep
strsep-some none t h = cc
strsep-some (some s) t h =
    let e : (cut_token s).0 ≡ t = cc in
    (s, refl, subst (λ x. Cuts s x (cut_token s).1) e (cut_token-Cuts s))

-- The line reads `option check_signature <value>`, behind white space and with one space or tab
-- between its words, where the value is one of the four falsy words, alone or in front of a space or
-- a tab.
pub record TurnsOff (buf : Bytes) : Type 0 where
  pub first_delimiter : ℕ
  pub second_delimiter : ℕ
  pub value : Bytes
  pub after : Bytes
  pub rest : Option Bytes
  pub delimiters : (is_delimiter first_delimiter ≡ true) × (is_delimiter second_delimiter ≡ true)
  pub reads :
      skip_space (before b'\n' buf)
      ≡ codes "option" ++ first_delimiter ∷ (codes "check_signature" ++ second_delimiter ∷ after)
  pub last_word : Cuts after value rest
  pub falsy : is_falsy value ≡ true

Off-TurnsOff :
    (buf : Bytes)
    → Off
        (cut_token (skip_space (before b'\n' buf))).0
        (cut_token (skip_space (before b'\n' buf))).1
    → TurnsOff buf
Off-TurnsOff buf o =
    let line = skip_space (before b'\n' buf) in
    let rest1 = (cut_token line).1 in
    let rest2 = (strsep rest1).1 in
    let (s1, e1, c1) = strsep-some rest1 (codes "check_signature") o.key in
    let (s2, e2, c2) = strsep-some rest2 o.value o.second in
    let whole : Cuts line (codes "option") (some s1) =
      subst₂ (Cuts line) o.first e1 (cut_token-Cuts line) in
    let key : Cuts s1 (codes "check_signature") (some s2) =
      subst (Cuts s1 (codes "check_signature")) e2 c1 in
    record {
      first_delimiter = whole.0;
      second_delimiter = key.0;
      value = o.value;
      after = s2;
      rest = (strsep rest2).1;
      delimiters = (whole.1, key.1);
      reads = whole.2 ∙ ap (λ r. codes "option" ++ whole.0 ∷ r) key.2;
      last_word = c2;
      falsy = o.falsy;
    }

config_line-TurnsOff :
    (cfg : Config) (buf : Bytes)
    → cfg.check_signature ≡ true
    → (config_line cfg buf).check_signature ≡ false
    → TurnsOff buf
unfolding config_line
config_line-TurnsOff cfg buf on off =
    let line = skip_space (before b'\n' buf) in
    let (token, rest) = cut_token line in
    let plain : (directive cfg token rest).check_signature ≡ false = ground arith in
    Off-TurnsOff buf (directive-Off cfg token rest on plain)

config_lines-TurnsOff :
    (cfg : Config) (ls : List Bytes)
    → cfg.check_signature ≡ true
    → (config_lines cfg ls).check_signature ≡ false
    → (l : Bytes) × Memᴰ l ls × TurnsOff l
unfolding config_lines
config_lines-TurnsOff cfg [] on off = cc
config_lines-TurnsOff cfg (l ∷ ls) on off = elim (Bool-cases (config_line cfg l).check_signature) [
  | inl still ↦
      let (m, k, t) = config_lines-TurnsOff (config_line cfg l) ls still off in (m, Memᴰ.tail k, t)
  | inr here ↦ (l, Memᴰ.head refl, config_line-TurnsOff cfg l on here)
]

-- The signature check is on after `aept_config_load` unless the file has a line, among those that
-- the loop reads, that turns it off in so many words; a misspelt value does not.
pub config_load-TurnsOff :
    (filename : FilePath) (fs : Files)
    → (config_load filename fs).1.check_signature ≡ false
    → (text : Bytes) × (fs filename ≡ some text)
      × ((l : Bytes) × Memᴰ l (read_lines config_buffer text) × TurnsOff l)
unfolding config_load
config_load-TurnsOff filename fs off = elim (Option-cases (fs filename)) [
  | inl gone ↦ absurd (ground arith)
  | inr (text, there) ↦ (
    text,
    there,
    config_lines-TurnsOff config_defaults (read_lines config_buffer text) refl (ground arith),
  )
]
