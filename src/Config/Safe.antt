-- ===== src/Config/Safe.antt =====
-- What no configuration file can do: name a source unsafely, or turn the signature check off by
-- anything but an explicit line.
use aept.Base.{
  ◌≡◌, inl, inr, Bool, true, false, Option, none, some, List, [], ◌∷◌, ◌++◌, arith, if◌then◌else◌,
  Bool-cases, Option-cases, All,
}
use aept.Text.Strings.{Bytes, before}
use aept.Text.Lines.{read_lines}
use aept.Text.Scan.{skip_space}
use aept.Files.{FilePath, Files}
use aept.Util.{pkg_name_is_safe}
use aept.Config.{
  Source, Config, config_defaults, add_source, add_arch, set_path, set_flag, set_option,
}
use aept.Config.Load.{
  both, cut_token, strsep, directive, config_line, config_lines, config_buffer, config_load,
}

-- Every source has a name that `aept_pkg_name_is_safe` accepts.
abbrev pub HasSafeSources : Config → Type 0
HasSafeSources cfg = All (λ (s : Source). pkg_name_is_safe (some s.name) ≡ true) cfg.sources

All-concat {ℓ κ} :
    {A : Type ℓ} (P : A → Type κ) (xs : List A) (x : A) → P x → All P xs → All P (xs ++ x ∷ [])
All-concat P [] x p h = (p, tt)
All-concat P (y ∷ ys) x p h = (h.0, All-concat P ys x p h.1)

add_source-HasSafeSources :
    (cfg : Config) (name url : Bytes) (gzip : Bool)
    → HasSafeSources cfg
    → HasSafeSources (add_source cfg name url gzip)
unfolding add_source
add_source-HasSafeSources cfg name url gzip h = elim (Bool-cases (pkg_name_is_safe (some name))) [
  | inl t ↦ rw t (All-concat _ cfg.sources (record { name = name; url = url; gzip = gzip }) t h)
  | inr f ↦ rw f h
]

set_path-sources :
    (cfg : Config) (key v : Bytes)
    → (elim (set_path cfg key v) [ some c ↦ c.sources | none ↦ cfg.sources ]) ≡ cfg.sources
unfolding set_path
set_path-sources cfg key v = ground arith

set_option-sources : (cfg : Config) (key v : Bytes) → (set_option cfg key v).sources ≡ cfg.sources
unfolding set_option set_flag
set_option-sources cfg key v = ground (arith, set_path-sources cfg key v)

-- A property of the configuration that the three ways to change it keep holds of what is loaded.
module _ {κ} (P : Config → Type κ)
    (source : (cfg : Config) (name url : Bytes) (gzip : Bool)
      → P cfg
      → P (add_source cfg name url gzip))
    (option : (cfg : Config) (key v : Bytes) → P cfg → P (set_option cfg key v))
    (arch : (cfg : Config) (a : Bytes) → P cfg → P (add_arch cfg a)) where
  keep_if : (b : Bool) (x y : Config) → P x → P y → P (if b then x else y)
  keep_if true x y h k = h
  keep_if false x y h k = k

  keep_pair :
      (o : Option (Bytes × Bytes)) (cfg : Config) (f : Bytes → Bytes → Config)
      → P cfg
      → ((x y : Bytes) → P (f x y))
      → P (elim o [ none ↦ cfg | some (x, y) ↦ f x y ])
  keep_pair none cfg f h k = h
  keep_pair (some (x, y)) cfg f h k = k x y

  keep_one :
      (o : Option Bytes) (cfg : Config) (f : Bytes → Config)
      → P cfg
      → ((x : Bytes) → P (f x))
      → P (elim o [ none ↦ cfg | some x ↦ f x ])
  keep_one none cfg f h k = h
  keep_one (some x) cfg f h k = k x

  directive_keeps :
      (cfg : Config) (token : Bytes) (line : Option Bytes) → P cfg → P (directive cfg token line)
  unfolding directive
  directive_keeps cfg token line h =
      let (first, line1) = strsep line in
      let (second, line2) = strsep line1 in
      let two = both first second in
      let gz =
        keep_pair two cfg (λ n u. add_source cfg n u true) h (λ n u. source cfg n u true h) in
      let plain =
        keep_pair two cfg (λ n u. add_source cfg n u false) h (λ n u. source cfg n u false h) in
      let opt = keep_pair two cfg (set_option cfg) h (λ k v. option cfg k v h) in
      let arc = keep_one first cfg (add_arch cfg) h (λ a. arch cfg a h) in
      keep_if _ _ _ gz (keep_if _ _ _ plain (keep_if _ _ _ opt (keep_if _ _ _ arc h)))

  config_line_keeps : (cfg : Config) (buf : Bytes) → P cfg → P (config_line cfg buf)
  unfolding config_line
  config_line_keeps cfg buf h =
      let line = skip_space (before b'\n' buf) in
      let (token, rest) = cut_token line in keep_if _ _ _ h (directive_keeps cfg token rest h)

  config_lines_keeps : (cfg : Config) (ls : List Bytes) → P cfg → P (config_lines cfg ls)
  unfolding config_lines
  config_lines_keeps cfg [] h = h
  config_lines_keeps cfg (l ∷ ls) h =
      config_lines_keeps (config_line cfg l) ls (config_line_keeps cfg l h)

  pub config_load_keeps :
      (filename : FilePath) (fs : Files) → P config_defaults → P (config_load filename fs).1
  unfolding config_load
  config_load_keeps filename fs h = elim (Option-cases (fs filename)) [
    | inl gone ↦ rw (gone, config_load) h
    | inr (s, there) ↦
        rw (there, config_load) (config_lines_keeps config_defaults (read_lines config_buffer s) h)
  ]

-- Whatever a configuration file holds, every source that is loaded has a name that
-- `aept_pkg_name_is_safe` accepts.
pub config_load-HasSafeSources :
    (filename : FilePath) (fs : Files) → HasSafeSources (config_load filename fs).1
config_load-HasSafeSources filename fs =
    config_load_keeps HasSafeSources add_source-HasSafeSources
      (λ cfg key v h. rw (set_option-sources cfg key v) h) (λ cfg a h. unfold add_arch in h)
      filename fs tt
