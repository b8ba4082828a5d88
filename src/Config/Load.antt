-- ===== src/Config/Load.antt =====
-- `aept_config_load` of src/config.c.
use aept.Base.{ℕ, Bool, true, false, ◌||◌, Option, none, some, List, [], ◌∷◌, ◌==◌, if◌then◌else◌}
use aept.Text.Strings.{Bytes, codes, str_eq, before}
use aept.Text.Lines.{read_lines}
use aept.Text.Scan.{skip_space}
use aept.Files.{FilePath, Files, Code, success, failure}
use aept.Config.{Config, add_arch, add_source, config_defaults, set_option}

abbrev pub is_delimiter : ℕ → Bool
is_delimiter c = c == b' ' || c == b'\t'

-- `strsep(&s, " \t")`: the token, and what is left, a null pointer behind the last token.
unfoldable pub cut_token : Bytes → Bytes × Option Bytes
cut_token [] = ([], none)
cut_token (c ∷ cs) = elim (is_delimiter c) [
  | true ↦ ([], some cs)
  | false ↦ let (token, rest) = cut_token cs in (c ∷ token, rest)
]

unfoldable pub strsep : Option Bytes → Option Bytes × Option Bytes
unfolding cut_token
strsep none = (none, none)
strsep (some s) = let (token, rest) = cut_token s in (some token, rest)

-- `if (a && b)` for two pointers.
abbrev pub both : Option Bytes → Option Bytes → Option (Bytes × Bytes)
both none b = none
both (some x) none = none
both (some x) (some y) = some (x, y)

-- A line that is neither blank nor a comment: its first token, and what is left of it.
unfoldable pub directive : Config → Bytes → Option Bytes → Config
directive cfg token line =
    let (first, line1) = strsep line in
    let (second, line2) = strsep line1 in
    if str_eq token (codes "src/gz")
    then (elim (both first second) [ none ↦ cfg | some (name, url) ↦ add_source cfg name url true ])
    else if str_eq token (codes "src")
    then (elim (both first second) [
      | none ↦ cfg
      | some (name, url) ↦ add_source cfg name url false
    ])
    else if str_eq token (codes "option")
    then (elim (both first second) [ none ↦ cfg | some (key, value) ↦ set_option cfg key value ])
    else if str_eq token (codes "arch")
    then (elim first [ none ↦ cfg | some arch ↦ add_arch cfg arch ])
    else cfg

abbrev pub starts_comment : Bytes → Bool
starts_comment [] = true
starts_comment (c ∷ cs) = c == b'#'

-- The body of the loop of `aept_config_load`.
unfoldable pub config_line : Config → Bytes → Config
config_line cfg buf =
    let line = skip_space (before b'\n' buf) in
    let (token, rest) = cut_token line in
    if starts_comment line then cfg else directive cfg token rest

unfoldable pub config_lines : Config → List Bytes → Config
config_lines cfg [] = cfg
config_lines cfg (l ∷ ls) = config_lines (config_line cfg l) ls

-- `char buf[4096]`.
abbrev pub config_buffer : ℕ
config_buffer = 4096

unfoldable pub config_load : FilePath → Files → Code × Config
config_load filename fs = elim (fs filename) [
  | none ↦ (failure, config_defaults)
  | some s ↦ (success, config_lines config_defaults (read_lines config_buffer s))
]
