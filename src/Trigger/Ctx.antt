-- ===== src/Trigger/Ctx.antt =====
-- The first half of src/trigger.c: the directories that a transaction touches.
use aept.Base.{
  ℕ, ◌+◌, ◌-◌, ◌*◌, ◌/◌, ◌%◌, Bool, true, false, ◌&&◌, Option, none, some, List, [], ◌∷◌, ◌++◌, leb,
  ◌==◌, if◌then◌else◌, any, length,
}
use aept.Text.Strings.{Bytes, codes, str_eq, is_empty, before, behind}
use aept.Text.Lines.{read_lines}
use aept.Text.Scan.{skip_space}
use aept.Text.Search.{qsort}
use aept.Files.{Files}
use aept.Util
use aept.Config.{Config}

-- `aept_trigger_ctx_t`, without the capacities of its arrays.
pub record TriggerCtx : Type 0 where
  pub dirs : List Bytes
  pub fresh_pkgs : List Bytes
  pub dirs_sorted : Bool

abbrev pub ctx_init : TriggerCtx
ctx_init = record { dirs = []; fresh_pkgs = []; dirs_sorted = false }

-- The string is in the array.
abbrev pub holds : Bytes → List Bytes → Bool
holds x = any (λ y. str_eq y x)

unfoldable pub add_dir : TriggerCtx → Bytes → TriggerCtx
add_dir ctx path =
    let dir = Util.normalize_path path in
    if is_empty dir
    then ctx
    else if holds dir ctx.dirs
    then ctx
    else record ctx { dirs = ctx.dirs ++ dir ∷ []; dirs_sorted = false }

unfoldable pub add_fresh : TriggerCtx → Bytes → TriggerCtx
add_fresh ctx name = record ctx { fresh_pkgs = ctx.fresh_pkgs ++ name ∷ [] }

-- What stands before the last slash.
unfoldable pub parent_dir : Bytes → Option Bytes
parent_dir [] = none
parent_dir (c ∷ cs) = elim (parent_dir cs) [
  | some p ↦ some (c ∷ p)
  | none ↦ if c == b'/' then some [] else none
]

-- The digits of an octal number.
unfoldable pub octal : ℕ → Bytes → ℕ
octal n [] = n
octal n (c ∷ cs) =
    let rest = octal (n * 8 + (c - b'0')) cs in if leb b'0' c && leb c b'7' then rest else n

-- `ULONG_MAX + 1`, for an `unsigned long` of 64 bits, and `UINT_MAX + 1`.
abbrev ulong_size : ℕ
ulong_size = 18446744073709551616

abbrev uint_size : ℕ
uint_size = 4294967296

-- A number out of range becomes `ULONG_MAX`; one with a minus sign is negated in the type.
abbrev to_ulong : Bool → ℕ → ℕ
to_ulong negative n =
    if leb ulong_size n
    then ulong_size - 1
    else if negative
    then (ulong_size - n) % ulong_size
    else n

-- `strtoul(s, NULL, 8)`.
unfoldable pub strtoul : Bytes → ℕ
unfolding octal
strtoul s = elim (skip_space s) [
  | [] ↦ 0
  | c ∷ cs ↦
      if c == b'-'
      then to_ulong true (octal 0 cs)
      else if c == b'+'
      then to_ulong false (octal 0 cs)
      else to_ulong false (octal 0 (c ∷ cs))
]

-- `S_ISDIR((unsigned int)mode)`.
abbrev pub is_dir_mode : ℕ → Bool
is_dir_mode mode = mode % uint_size / 4096 % 16 == 4

abbrev pub mode_of : Option Bytes → ℕ
mode_of none = 0
mode_of (some digits) = strtoul digits

-- The body of the loop of `aept_trigger_ctx_collect_dirs`, on the string in its buffer.
unfoldable pub collect_line : TriggerCtx → Bytes → TriggerCtx
collect_line ctx l =
    let buf = before b'\n' l in
    let mode = mode_of (behind b'\t' buf) in
    let path = Util.normalize_path (before b'\t' buf) in
    if is_empty path
    then ctx
    else if is_dir_mode mode
    then add_dir ctx path
    else (elim (parent_dir path) [ none ↦ ctx | some dir ↦ add_dir ctx dir ])

unfoldable pub collect_lines : TriggerCtx → List Bytes → TriggerCtx
collect_lines ctx [] = ctx
collect_lines ctx (l ∷ ls) = collect_lines (collect_line ctx l) ls

-- `char buf[4096]`.
abbrev pub list_buffer : ℕ
list_buffer = 4096

unfoldable pub collect_dirs : Config → TriggerCtx → Bytes → Files → TriggerCtx
collect_dirs cfg tctx name fs = elim (fs (cfg.info_dir ++ b'/' ∷ (name ++ codes ".list"))) [
  | none ↦ tctx
  | some s ↦ collect_lines tctx (read_lines list_buffer s)
]

-- The loop of `sort_and_dedup` behind the sorting: `prev` is the last string that was kept.
unfoldable pub dedup_after : Bytes → List Bytes → List Bytes
dedup_after prev [] = []
dedup_after prev (x ∷ xs) =
    let same = dedup_after prev xs in
    let rest = dedup_after x xs in if str_eq prev x then same else x ∷ rest

abbrev pub str_key : Bytes → Bytes
str_key s = s

unfoldable pub sort_and_dedup : List Bytes → List Bytes
sort_and_dedup arr =
    if leb (length arr) 1
    then arr
    else (elim (qsort str_key arr) [ [] ↦ [] | x ∷ xs ↦ x ∷ dedup_after x xs ])
