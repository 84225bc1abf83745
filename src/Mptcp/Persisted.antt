-- ===== src/Mptcp/Persisted.antt =====
-- normalize_persisted_mptcp_path_manager and _rewrite_sysctl_conf_line.
use Prim.Native.Char.{code}
use openmptcprouter_vps.Mptcp.Names.{normalize_mptcp_path_manager, strip_prefix}
use openmptcprouter_vps.Prelude.{
  Bool, List, Option, String, [], fmt, if◌then◌else◌, is_some, leb, none, not, some, ℕ, ◌&&◌, ◌==ℕ◌,
  ◌==◌, ◌||◌, ◌∷◌,
}

-- str.isspace of a character: the ASCII ones.
abbrev is_space : ℕ → Bool
is_space c = c ==ℕ 32 || (leb 9 c && leb c 13) || (leb 28 c && leb c 31)

unfoldable pub left_strip : String → String
left_strip String.[] = ""
left_strip (String.◌∷◌ c s) =
    let rest = left_strip s in if is_space (code c) then rest else String.◌∷◌ c s

unfoldable pub right_strip : String → String
right_strip String.[] = ""
right_strip (String.◌∷◌ c s) =
    let rest = right_strip s in if is_space (code c) && (rest == "") then "" else String.◌∷◌ c rest

-- s.strip()
unfoldable pub strip : String → String
unfolding left_strip right_strip
strip s = right_strip (left_strip s)

-- The value of a line `key=value`, if it is one, as `line.strip().startswith(key + '=')` tells.
unfoldable pub value_in : String → String → Option String
unfolding strip strip_prefix
value_in key line = strip_prefix (fmt (key ∷ "=" ∷ [])) (strip line)

-- 90-shadowsocks.conf by lines without their line ends, if it is there, and the commands run, the last
-- first. The write is taken to work; a failure is only logged.
pub record SysctlState : Type 0 where
  pub conf : Option (List String)
  pub commands : List (List String)

unfoldable pub rewritten : String → String → List String → List String
rewritten key value [] = []
rewritten key value (line ∷ lines) =
    (if is_some (value_in key line) then fmt (key ∷ "=" ∷ value ∷ []) else line)
    ∷ rewritten key value lines

-- The value of the first line of the key.
unfoldable pub first_value : String → List String → Option String
first_value key [] = none
first_value key (line ∷ lines) = elim (value_in key line) [
  | none ↦ first_value key lines
  | some v ↦ some (strip v)
]

abbrev pub pm_key : String
pm_key = "net.mptcp.path_manager"

-- What a value is repaired to.
unfoldable pub repair : List String → List String → String → SysctlState → SysctlState
repair available lines value w =
    let normalized = normalize_mptcp_path_manager available value in
    if normalized == value then w else record {
      conf = some (rewritten pm_key normalized lines);
      commands = ("sysctl" ∷ "-qw" ∷ fmt (pm_key ∷ "=" ∷ normalized ∷ []) ∷ []) ∷ w.commands;
    }

-- `supported` is whether /proc/sys/net/mptcp/path_manager is there.
unfoldable pub normalize_persisted_mptcp_path_manager :
    Bool → List String → SysctlState → SysctlState
normalize_persisted_mptcp_path_manager supported available w = elim w.conf [
  | none ↦ w
  | some lines ↦ if not supported then w else elim (first_value pm_key lines) [
    | none ↦ w
    | some value ↦ repair available lines value w
  ]
]
