-- ===== src/Mptcp/Request.antt =====
-- What /mptcp is asked for: the body MPTCPparams, its checks, and the settings that it asks for.
use Prim.Native.Char.{code}
use openmptcprouter_vps.Dict.{has_key}
use openmptcprouter_vps.Host.Reply.{Reply, reply}
use openmptcprouter_vps.Mptcp.Names.{normalize_mptcp_path_manager, normalize_mptcp_scheduler}
use openmptcprouter_vps.Prelude.{
  Bool, List, Option, String, [], false, fmt, if◌then◌else◌, is_some, leb, negsuc, none, not, pos,
  some, str, true, ℕ, ℤ, ◌&&◌, ◌+◌, ◌==ℕ◌, ◌==◌, ◌||◌, ◌∷◌,
}

-- An integer field as the router sends it: a blank text, which _blank_str_to_zero reads as 0, or an
-- integer. A field that is left out is 0.
pub data IntField : Type 0 where
  blank_text : IntField
  whole : ℤ → IntField

abbrev pub int_field : IntField → ℤ
int_field blank_text = pos 0
int_field (whole v) = v

pub record MptcpParams : Type 0 where
  pub checksum : String
  pub path_manager : String
  pub scheduler : String
  pub syn_retries : IntField
  pub congestion_control : String
  pub version : IntField
  pub close_timeout : IntField
  pub pm_type : IntField
  pub stale_loss_cnt : IntField
  pub syn_retrans_before_tcp_fallback : IntField
  pub nanbbr_aggressiveness : Option ℕ

-- What the host offers: the kernel's path managers, the files of the BPF schedulers, whether it is a
-- kernel of MPTCP v0, which options and files there are, whether a module's parameter is there and
-- writable and which congestion controls the kernel has, by the modules that were loaded.
pub record MptcpHost : Type 0 where
  pub path_managers : List String
  pub scheduler_objects : Option (List String)
  pub is_v0 : Bool
  pub has_option : String → Bool
  pub has_file : String → Bool
  pub is_ready : List String → String → Bool
  pub available_cc : List String → Option (List String)
  pub has_lock : Bool

-- str(value)
unfoldable pub str_int : ℤ → String
str_int (pos n) = str n
str_int (negsuc n) = fmt ("-" ∷ str (n + 1) ∷ [])

-- bool(value)
unfoldable pub is_nonzero : ℤ → Bool
is_nonzero (pos n) = not (n ==ℕ 0)
is_nonzero (negsuc n) = true

-- lo <= value <= hi
unfoldable pub is_within : ℕ → ℕ → ℤ → Bool
is_within lo hi (pos n) = leb lo n && leb n hi
is_within lo hi (negsuc n) = false

-- A character of [A-Za-z0-9_.-]
is_safe_char : ℕ → Bool
is_safe_char c =
    leb 48 c && leb c 57
    || leb 65 c && leb c 90
    || leb 97 c && leb c 122
    || c ==ℕ 95
    || c ==ℕ 46
    || c ==ℕ 45

has_safe_chars : String → Bool
unfolding is_safe_char
has_safe_chars String.[] = true
has_safe_chars (String.◌∷◌ c s) = is_safe_char (code c) && has_safe_chars s

-- safe_name.fullmatch(s)
unfoldable pub is_safe_name : String → Bool
unfolding has_safe_chars
is_safe_name s = not (s == "") && has_safe_chars s

-- NANBBR_VAR_MODULES
abbrev pub nanbbr_var_modules : List (String × String)
nanbbr_var_modules =
    ("nanbbr1_var", "tcp_nanbbr1_var")
    ∷ ("nanbbr2_var", "tcp_nanbbr2_var")
    ∷ ("nanbbr3_var", "tcp_nanbbr3_var")
    ∷ []

unfoldable pub parameter_path : String → String
parameter_path m = fmt ("/sys/module/" ∷ m ∷ "/parameters/aggressiveness" ∷ [])

-- The names that the endpoint works with.
unfoldable pub wanted_path_manager : MptcpHost → MptcpParams → String
wanted_path_manager host p = normalize_mptcp_path_manager host.path_managers p.path_manager

unfoldable pub wanted_scheduler : MptcpHost → MptcpParams → String
wanted_scheduler host p = normalize_mptcp_scheduler host.scheduler_objects p.scheduler

abbrev pub mptcp_error : String → Reply
mptcp_error reason = reply "error" reason

-- The checks before anything is touched, in order: the reason of the error.
unfoldable pub refusal : MptcpHost → MptcpParams → Option String
refusal host p =
    let pm = wanted_path_manager host p in
    let sched = wanted_scheduler host p in
    let control = p.congestion_control in
    let retries = int_field p.syn_retries in
    if p.checksum == "" || pm == "" || sched == "" || not (is_nonzero retries) || control == ""
    then some "Invalid parameters"
    else if not (p.checksum == "0" || p.checksum == "1")
        || not (is_within 1 255 retries)
        || not (is_within 0 1 (int_field p.version))
    then some "Invalid MPTCP numeric parameters"
    else if not (is_safe_name pm) || not (is_safe_name sched) || not (is_safe_name control)
    then some "Invalid MPTCP setting name"
    else if has_key control nanbbr_var_modules && not (is_some p.nanbbr_aggressiveness)
    then some "nanbbr_aggressiveness is required for NanBBR var"
    else none

-- An option of MPTCP v1, with its text and whether its value is true.
abbrev pub whole_option : String → IntField → String × String × Bool
whole_option name v = (name, str_int (int_field v), is_nonzero (int_field v))

abbrev pub text_option : String → String → String × String × Bool
text_option name v = (name, v, not (v == ""))

unfoldable pub v1_options : MptcpHost → MptcpParams → List (String × String × Bool)
v1_options host p =
    text_option "scheduler" (wanted_scheduler host p)
    ∷ text_option "path_manager" (wanted_path_manager host p)
    ∷ whole_option "syn_retries" p.syn_retries
    ∷ whole_option "close_timeout" p.close_timeout
    ∷ whole_option "pm_type" p.pm_type
    ∷ whole_option "stale_loss_cnt" p.stale_loss_cnt
    ∷ whole_option "syn_retrans_before_tcp_fallback" p.syn_retrans_before_tcp_fallback
    ∷ []

-- Those with a value that the kernel has, as sysctl keys.
unfoldable pub offered : MptcpHost → List (String × String × Bool) → List (String × String)
offered host [] = []
offered host ((name, value, truthy) ∷ rest) =
    if truthy && host.has_option name
    then (fmt ("net.mptcp." ∷ name ∷ []), value) ∷ offered host rest
    else offered host rest

-- The settings of MPTCP v0.
unfoldable pub v0_values : MptcpHost → MptcpParams → List (String × String)
v0_values host p =
    ("net.mptcp.mptcp_checksum", p.checksum)
    ∷ ("net.mptcp.mptcp_path_manager", wanted_path_manager host p)
    ∷ ("net.mptcp.mptcp_scheduler", wanted_scheduler host p)
    ∷ ("net.mptcp.mptcp_syn_retries", str_int (int_field p.syn_retries))
    ∷ ("net.mptcp.mptcp_version", str_int (int_field p.version))
    ∷ []

unfoldable pub v1_values : MptcpHost → MptcpParams → List (String × String)
v1_values host p = ("net.mptcp.checksum_enabled", p.checksum) ∷ offered host (v1_options host p)

-- sysctl_values without its last entry, the congestion control.
unfoldable pub mptcp_values : MptcpHost → MptcpParams → List (String × String)
mptcp_values host p = if host.is_v0 then v0_values host p else v1_values host p

abbrev pub cc_key : String
cc_key = "net.ipv4.tcp_congestion_control"

-- nanbbr_config_content
unfoldable pub nanbbr_config_content : ℕ → String
nanbbr_config_content aggressiveness =
    fmt ("{\n  \"aggressiveness\": " ∷ str aggressiveness ∷ ",\n  \"version\": 1\n}\n" ∷ [])
