-- ===== src/Mptcp/Kernel.antt =====
-- What /mptcp changes, and how: sysctl values, module parameters and two files, each step of which may
-- fail.
use openmptcprouter_vps.Dict.{insert, lookup}
use openmptcprouter_vps.Exec.{Exec, ok, os_error, pure, raise, raised, ◌>>=◌, ◌>>◌}
use openmptcprouter_vps.Prelude.{
  Bool, List, Option, String, false, if◌then◌else◌, none, not, some, true, ℕ, ◌+◌, ◌==◌,
}

-- 90-shadowsocks.conf: not there, not UTF-8, or a text.
pub data ConfFile : Type 0 where
  no_conf undecodable : ConfFile
  conf_text : String → ConfFile

-- os.replace may have worked when atomic_write_file raises, since the directory is synced behind it.
pub data Replaced : Type 0 where
  in_place failed_before failed_after : Replaced

-- How the calls end, by the number of calls made before. `stores n key value` is what the setting is
-- after a write (`sysctl -qw`, or a write to the parameter's file) or none if the write fails; `reads`
-- is whether a read works.
pub record Kernel : Type 0 where
  pub stores : ℕ → String → String → Option String
  pub reads : ℕ → String → Bool
  pub replaces : ℕ → String → Replaced

-- `values` are the settings by sysctl key or by the path of a parameter's file, as text without white
-- space around it; `nanbbr_conf` is nanbbr-var.json, if it is there; `calls` counts the calls.
-- `modprobed` and `commands` are the modules loaded and the restarts, the last first.
pub record Settings : Type 0 where
  pub values : List (String × String)
  pub conf : ConfFile
  pub nanbbr_conf : Option String
  pub calls : ℕ
  pub modprobed : List String
  pub commands : List String

abbrev pub called : Settings → Settings
called s = record s { calls = s.calls + 1 }

-- One of the subprocess or file calls that read a setting.
unfoldable pub read_setting : Kernel → String → Exec Settings String
read_setting kernel key s =
    if not (kernel.reads s.calls key)
    then (raised os_error, called s)
    else elim (lookup key s.values) [
      | none ↦ (raised os_error, called s)
      | some value ↦ (ok value, called s)
    ]

-- One that writes a setting; a setting that is not there cannot be written.
unfoldable pub write_setting : Kernel → String → String → Exec Settings Unit
write_setting kernel key value s = elim (lookup key s.values) [
  | none ↦ (raised os_error, called s)
  | some old ↦ elim (kernel.stores s.calls key value) [
    | none ↦ (raised os_error, called s)
    | some stored ↦ (ok tt, record (called s) { values = insert key stored s.values })
  ]
]

-- A write that is read back. (A write that fails leaves the setting as it is.)
unfoldable pub change_setting : Kernel → String → String → Exec Settings Unit
change_setting kernel key value = do
  write_setting kernel key value
  readback ← read_setting kernel key
  if readback == value then pure tt else raise os_error

abbrev pub after_replace : Replaced → Settings → Exec Settings Unit
after_replace in_place new s = (ok tt, new)
after_replace failed_before new s = (raised os_error, called s)
after_replace failed_after new s = (raised os_error, new)

abbrev pub conf_path : String
conf_path = "/etc/sysctl.d/90-shadowsocks.conf"

abbrev pub nanbbr_path : String
nanbbr_path = "/etc/openmptcprouter-vps-admin/nanbbr-var.json"

-- atomic_write_file(MPTCP_SYSCTL_FILE, content)
unfoldable pub replace_conf : Kernel → ConfFile → Exec Settings Unit
replace_conf kernel content s =
    after_replace (kernel.replaces s.calls conf_path) (record (called s) { conf = content }) s

-- atomic_write_file(NANBBR_CONFIG_FILE, content)
unfoldable pub replace_nanbbr : Kernel → String → Exec Settings Unit
replace_nanbbr kernel content s =
    after_replace (kernel.replaces s.calls nanbbr_path)
      (record (called s) { nanbbr_conf = some content }) s

-- os.remove(NANBBR_CONFIG_FILE), where a missing file is no error.
unfoldable pub remove_nanbbr : Kernel → Exec Settings Unit
remove_nanbbr kernel s =
    after_replace (kernel.replaces s.calls nanbbr_path) (record (called s) { nanbbr_conf = none }) s

-- try: m; except: note the error. The answer is whether there was one; a KeyError is not caught.
unfoldable pub fails : Exec Settings Unit → Exec Settings Bool
fails m s =
    let (r, after) = m s in
    elim r [
      | ok u ↦ (ok false, after)
      | raised e ↦ elim e [ os_error ↦ (ok true, after) | other ↦ (raised other, after) ]
    ]
