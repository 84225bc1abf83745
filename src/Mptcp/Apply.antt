-- ===== src/Mptcp/Apply.antt =====
-- The transaction of /mptcp: every setting is read, then each is written and read back, then the files
-- are replaced; on an error everything that was begun is put back.
use openmptcprouter_vps.Dict.{insert, keys}
use openmptcprouter_vps.Exec.{
  Exec, Result, gets, lift, modify, ok, os_error, pure, raised, ◌>>=◌, ◌>>◌,
}
use openmptcprouter_vps.Mptcp.ConfText.{has_text, splitlines}
use openmptcprouter_vps.Mptcp.Kernel.{
  ConfFile, Kernel, Settings, called, change_setting, conf_path, conf_text, nanbbr_path, no_conf,
  read_setting, replace_conf, replace_nanbbr, undecodable,
}
use openmptcprouter_vps.Mptcp.Request.{cc_key, nanbbr_config_content}
use openmptcprouter_vps.Prelude.{
  Bool, List, Option, String, [], false, filter, fmt, if◌then◌else◌, map, none, not, some, str,
  true, ℕ, ◌&&◌, ◌++◌, ◌==◌, ◌∷◌,
}

-- The local variables of the transaction, which the rollback reads. `old_values` holds both
-- old_sysctl_values and old_nanbbr_values, since a sysctl key is no path.
pub record Attempt : Type 0 where
  pub settings : Settings
  pub old_values : List (String × String)
  pub old_conf : ConfFile
  pub old_nanbbr : Option String
  pub applied_sysctls : List String
  pub applied_parameters : List String
  pub restores_conf : Bool
  pub restores_nanbbr : Bool

abbrev pub started : Settings → Attempt
started s = record {
  settings = s;
  old_values = [];
  old_conf = no_conf;
  old_nanbbr = none;
  applied_sysctls = [];
  applied_parameters = [];
  restores_conf = false;
  restores_nanbbr = false;
}

-- A step on the host inside the transaction.
unfoldable pub on_host : {A : Type 0} → Exec Settings A → Exec Attempt A
on_host m a = let (r, s) = m a.settings in (r, record a { settings = s })

-- with open(shadowsocks_file, 'rb') …
unfoldable pub read_conf : Kernel → Exec Settings ConfFile
read_conf kernel s =
    if not (kernel.reads s.calls conf_path) then (raised os_error, called s) else elim s.conf [
      | no_conf ↦ (raised os_error, called s)
      | undecodable ↦ (ok undecodable, called s)
      | conf_text t ↦ (ok (conf_text t), called s)
    ]

-- with open(NANBBR_CONFIG_FILE, 'rb') …, where a missing file is None.
unfoldable pub read_nanbbr : Kernel → Exec Settings (Option String)
read_nanbbr kernel s =
    if not (kernel.reads s.calls nanbbr_path)
    then (raised os_error, called s)
    else (ok s.nanbbr_conf, called s)

unfoldable pub read_files : Kernel → Exec Attempt Unit
read_files kernel = do
  conf ← on_host (read_conf kernel)
  modify (λ a. record a { old_conf = conf })
  nanbbr ← on_host (read_nanbbr kernel)
  modify (λ a. record a { old_nanbbr = nanbbr })

-- for key in keys: old[key] = …
unfoldable pub read_old : Kernel → List String → Exec Attempt Unit
read_old kernel [] = pure tt
read_old kernel (key ∷ keys) = do
  value ← on_host (read_setting kernel key)
  modify (λ a. record a { old_values = insert key value a.old_values })
  read_old kernel keys

-- A line that the endpoint does not own.
unfoldable pub is_kept_line : String → Bool
is_kept_line line =
    not (has_text "net.mptcp" line) && not (has_text "net.ipv4.tcp_congestion_control" line)

unfoldable pub value_line : String × String → String
value_line (key, value) = fmt (key ∷ "=" ∷ value ∷ "\n" ∷ [])

unfoldable pub new_conf : String → List (String × String) → String
new_conf old values = fmt (filter is_kept_line (splitlines old) ++ map value_line values)

-- old_shadowsocks_content.decode('utf-8')
unfoldable pub decoded : ConfFile → Result String
decoded no_conf = raised os_error
decoded undecodable = raised os_error
decoded (conf_text t) = ok t

unfoldable pub apply_sysctls : Kernel → List (String × String) → Exec Attempt Unit
apply_sysctls kernel [] = pure tt
apply_sysctls kernel ((key, value) ∷ rest) = do
  modify (λ a. record a { applied_sysctls = key ∷ a.applied_sysctls })
  on_host (change_setting kernel key value)
  apply_sysctls kernel rest

unfoldable pub apply_parameters : Kernel → String → List String → Exec Attempt Unit
apply_parameters kernel value [] = pure tt
apply_parameters kernel value (parameter ∷ rest) = do
  modify (λ a. record a { applied_parameters = parameter ∷ a.applied_parameters })
  on_host (change_setting kernel parameter value)
  apply_parameters kernel value rest

-- old_nanbbr_content == new_nanbbr_content
unfoldable pub has_content : Option String → String → Bool
has_content none content = false
has_content (some old) content = old == content

unfoldable pub write_nanbbr : Kernel → String → Exec Attempt Unit
write_nanbbr kernel content = do
  old ← gets (λ a. a.old_nanbbr)
  if has_content old content then pure tt else do
    modify (λ a. record a { restores_nanbbr = true })
    on_host (replace_nanbbr kernel content)

unfoldable pub write_conf : Kernel → String → String → Exec Attempt Unit
write_conf kernel old content = if old == content then pure tt else do
  modify (λ a. record a { restores_conf = true })
  on_host (replace_conf kernel (conf_text content))

-- Everything that may have to be put back is read.
unfoldable pub read_all : Kernel → List String → List String → Exec Attempt Unit
read_all kernel sysctls parameters = do
  read_files kernel
  read_old kernel sysctls
  read_old kernel parameters

-- if nanbbr_aggressiveness is not None: …
unfoldable pub apply_aggressiveness : Kernel → Option ℕ → List String → Exec Attempt Unit
apply_aggressiveness kernel none parameters = pure tt
apply_aggressiveness kernel (some n) parameters = apply_parameters kernel (str n) parameters

-- The congestion control comes last, behind the parameters of its module.
unfoldable pub apply_all :
    Kernel → List (String × String) → String → Option ℕ → List String → Exec Attempt Unit
apply_all kernel values control aggressiveness parameters = do
  apply_sysctls kernel values
  apply_aggressiveness kernel aggressiveness parameters
  apply_sysctls kernel ((cc_key, control) ∷ [])

unfoldable pub write_aggressiveness : Kernel → Option ℕ → Exec Attempt Unit
write_aggressiveness kernel none = pure tt
write_aggressiveness kernel (some n) = write_nanbbr kernel (nanbbr_config_content n)

-- sysctl_values
abbrev pub all_values : List (String × String) → String → List (String × String)
all_values values control = values ++ (cc_key, control) ∷ []

-- `cc` is the congestion control, `parameters` are the files of the modules' parameters. The result is
-- the old text of the file and the new one.
unfoldable pub attempt :
    Kernel
    → List (String × String)
    → String
    → Option ℕ
    → List String
    → Exec Attempt (String × String)
attempt kernel values control aggressiveness parameters = do
  read_all kernel (keys (all_values values control)) parameters
  bytes ← gets (λ a. a.old_conf)
  old ← lift (decoded bytes)
  apply_all kernel values control aggressiveness parameters
  write_aggressiveness kernel aggressiveness
  write_conf kernel old (new_conf old (all_values values control))
  pure (old, new_conf old (all_values values control))
