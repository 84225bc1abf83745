-- ===== src/Mptcp/Endpoint.antt =====
-- /mptcp itself. The lock file is held all the time, so no other request changes the settings meanwhile.
use mathlib.Core.Option
use openmptcprouter_vps.Config.{has_entries}
use openmptcprouter_vps.Exec.{
  Exec, Result, gets, modify, ok, os_error, pure, raise, raised, ◌>>=◌, ◌>>◌,
}
use openmptcprouter_vps.Host.Reply.{Reply, User, changes_applied, unless_read_only}
use openmptcprouter_vps.Mptcp.Apply.{Attempt, attempt, started}
use openmptcprouter_vps.Mptcp.Kernel.{Kernel, Settings}
use openmptcprouter_vps.Mptcp.Names.{is_in}
use openmptcprouter_vps.Mptcp.Request.{
  MptcpHost, MptcpParams, mptcp_error, mptcp_values, nanbbr_var_modules, parameter_path, refusal,
}
use openmptcprouter_vps.Mptcp.Rollback.{rollback}
use openmptcprouter_vps.Prelude.{
  Bool, List, Option, String, [], fmt, if◌then◌else◌, none, not, some, true, ℕ, ◌==◌, ◌||◌, ◌∷◌,
}

-- ensure_nanbbr_parameter for each module that there is; none: the one asked for is not supported.
unfoldable pub ensure_parameters :
    MptcpHost → String → List (String × String) → Exec Settings (Option (List String))
ensure_parameters host control [] = pure (some [])
ensure_parameters host control ((name, m) ∷ rest) = do
  modify (λ s. record s { modprobed = m ∷ s.modprobed })
  ready ← gets (λ s. host.is_ready s.modprobed (parameter_path m))
  let others = ensure_parameters host control rest
  if ready
      then (do
        found_paths ← others
        pure (Option.map (λ paths. parameter_path m ∷ paths) found_paths))
      else if name == control
      then pure none
      else others

unfoldable pub nanbbr_parameters :
    MptcpHost → String → Option ℕ → Exec Settings (Option (List String))
nanbbr_parameters host control none = pure (some [])
nanbbr_parameters host control (some n) = do
  parameters ← ensure_parameters host control nanbbr_var_modules
  elim parameters [
    | none ↦ pure none
    | some paths ↦ pure (if has_entries paths then some paths else none)
  ]

abbrev pub custom_cc : List String
custom_cc =
    "bbr1" ∷ "bbr2" ∷ "nanqinlang" ∷ "nanbbr1_light" ∷ "nanbbr1_def" ∷ "nanbbr1_aggr"
    ∷ "nanbbr1_var" ∷ "nanbbr2_light" ∷ "nanbbr2_def" ∷ "nanbbr2_aggr" ∷ "nanbbr2_var"
    ∷ "nanbbr3_light" ∷ "nanbbr3_def" ∷ "nanbbr3_aggr" ∷ "nanbbr3_var" ∷ []

unfoldable pub load_cc : String → Exec Settings Unit
load_cc control =
    if is_in control custom_cc
    then modify (λ s. record s { modprobed = fmt ("tcp_" ∷ control ∷ []) ∷ s.modprobed })
    else pure tt

-- A kernel that tells no controls, or none at all, is taken to have it.
unfoldable pub has_cc : Option (List String) → String → Bool
has_cc none control = true
has_cc (some available) control = not (has_entries available) || is_in control available

-- The services that are restarted, each by a file that shows that it is there.
abbrev pub restarted_services : List (String × String)
restarted_services =
    ("/etc/shadowsocks-libev/manager.json", "shadowsocks-libev-manager@manager")
    ∷ ("/etc/v2ray/v2ray-server.json", "v2ray")
    ∷ ("/etc/xray/xray-server.json", "xray")
    ∷ ("/etc/glorytun-tcp/tun0", "glorytun-tcp@tun0")
    ∷ ("/etc/openvpn/tun0.conf", "openvpn@tun0")
    ∷ []

unfoldable pub restart_services : MptcpHost → List (String × String) → Settings → Settings
restart_services host [] s = s
restart_services host ((path, unit) ∷ rest) s =
    restart_services host rest
      (if host.has_file path then record s { commands = unit ∷ s.commands } else s)

-- The text of the error, which the reason holds too, is left out.
unfoldable pub unable : Bool → Reply
unable incomplete = mptcp_error (
    if incomplete
    then "Unable to apply MPTCP configuration; rollback incomplete"
    else "Unable to apply MPTCP configuration")

-- What the transaction does with its outcome. A KeyError would not be caught.
unfoldable pub conclude :
    Kernel → MptcpHost → Result (String × String) → Attempt → Result Reply × Settings
conclude kernel host (ok (old, new)) a = (
  ok changes_applied,
  if old == new then a.settings else restart_services host restarted_services a.settings,
)
conclude kernel host (raised e) a = elim e [
  | os_error ↦
      let (r, b) = rollback kernel a in
      elim r [
        | ok incomplete ↦ (ok (unable incomplete), b.settings)
        | raised f ↦ (raised f, b.settings)
      ]
  | other ↦ (raised other, a.settings)
]

unfoldable pub transact : Kernel → MptcpHost → MptcpParams → List String → Exec Settings Reply
transact kernel host p parameters s =
    let (r, a) =
      attempt kernel (mptcp_values host p) p.congestion_control p.nanbbr_aggressiveness parameters
        (started s) in
    conclude kernel host r a

-- From the point where the parameters are known: none, if the one asked for is not supported.
unfoldable pub with_parameters :
    Kernel → MptcpHost → MptcpParams → Option (List String) → Exec Settings Reply
with_parameters kernel host p none = pure (mptcp_error "NanBBR var aggressiveness is not supported")
with_parameters kernel host p (some parameters) = do
  load_cc p.congestion_control
  available ← gets (λ s. host.available_cc s.modprobed)
  if not (has_cc available p.congestion_control)
      then pure (mptcp_error "Congestion control is not available")
      else transact kernel host p parameters

unfoldable pub mptcp : Kernel → MptcpHost → MptcpParams → User → Exec Settings Reply
mptcp kernel host p u = unless_read_only u (elim (refusal host p) [
  | some reason ↦ pure (mptcp_error reason)
  | none ↦ if not host.has_lock then raise os_error else do
    parameters ← nanbbr_parameters host p.congestion_control p.nanbbr_aggressiveness
    with_parameters kernel host p parameters
])
