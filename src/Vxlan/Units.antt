-- ===== src/Vxlan/Units.antt =====
-- write_vxlan_conf: the file of a user's omr-vxlan@ unit, and when the unit is restarted.
use Prim.Native.Char.{code}
use openmptcprouter_vps.Config.{get_or}
use openmptcprouter_vps.Dict.{has_key, insert, lookup, remove}
use openmptcprouter_vps.Exec.{Exec, modify, pure, ◌>>=◌}
use openmptcprouter_vps.Host.{Host, World}
use openmptcprouter_vps.Host.Store.{load_config, users_of}
use openmptcprouter_vps.Prelude.{
  Bool, List, Option, String, String_discrete, [], false, fmt, holds, if◌then◌else◌, none, not,
  some, str, ℕ, ◌++◌, ◌==ℕ◌, ◌==◌, ◌||◌, ◌∷◌,
}
use openmptcprouter_vps.Vxlan.Settings.{VxlanConfig, get_vxlan_config, user_or_empty}

-- address.split('/')[0]
unfoldable pub host_part : String → String
host_part String.[] = ""
host_part (String.◌∷◌ c s) =
    let rest = host_part s in if code c ==ℕ 47 then "" else String.◌∷◌ c rest

abbrev address_line : String → Option String → List String
address_line key none = []
address_line key (some a) = if a == "" then [] else fmt (key ∷ a ∷ []) ∷ []

unfoldable pub Texts_discrete : Discrete (List String)
unfolding String_discrete
Texts_discrete = hlevel String_discrete

-- The lines of the file, without their line ends.
unfoldable pub vxlan_lines : VxlanConfig → String → String → List String
unfolding host_part
vxlan_lines c underlay_localip underlay_remoteip =
    (fmt ("VNI=" ∷ str c.vni ∷ [])
      ∷ fmt ("PORT=" ∷ str c.port ∷ [])
      ∷ fmt ("LOCALIP=" ∷ host_part underlay_localip ∷ [])
      ∷ fmt ("REMOTEIP=" ∷ host_part underlay_remoteip ∷ [])
      ∷ fmt ("MODE=" ∷ c.mode ∷ [])
      ∷ [])
    ++ (if c.mode == "l2"
        then fmt ("BRIDGE=br-vxlan" ∷ str c.vni ∷ []) ∷ []
        else address_line "LOCALTUNIP=" c.localip ++ address_line "LOCALTUNIP6=" c.localip6)
    ++ fmt ("MTU=" ∷ str c.mtu ∷ []) ∷ []

abbrev pub vxlan_unit : ℕ → String
vxlan_unit userid = fmt ("omr-vxlan@user" ∷ str userid ∷ [])

abbrev pub vxlan_file : ℕ → String
vxlan_file userid = fmt ("user" ∷ str userid ∷ [])

abbrev systemctl : String → ℕ → List String
systemctl verb userid = "systemctl" ∷ "-q" ∷ verb ∷ vxlan_unit userid ∷ []

-- A disabled tunnel: the unit is stopped and its file removed, if there is one.
unfoldable pub drop_unit : ℕ → World → World
drop_unit userid w =
    if has_key (vxlan_file userid) w.vxlan_files
    then record w {
      commands = systemctl "disable" userid ∷ systemctl "stop" userid ∷ w.commands;
      vxlan_files = remove (vxlan_file userid) w.vxlan_files;
    }
    else w

abbrev same_lines : Option (List String) → List String → Bool
same_lines none lines = false
same_lines (some old) lines = holds (Texts_discrete old lines)

-- The file is written; the unit is restarted only if the text is new. (The source compares digests
-- of the two texts.)
unfoldable pub put_unit : ℕ → List String → World → World
put_unit userid lines w = record w {
  commands =
      if same_lines (lookup (vxlan_file userid) w.vxlan_files) lines
      then w.commands
      else systemctl "restart" userid ∷ systemctl "enable" userid ∷ w.commands;
  vxlan_files = insert (vxlan_file userid) lines w.vxlan_files;
}

unfoldable pub write_vxlan_conf : Host → String → ℕ → Exec World Unit
write_vxlan_conf host username userid = do
  c ← get_vxlan_config host username userid
  if not c.enabled then modify (drop_unit userid) else (do
    data' ← load_config
    users ← users_of data'
    let u = user_or_empty (lookup username users)
    let underlay_localip = get_or u.vpnlocalip ""
    let underlay_remoteip = get_or u.vpnremoteip ""
    if underlay_localip == "" || underlay_remoteip == ""
        then pure tt
        else modify (put_unit userid (vxlan_lines c underlay_localip underlay_remoteip)))
