-- ===== src/Proxies/Data.antt =====
-- What the functions for the users, outbounds and rules read and write of v2ray-server.json and
-- xray-server.json. Other keys are passed on.
use openmptcprouter_vps.Exec.{Exec, gets, lift, modify, pure, raised, value_error, ◌>>=◌, ◌>>◌}
use openmptcprouter_vps.Prelude.{
  Bool, List, Option, String, String_discrete, false, holds, if◌then◌else◌, true, ◌&&◌, ◌∷◌,
}

-- An element of settings['clients']. The level and alterId of a new one, always 0, are left out.
pub record ProxyClient : Type 0 where
  pub id : Option String
  pub password : Option String
  pub email : Option String

-- An element of settings['accounts'].
pub record Account : Type 0 where
  pub pass : Option String
  pub user : Option String

-- `clients` and `accounts` are lists of inbounds['settings'].
pub record ProxyInbound : Type 0 where
  pub tag : Option String
  pub clients : Option (List ProxyClient)
  pub accounts : Option (List Account)

-- The protocol and the settings of an outbound that is written are always the same, and left out.
pub record Outbound : Type 0 where
  pub tag : Option String
  pub send_through : Option String

pub record ProxyRule : Type 0 where
  pub inbound_tag : Option String
  pub user : Option String
  pub outbound_tag : Option String

-- `rules` is data['routing']['rules'].
pub record ProxyData : Type 0 where
  pub inbounds : Option (List ProxyInbound)
  pub outbounds : Option (List Outbound)
  pub rules : Option (List ProxyRule)

-- The file: missing, not JSON, or JSON with the fact whether json.dump with indent=4 laid it out.
pub data ProxyFile : Type 0 where
  no_config not_parsed : ProxyFile
  holding : ProxyData → Bool → ProxyFile

-- A call of the running program: `api adi` with newconfig.json, which then holds this inbound, `api rmi` with a
-- tag, and a restart by systemctl.
pub data ApiCall : Type 0 where
  adds : ProxyInbound → ApiCall
  drops : String → ApiCall
  restarts : ApiCall

-- V2Ray or XRay. `is_installed`: the program is found. `calls` holds the calls, the newest first.
pub record Proxy : Type 0 where
  pub is_installed : Bool
  pub file : ProxyFile
  pub calls : List ApiCall

unfoldable pub ProxyData_discrete : Discrete ProxyData
unfolding String_discrete
ProxyData_discrete = hlevel String_discrete

unfoldable pub log_call : ApiCall → Exec Proxy Unit
log_call c = modify (λ p. record p { calls = c ∷ p.calls })

-- Whether the new bytes of the file are the old ones.
unfoldable pub is_unchanged : ProxyFile → ProxyData → Bool
is_unchanged (holding old is_dump) new = is_dump && holds (ProxyData_discrete old new)
is_unchanged _ new = false

-- json.dump, and a restart if this is asked for and the bytes are other ones.
unfoldable pub put_config : Bool → ProxyData → Exec Proxy Unit
unfolding is_unchanged log_call
put_config restart new = do
  before ← gets (λ p. p.file)
  modify (λ p. record p { file = holding new true })
  if restart then (if is_unchanged before new then pure tt else log_call restarts) else pure tt

unfoldable pub with_file : (ProxyData → Exec Proxy ProxyData) → Bool → ProxyFile → Exec Proxy Unit
unfolding put_config
with_file change restart no_config = pure tt
with_file change restart not_parsed = lift (raised value_error)
with_file change restart (holding d is_dump) = change d >>= put_config restart

-- The frame of all these functions: nothing if there is no file, else read, change, write. An exception
-- of the change leaves the file.
unfoldable pub change_config : (ProxyData → Exec Proxy ProxyData) → Bool → Exec Proxy Unit
unfolding with_file
change_config change restart = do file ← gets (λ p. p.file); with_file change restart file
