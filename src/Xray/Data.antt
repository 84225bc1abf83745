-- ===== src/Xray/Data.antt =====
-- xray-server.json: what the reverse forwards read and write. Other keys are passed on.
use openmptcprouter_vps.Prelude.{Bool, List, Option, String, String_discrete, ℕ, ℕ_discrete}

-- A client of an inbound; `reverse` is the tag of its reverse entry.
pub record Client : Type 0 where
  pub id : Option String
  pub email : Option String
  pub reverse : Option String

-- The `streamSettings` that are written, or other ones.
pub data Stream : Type 0 where
  tls_tcp plain_tcp : Stream
  other_stream : String → Stream

-- `port_map` is settings['portMap'], `clients` settings['clients'].
pub record Inbound : Type 0 where
  pub tag : Option String
  pub listen : Option String
  pub port : Option ℕ
  pub protocol : Option String
  pub decryption : Option String
  pub clients : Option (List Client)
  pub allowed_network : Option String
  pub port_map : Option (List (String × String))
  pub stream : Option Stream

-- A routing rule; the type is left out.
pub record Rule : Type 0 where
  pub inbound_tag : List String
  pub outbound_tag : Option String

pub record XrayData : Type 0 where
  pub inbounds : Option (List Inbound)
  pub rules : Option (List Rule)

-- The file's text: what it says, and whether it is laid out as json.dumps with indent=4 does it.
pub record XrayText : Type 0 where
  pub content : XrayData
  pub is_dump : Bool

unfoldable pub XrayData_discrete : Discrete XrayData
unfolding String_discrete ℕ_discrete
XrayData_discrete = hlevel (String_discrete, ℕ_discrete)
