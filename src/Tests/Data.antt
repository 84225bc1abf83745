-- ===== src/Tests/Data.antt =====
-- A host that takes every script, and a file with two users.
use openmptcprouter_vps.Config.{Config, UserData, new_user, number, parsed}
use openmptcprouter_vps.Dict.{lookup}
use openmptcprouter_vps.Firewall.Keys.{HasDistinctKeys, find_key}
use openmptcprouter_vps.Firewall.Numeric.{NumericIds}
use openmptcprouter_vps.Firewall.Ports.{FwPort, entry_of}
use openmptcprouter_vps.Firewall.Views.{Stores, ports_in}
use openmptcprouter_vps.Host.{Host, World, blank_world, exited}
use openmptcprouter_vps.Host.Reply.{User}
use openmptcprouter_vps.Host.Store.{user_at}
use openmptcprouter_vps.Prelude.{
  List, String, String_discrete, [], ne_of_test, refl, some, str, true, ◌∷◌, ◌≡◌, ◌≢◌,
}

abbrev pub host : Host
host = record {
  nft = λ n script. exited 0;
  table_loaded = λ n. true;
  nft_present = true;
  dscp_script = true;
  weight_script = true;
  str_ip = str;
  ip_network = λ cidr. some (true, cidr);
  ip_address = λ text. some (true, text);
  uuid = λ text. some text;
  xray_accepts = λ data'. true;
  xray_restarts = λ n. true;
}

abbrev pub web : FwPort
web = record {
  port = "80";
  proto = "tcp";
  name = "router 80";
  fwtype = "DNAT";
  family = 4;
  source_dip = "";
  dest_ip = "";
}

abbrev pub ssh : FwPort
ssh = record web { port = "22"; name = "router 22"; fwtype = "ACCEPT" }

abbrev pub router : UserData
router = record new_user {
  userid = some (number 0);
  vpnremoteip = some "10.255.220.6";
  fw_ports = some (entry_of web "default" "" ∷ []);
}

abbrev pub bob : UserData
bob = record new_user { userid = some (number 3) }

abbrev pub users : List (String × UserData)
users = ("openmptcprouter", router) ∷ ("bob", bob) ∷ []

abbrev pub config : Config
config = record { users = some users; globals = [] }

abbrev pub world : World
world = record blank_world { config = parsed config }

abbrev pub admin : User
admin = record { username = "openmptcprouter"; permissions = "admin"; userid = some 0 }

pub known_router : lookup "openmptcprouter" users ≡ some router
unfolding lookup String_discrete
known_router = refl

pub world-Stores : Stores world config users "openmptcprouter" router
world-Stores = record { reads = refl; has_users = refl; known_user = known_router }

pub not_read_only : ◌≢◌ {A = String} "admin" "ro"
unfolding String_discrete
not_read_only = ne_of_test "admin" "ro" refl

pub router-HasDistinctKeys : HasDistinctKeys (ports_in world "openmptcprouter")
unfolding user_at lookup String_discrete find_key
router-HasDistinctKeys = (refl, tt)

pub numeric : NumericIds users
numeric = (tt, (tt, tt))
