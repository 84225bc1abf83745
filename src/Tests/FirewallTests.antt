-- ===== src/Tests/FirewallTests.antt =====
-- The firewall's theorems at the file of Data.
use openmptcprouter_vps.Config.{FwEntry_discrete}
use openmptcprouter_vps.Exec.{key_error, ok, raised}
use openmptcprouter_vps.Firewall.Applied.{IsApplied, TakesAll, fw_port_add-IsApplied}
use openmptcprouter_vps.Firewall.Closing.{Removed, firewall_close_removes}
use openmptcprouter_vps.Firewall.Comment.{is_quote_free, nft_comment, nft_comment_safe}
use openmptcprouter_vps.Firewall.Endpoints.{FirewallParams, firewall_close, ipv4}
use openmptcprouter_vps.Firewall.Keys.{IsValid, find_key}
use openmptcprouter_vps.Firewall.Numeric.{nft_sync_ports_returns}
use openmptcprouter_vps.Firewall.Ports.{
  FwKey, entry_of, fw_port_add, fw_port_del, is_settled, is_supported, key_of, nft_sync_ports,
  same_key, stored_ports,
}
use openmptcprouter_vps.Firewall.Repeats.{fw_port_add_idem}
use openmptcprouter_vps.Firewall.Views.{fw_port_add-refines, fw_port_del-refines, port_at, ports_in}
use openmptcprouter_vps.Host.Reply.{User, changes_applied}
use openmptcprouter_vps.Prelude.{
  String, String_discrete, chars, contains, false, filter, if◌then◌else◌, none, refl, some, true,
  ◌≡◌, ◌≢◌, ◌≤◌,
}
use openmptcprouter_vps.Tests.Data.{
  admin, host, not_read_only, numeric, router, router-HasDistinctKeys, ssh, web, world,
  world-Stores,
}

abbrev guest : User
guest = record { username = "guest"; permissions = "ro"; userid = none }

fw_port_add-refines_example :
    IsValid
      (ports_in (fw_port_add host "openmptcprouter" ssh "default" "" world).1 "openmptcprouter")
    × ((k : FwKey)
        → port_at (fw_port_add host "openmptcprouter" ssh "default" "" world).1 "openmptcprouter" k
          ≡ (if same_key (key_of ssh) k
              then some (entry_of ssh "default" "")
              else find_key k (filter is_supported (ports_in world "openmptcprouter"))))
    × ((name : String)
        → "openmptcprouter" ≢ name
        → ports_in (fw_port_add host "openmptcprouter" ssh "default" "" world).1 name
          ≡ ports_in world name)
unfolding String_discrete
fw_port_add-refines_example =
    fw_port_add-refines host "openmptcprouter" ssh "default" "" world refl world-Stores
      router-HasDistinctKeys

abbrev web_request : FirewallParams
web_request = record {
  name = "router 80";
  port = "80";
  proto = "tcp";
  fwtype = "DNAT";
  ipproto = ipv4;
  source_dip = "";
  source_ip = "";
  comment = "";
}

firewall_close_removes_example :
    ((firewall_close host admin web_request world).0 ≡ ok changes_applied)
    × Removed host admin web_request world world-Stores numeric not_read_only
        (firewall_close host admin web_request world).1
firewall_close_removes_example =
    firewall_close_removes host admin web_request world world-Stores numeric not_read_only
      router-HasDistinctKeys

fw_port_add_idem_example :
    fw_port_add host "openmptcprouter" ssh "default" ""
      (fw_port_add host "openmptcprouter" ssh "default" "" world).1
    ≡ (ok tt, (fw_port_add host "openmptcprouter" ssh "default" "" world).1)
unfolding String_discrete
fw_port_add_idem_example =
    fw_port_add_idem host "openmptcprouter" ssh "default" "" world refl world-Stores

fw_port_del-refines_example :
    IsValid (ports_in (fw_port_del host "openmptcprouter" web world).1 "openmptcprouter")
    × ((k : FwKey)
        → port_at (fw_port_del host "openmptcprouter" web world).1 "openmptcprouter" k ≡ (
            if same_key (key_of web) k
            then none
            else find_key k (filter is_supported (ports_in world "openmptcprouter"))))
    × ((name : String)
        → "openmptcprouter" ≢ name
        → ports_in (fw_port_del host "openmptcprouter" web world).1 name ≡ ports_in world name)
unfolding String_discrete
fw_port_del-refines_example =
    fw_port_del-refines host "openmptcprouter" web world world-Stores router-HasDistinctKeys

nft_sync_ports_returns_example : (nft_sync_ports host world).0 ≢ raised key_error
nft_sync_ports_returns_example = nft_sync_ports_returns host world refl numeric key_error

nft_comment_safe_example :
    (is_quote_free (nft_comment "say \"hi\"") ≡ true) × (chars (nft_comment "say \"hi\"") ≤ 128)
nft_comment_safe_example = nft_comment_safe "say \"hi\""

ssh_new : is_settled (entry_of ssh "default" "") (stored_ports router) ≡ false
unfolding is_settled contains FwEntry_discrete String_discrete
ssh_new = refl

accepting : TakesAll host
accepting n script = refl

fw_port_add-IsApplied_example :
    IsApplied (fw_port_add host "openmptcprouter" ssh "default" "" world).1
unfolding String_discrete
fw_port_add-IsApplied_example =
    fw_port_add-IsApplied host "openmptcprouter" world world-Stores accepting numeric ssh "default"
      "" refl ssh_new
