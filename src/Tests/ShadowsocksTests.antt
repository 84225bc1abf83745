-- ===== src/Tests/ShadowsocksTests.antt =====
-- The theorems on shadowsocks-libev's manager, with one user that has a key.
use openmptcprouter_vps.Config.{get_or}
use openmptcprouter_vps.Exec.{ok}
use openmptcprouter_vps.Prelude.{
  String_discrete, [], if◌then◌else◌, inr, none, refl, some, ◌==ℕ◌, ◌∷◌, ◌≡◌,
}
use openmptcprouter_vps.Shadowsocks.Manager.{
  PortConf, SsManager, all_conf, chosen_port, manager_added, manager_removed, moved,
}
use openmptcprouter_vps.Shadowsocks.Ports.{drop_port, highest_port, port_entry, put_port}
use openmptcprouter_vps.Shadowsocks.Views.{
  HasOncePorts, HasOneForm, key_at, manager_added-key_at, manager_removed-key_at,
}

abbrev manager : SsManager
manager = record { port_key = some ((65101, "k1") ∷ []); port_conf = none }

manager-HasOncePorts : HasOncePorts (get_or manager.port_key [])
unfolding port_entry
manager-HasOncePorts = (refl, tt)

abbrev first_conf : PortConf
first_conf = record { key = "k1"; local_address = none; userid = none }

abbrev second_conf : PortConf
second_conf = record { key = "k2"; local_address = some "192.0.2.1"; userid = some 4 }

abbrev with_address : SsManager
with_address = record {
  port_key = none;
  port_conf = some ((65101, first_conf) ∷ (65102, second_conf) ∷ []);
}

added : manager_added manager none "k2" 4 "192.0.2.1" ≡ ok (with_address, 65102)
unfolding manager_added chosen_port highest_port all_conf moved put_port String_discrete
added = refl

manager_added-key_at_example :
    key_at with_address 65101 ≡ (if 65102 ==ℕ 65101 then some "k2" else key_at manager 65101)
manager_added-key_at_example =
    manager_added-key_at manager none "k2" 4 "192.0.2.1" manager-HasOncePorts added 65101

manager-HasOneForm : HasOneForm manager
manager-HasOneForm = inr refl

abbrev emptied : SsManager
emptied = record { port_key = some []; port_conf = none }

removed : manager_removed manager 65101 ≡ ok emptied
unfolding manager_removed drop_port
removed = refl

manager_removed-key_at_example :
    key_at emptied 65101 ≡ (if 65101 ==ℕ 65101 then none else key_at manager 65101)
manager_removed-key_at_example =
    manager_removed-key_at manager 65101 manager-HasOneForm removed 65101
