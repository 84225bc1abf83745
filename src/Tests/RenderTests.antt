-- ===== src/Tests/RenderTests.antt =====
-- The theorems on rendered rules at concrete entries.
use openmptcprouter_vps.Config.{Config, FwEntry, UserData, new_user, numeral, parsed}
use openmptcprouter_vps.Exec.{ok, raised, value_error}
use openmptcprouter_vps.Firewall.Blocked.{IsBlocked, nft_sync_ports_blocked}
use openmptcprouter_vps.Firewall.Ports.{entry_of, nft_sync_ports}
use openmptcprouter_vps.Firewall.Rendering.{expected, render_entries-expected}
use openmptcprouter_vps.Firewall.Rules.{
  Rules, accept_line, dnat_line, dnat_target, render_entries, render_entry,
}
use openmptcprouter_vps.Host.{World, blank_world}
use openmptcprouter_vps.Prelude.{
  List, String, String_discrete, [], arith, inl, refl, some, ℕ, ◌∷◌, ◌≡◌, ◌≢◌,
}
use openmptcprouter_vps.Tests.Data.{host, router, ssh, web}

abbrev dnat6 : FwEntry
dnat6 = record (entry_of web "default" "") { family = some 6 }

-- A user that /add_user made: its id is a text.
abbrev made : UserData
made = record new_user { userid = some (numeral 3); fw_ports = some (dnat6 ∷ []) }

abbrev made_users : List (String × UserData)
made_users = ("eve", made) ∷ []

abbrev made_config : Config
made_config = record { users = some made_users; globals = [] }

abbrev made_world : World
made_world = record blank_world { config = parsed made_config }

six-ne-four : ◌≢◌ {A = ℕ} 6 4
six-ne-four = ground arith

made-IsBlocked : IsBlocked made dnat6
made-IsBlocked = record {
  id = 3;
  text_id = refl;
  redirect = refl;
  ipv6 = six-ne-four;
  to_tunnel = refl;
}

nft_sync_ports_blocked_example : nft_sync_ports host made_world ≡ (raised value_error, made_world)
nft_sync_ports_blocked_example =
    nft_sync_ports_blocked host made_world "eve" {c = made_config} {u = made} {e = dnat6} refl refl
      (inl refl) (inl refl) made-IsBlocked

abbrev entries : List FwEntry
entries = entry_of ssh "default" "" ∷ entry_of web "default" "" ∷ []

abbrev rules : Rules
rules = (
  accept_line "bob" (entry_of ssh "default" "") ∷ [],
  dnat_line "bob" (entry_of web "default" "") "10.255.220.6" ∷ [],
)

entries_rendered : render_entries "bob" router entries ≡ ok rules
unfolding render_entries render_entry dnat_target String_discrete
entries_rendered = refl

render_entries-expected_example : rules ≡ expected "bob" router entries
render_entries-expected_example = render_entries-expected "bob" router entries entries_rendered
