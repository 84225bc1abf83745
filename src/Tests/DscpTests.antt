-- ===== src/Tests/DscpTests.antt =====
-- The theorems on DSCP classes at the host of Data.
use openmptcprouter_vps.Config.{DscpEntry}
use openmptcprouter_vps.Dscp.Classes.{dscp_classes, is_class, is_classify_class}
use openmptcprouter_vps.Dscp.Classify.{
  ByClass, append_net, classify_strict, dscp_classify, nft_apply_dscp_classify,
  nft_resync_dscp_classify, no_entries,
}
use openmptcprouter_vps.Dscp.Converge.{logged, mptcp_dscp_converges, pin_command}
use openmptcprouter_vps.Dscp.Desired.{is_valid_pin}
use openmptcprouter_vps.Dscp.Pins.{DscpPin, mptcp_dscp}
use openmptcprouter_vps.Dscp.Replay.{dscp_classify-resync}
use openmptcprouter_vps.Exec.{ok}
use openmptcprouter_vps.Host.Reply.{changes_applied}
use openmptcprouter_vps.Prelude.{
  List, String_discrete, [], all, false, map, pos, refl, some, true, ◌∷◌, ◌≡◌,
}
use openmptcprouter_vps.Tests.Data.{admin, host, not_read_only, world}

abbrev video : List DscpEntry
video = record { cidr = "203.0.113.0/24"; dscp = "cs4" } ∷ []

abbrev video_sets : ByClass
video_sets = append_net "cs4" true "203.0.113.0/24" no_entries

video_accepted : classify_strict host video no_entries ≡ some video_sets
unfolding classify_strict is_classify_class String_discrete
video_accepted = refl

dscp_classify-resync_example :
    nft_resync_dscp_classify host (dscp_classify host admin video world).1
    ≡ nft_apply_dscp_classify host video_sets (dscp_classify host admin video world).1
dscp_classify-resync_example =
    dscp_classify-resync host admin video world refl refl not_read_only refl video_accepted
      (dscp_classify host admin video world).1 refl

abbrev pins : List DscpPin
pins = record { dscp = "ef"; remote_id = pos 1 } ∷ record { dscp = "ef"; remote_id = pos 2 } ∷ []

pins_valid : all is_valid_pin pins ≡ true
unfolding all is_class String_discrete
pins_valid = refl

mptcp_dscp_converges_example :
    ((mptcp_dscp host admin pins world).0 ≡ ok changes_applied)
    × ((mptcp_dscp host admin pins world).1.commands
        ≡ logged (map (pin_command pins) dscp_classes) world.commands)
mptcp_dscp_converges_example =
    mptcp_dscp_converges host admin pins world not_read_only refl pins_valid

abbrev bad_pins : List DscpPin
bad_pins = record { dscp = "ef"; remote_id = pos 256 } ∷ []

bad_pins_invalid : all is_valid_pin bad_pins ≡ false
unfolding all is_class String_discrete
bad_pins_invalid = refl
