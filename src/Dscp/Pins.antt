-- ===== src/Dscp/Pins.antt =====
-- /mptcp_dscp: the router's pins of DSCP classes to remote ids.
use openmptcprouter_vps.Dict.{insert, lookup}
use openmptcprouter_vps.Dscp.Classes.{dscp_classes, is_class}
use openmptcprouter_vps.Exec.{Exec, modify, pure, ◌>>◌}
use openmptcprouter_vps.Host.{Host, World}
use openmptcprouter_vps.Host.Reply.{Reply, User, changes_applied, reply, unless_read_only}
use openmptcprouter_vps.Prelude.{
  List, Option, String, [], if◌then◌else◌, leb, map, negsuc, none, not, pos, some, str, ℕ, ℤ, ◌∷◌,
}

-- `remote_id` comes from JSON and may be negative.
pub record DscpPin : Type 0 where
  pub dscp : String
  pub remote_id : ℤ

abbrev pub in_byte : ℤ → Option ℕ
in_byte (pos n) = if leb n 255 then some n else none
in_byte (negsuc n) = none

-- The id of a valid pin.
unfoldable pub pin_id : DscpPin → Option ℕ
pin_id pin = if is_class pin.dscp then in_byte pin.remote_id else none

-- The dict of the desired pins, or the first pin that is not valid.
unfoldable pub desired_pins : List DscpPin → List (String × ℕ) → Option (List (String × ℕ))
desired_pins [] desired = some desired
desired_pins (pin ∷ pins) desired = elim (pin_id pin) [
  | none ↦ none
  | some id ↦ desired_pins pins (insert pin.dscp id desired)
]

unfoldable pub dscp_command : List (String × ℕ) → String → List String
dscp_command desired dscp = elim (lookup dscp desired) [
  | some id ↦ "/usr/sbin/mptcp-scheduler-dscp.sh" ∷ "set" ∷ dscp ∷ "id" ∷ str id ∷ []
  | none ↦ "/usr/sbin/mptcp-scheduler-dscp.sh" ∷ "del" ∷ dscp ∷ []
]

-- The commands run, in order.
unfoldable pub run_all : List (List String) → World → World
run_all [] w = w
run_all (command ∷ commands) w = run_all commands (record w { commands = command ∷ w.commands })

-- (The reason also quotes the pin.)
abbrev pub invalid_pin : Reply
invalid_pin = reply "error" "Invalid pin"

unfoldable pub mptcp_dscp : Host → User → List DscpPin → Exec World Reply
mptcp_dscp host current_user pins = unless_read_only current_user (
    if not host.dscp_script
    then pure (reply "warning" "mptcp-dscp-manager not installed")
    else elim (desired_pins pins []) [
      | none ↦ pure invalid_pin
      | some desired ↦ (do
        modify (run_all (map (dscp_command desired) dscp_classes))
        pure changes_applied)
    ])
