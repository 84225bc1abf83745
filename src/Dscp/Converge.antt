-- ===== src/Dscp/Converge.antt =====
-- What /mptcp_dscp runs.
use mathlib.Core.Path.{fun_ext}
use openmptcprouter_vps.Dict.{lookup}
use openmptcprouter_vps.Dscp.Classes.{dscp_classes}
use openmptcprouter_vps.Dscp.Desired.{
  desired_pins_accepts, desired_pins_last, is_valid_pin, last_id,
}
use openmptcprouter_vps.Dscp.Pins.{
  DscpPin, desired_pins, dscp_command, invalid_pin, mptcp_dscp, run_all,
}
use openmptcprouter_vps.Exec.{ok, ◌>>=◌}
use openmptcprouter_vps.Host.{Host, World}
use openmptcprouter_vps.Host.Reply.{User, changes_applied}
use openmptcprouter_vps.Prelude.{
  List, Option-cases, String, [], all, ap, arith, false, inl, inr, map, none, refl, some, str, true,
  ℕ, ◌∙◌, ◌∷◌, ◌≡◌, ◌≢◌,
}

-- The commands in the log, the last run first.
unfoldable pub logged : List (List String) → List (List String) → List (List String)
logged [] log = log
logged (command ∷ commands) log = logged commands (command ∷ log)

pub commands-run_all :
    (commands : List (List String)) (w : World)
    → (run_all commands w).commands ≡ logged commands w.commands
unfolding run_all logged
commands-run_all [] w = refl
commands-run_all (command ∷ commands) w = commands-run_all commands _

-- The command that brings a class to its last pin.
abbrev pub pin_command : List DscpPin → String → List String
pin_command pins dscp = elim (last_id dscp pins) [
  | some id ↦ "/usr/sbin/mptcp-scheduler-dscp.sh" ∷ "set" ∷ dscp ∷ "id" ∷ str id ∷ []
  | none ↦ "/usr/sbin/mptcp-scheduler-dscp.sh" ∷ "del" ∷ dscp ∷ []
]

dscp_command-last :
    (pins : List DscpPin) {desired : List (String × ℕ)}
    → desired_pins pins [] ≡ some desired
    → (dscp : String) → dscp_command desired dscp ≡ pin_command pins dscp
unfolding dscp_command lookup
dscp_command-last pins h dscp = ground (arith, desired_pins_last pins [] h dscp)

commands-pins :
    (pins : List DscpPin) {desired : List (String × ℕ)} (classes : List String) (w : World)
    → desired_pins pins [] ≡ some desired
    → (run_all (map (dscp_command desired) classes) w).commands
      ≡ logged (map (pin_command pins) classes) w.commands
commands-pins pins {desired} classes w h =
    commands-run_all (map (dscp_command desired) classes) w
    ∙ ap (λ f. logged (map f classes) w.commands) (fun_ext (dscp_command-last pins h))

module _ (host : Host) (user : User) (pins : List DscpPin) (w : World)
    (may : user.permissions ≢ "ro") (script : host.dscp_script ≡ true) where
  -- For a user who may write, and with the script installed, a list with a pin that is not valid is
  -- refused and nothing is run.
  pub mptcp_dscp_rejects :
      all is_valid_pin pins ≡ false → mptcp_dscp host user pins w ≡ (ok invalid_pin, w)
  unfolding mptcp_dscp ◌>>=◌
  mptcp_dscp_rejects bad = ground (arith, desired_pins_accepts pins [])

  mptcp_dscp_runs :
      (desired : List (String × ℕ))
      → desired_pins pins [] ≡ some desired
      → mptcp_dscp host user pins w
        ≡ (ok changes_applied, run_all (map (dscp_command desired) dscp_classes) w)
  unfolding mptcp_dscp ◌>>=◌
  mptcp_dscp_runs desired e = ground arith

  -- For a user who may write, with the script installed and valid pins, one command is run for each
  -- known class, in the order of the classes: it sets the class to its last pin, or deletes it if no
  -- pin was sent.
  pub mptcp_dscp_converges :
      all is_valid_pin pins ≡ true
      → ((mptcp_dscp host user pins w).0 ≡ ok changes_applied)
        × ((mptcp_dscp host user pins w).1.commands
            ≡ logged (map (pin_command pins) dscp_classes) w.commands)
  mptcp_dscp_converges good = elim (Option-cases (desired_pins pins [])) [
    | inl bad ↦ absurd (ground (arith, desired_pins_accepts pins []))
    | inr (desired, e) ↦ rw (mptcp_dscp_runs desired e) (refl, commands-pins pins dscp_classes w e)
  ]
