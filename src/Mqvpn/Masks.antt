-- ===== src/Mqvpn/Masks.antt =====
-- /mqvpn_dscp: the DSCP classes of a path as a bit mask.
use openmptcprouter_vps.Dict.{insert, lookup}
use openmptcprouter_vps.Dscp.Classes.{dscp_codepoints}
use openmptcprouter_vps.Exec.{Exec, gets, pure, ◌>>=◌}
use openmptcprouter_vps.Host.Reply.{Reply, User, reply, unless_read_only}
use openmptcprouter_vps.Mqvpn.Policy.{dscp_mask}
use openmptcprouter_vps.Mqvpn.Sync.{MqvpnApi, MqvpnState, is_iface, sync_paths}
use openmptcprouter_vps.Prelude.{
  List, Option, String, String_discrete, [], if◌then◌else◌, is_some, none, not, refl, some, ℕ, ◌%◌,
  ◌+◌, ◌/◌, ◌==ℕ◌, ◌^◌, ◌∷◌, ◌≡◌,
}

pub record MqvpnDscpPin : Type 0 where
  pub iface : String
  pub dscp : List String

-- mask |= 1 << n
unfoldable pub set_bit : ℕ → ℕ → ℕ
set_bit n mask = if mask / 2 ^ n % 2 ==ℕ 1 then mask else mask + 2 ^ n

-- The mask of the classes, or none if one is not known. (DSCP_CODEPOINTS has the keys of DSCP_CLASSES.)
unfoldable pub mask_of : List String → ℕ → Option ℕ
unfolding set_bit
mask_of [] mask = some mask
mask_of (dscp ∷ classes) mask = elim (lookup dscp dscp_codepoints) [
  | none ↦ none
  | some n ↦ mask_of classes (set_bit n mask)
]

unfoldable pub desired_masks : List MqvpnDscpPin → List (String × ℕ) → Option (List (String × ℕ))
desired_masks [] desired = some desired
desired_masks (pin ∷ pins) desired =
    if not (is_iface pin.iface) then none else elim (mask_of pin.dscp 0) [
      | none ↦ none
      | some mask ↦ desired_masks pins (insert pin.iface mask desired)
    ]

-- (The reasons also quote the pin.)
unfoldable pub mqvpn_dscp : MqvpnApi → User → List MqvpnDscpPin → Exec MqvpnState Reply
mqvpn_dscp api current_user pins = unless_read_only current_user (do
  server ← gets (λ w. w.server)
  if not (is_some server)
      then pure (reply "warning" "MQVPN is not installed")
      else elim (desired_masks pins []) [
        | none ↦ pure (reply "error" "Invalid dscp pin")
        | some desired ↦ sync_paths api dscp_mask current_user.username desired
      ])

ef_and_cs1 : mask_of ("ef" ∷ "cs1" ∷ "ef" ∷ []) 0 ≡ some (2 ^ 46 + 2 ^ 8)
unfolding mask_of lookup String_discrete
ef_and_cs1 = refl
