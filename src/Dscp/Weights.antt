-- ===== src/Dscp/Weights.antt =====
-- /mptcp_weight: the router's weights for remote ids, and the file of the ids that were pushed.
use openmptcprouter_vps.Config.{get_or}
use openmptcprouter_vps.Dscp.Pins.{in_byte, run_all}
use openmptcprouter_vps.Exec.{Exec, gets, modify, pure, ◌>>=◌, ◌>>◌}
use openmptcprouter_vps.Host.{Host, World}
use openmptcprouter_vps.Host.Reply.{Reply, User, changes_applied, reply, unless_read_only}
use openmptcprouter_vps.Prelude.{
  Bool, List, Option, String, [], false, filter, if◌then◌else◌, leb, map, negsuc, none, not, pos,
  some, str, suc, true, zero, ℕ, ℤ, ◌==ℕ◌, ◌∷◌,
}

pub record WeightPin : Type 0 where
  pub remote_id : ℤ
  pub weight : ℤ

-- A dict with number keys, in insertion order.
unfoldable pub assign : ℕ → ℕ → List (ℕ × ℕ) → List (ℕ × ℕ)
assign k v [] = (k, v) ∷ []
assign k v ((j, w) ∷ m) = if j ==ℕ k then (j, v) ∷ m else (j, w) ∷ assign k v m

unfoldable pub weight_of : ℕ → List (ℕ × ℕ) → Option ℕ
weight_of k [] = none
weight_of k ((j, w) ∷ m) = if j ==ℕ k then some w else weight_of k m

abbrev positive : ℤ → Option ℕ
positive (pos zero) = none
positive (pos (suc n)) = some (suc n)
positive (negsuc n) = none

unfoldable pub desired_weights : List WeightPin → List (ℕ × ℕ) → Option (List (ℕ × ℕ))
desired_weights [] desired = some desired
desired_weights (pin ∷ pins) desired = elim (in_byte pin.remote_id) [
  | none ↦ none
  | some id ↦ elim (positive pin.weight) [
    | none ↦ none
    | some weight ↦ desired_weights pins (assign id weight desired)
  ]
]

abbrev weight_script : String
weight_script = "/usr/sbin/mptcp-scheduler-weight.sh"

unfoldable pub set_command : ℕ × ℕ → List String
set_command (id, weight) = weight_script ∷ "set" ∷ "id" ∷ str id ∷ str weight ∷ []

unfoldable pub del_command : ℕ → List String
del_command id = weight_script ∷ "del" ∷ "id" ∷ str id ∷ []

-- k in desired
abbrev pub is_desired : List (ℕ × ℕ) → ℕ → Bool
is_desired desired k = elim (weight_of k desired) [ none ↦ false | some w ↦ true ]

-- previous_ids - set(desired.keys())
unfoldable pub stale_ids : List (ℕ × ℕ) → List ℕ → List ℕ
stale_ids desired previous = filter (λ k. not (is_desired desired k)) previous

unfoldable pub insert_sorted : ℕ → List ℕ → List ℕ
insert_sorted x [] = x ∷ []
insert_sorted x (y ∷ ys) = if leb x y then x ∷ y ∷ ys else y ∷ insert_sorted x ys

unfoldable pub sorted : List ℕ → List ℕ
sorted [] = []
sorted (x ∷ xs) = insert_sorted x (sorted xs)

-- (The reason of the error also quotes the pin.)
unfoldable pub mptcp_weight : Host → User → List WeightPin → Exec World Reply
mptcp_weight host current_user weights = unless_read_only current_user (
    if not host.weight_script
    then pure (reply "warning" "mptcp-weight-manager not installed")
    else elim (desired_weights weights []) [
      | none ↦ pure (reply "error" "Invalid weight pin")
      | some desired ↦ (do
        modify (run_all (map set_command desired))
        previous ← gets (λ w. get_or w.weight_ids [])
        modify (run_all (map del_command (stale_ids desired previous)))
        modify (λ w. record w { weight_ids = some (sorted (map (λ e. e.0) desired)) })
        pure changes_applied)
    ])
