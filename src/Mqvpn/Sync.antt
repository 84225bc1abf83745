-- ===== src/Mqvpn/Sync.antt =====
-- mqvpn_api, /mqvpn_weight and the write that it shares with /mqvpn_dscp.
use openmptcprouter_vps.Config.{get_or, has_entries}
use openmptcprouter_vps.Dict.{has_key, insert}
use openmptcprouter_vps.Exec.{Exec, gets, modify, pure, ◌>>=◌, ◌>>◌}
use openmptcprouter_vps.Host.Reply.{Reply, User, changes_applied, reply, unless_read_only}
use openmptcprouter_vps.Mqvpn.Policy.{
  Field, PathPolicy, ifaces_with, policy_clear, policy_set, weight,
}
use openmptcprouter_vps.Prelude.{
  Bool, List, Option, String, String_discrete, [], chars, filter, fmt, holds, if◌then◌else◌,
  is_some, join, leb, map, negsuc, none, not, pos, some, ℕ, ℕ_discrete, ℤ, ◌&&◌, ◌++◌, ◌==◌, ◌∷◌,
}

-- A request on MQVPN's control socket.
pub record PathCall : Type 0 where
  pub field : Field
  pub user : String
  pub iface : String
  pub value : ℕ

-- server.json, if it is there, with its `path_policy`, if that is there, and the requests made, the
-- last first. (A file that is no JSON is not modelled.)
pub record MqvpnState : Type 0 where
  pub server : Option (Option (List PathPolicy))
  pub calls : List PathCall

-- MQVPN's answers: no error, or its text. One may depend on how many requests came before.
abbrev pub MqvpnApi : Type 0
MqvpnApi = List PathCall → PathCall → Option String

abbrev note_call : PathCall → MqvpnState → MqvpnState
note_call call w = record w { calls = call ∷ w.calls }

-- The warning of one request.
abbrev pub warning_of : String → Option String → List String
warning_of iface none = []
warning_of iface (some error) = fmt (iface ∷ ": " ∷ error ∷ []) ∷ []

-- The requests for some paths, with the warnings.
unfoldable pub push_all :
    MqvpnApi → Field → String → List (String × ℕ) → Exec MqvpnState (List String)
push_all api field username [] = pure []
push_all api field username ((iface, value) ∷ rest) = do
  let call : PathCall = record { field = field; user = username; iface = iface; value = value }
  error ← gets (λ w. api w.calls call)
  modify (note_call call)
  warnings ← push_all api field username rest
  pure (warning_of iface error ++ warnings)

unfoldable pub clear_all : String → Field → List String → List PathPolicy → List PathPolicy
clear_all username field [] policy = policy
clear_all username field (iface ∷ ifaces) policy =
    clear_all username field ifaces (policy_clear policy username iface field)

unfoldable pub set_all : String → Field → List (String × ℕ) → List PathPolicy → List PathPolicy
set_all username field [] policy = policy
set_all username field ((iface, value) ∷ desired) policy =
    set_all username field desired (policy_set policy username iface field value)

-- previous_ifaces - set(desired.keys())
unfoldable pub stale_ifaces : List PathPolicy → String → Field → List (String × ℕ) → List String
stale_ifaces policy username field desired =
    filter (λ iface. not (has_key iface desired)) (ifaces_with policy username field)

unfoldable pub Policy_discrete : Discrete (List PathPolicy)
unfolding String_discrete ℕ_discrete
Policy_discrete = hlevel (String_discrete, ℕ_discrete)

unfoldable pub converged : List PathPolicy → String → Field → List (String × ℕ) → List PathPolicy
converged policy username field desired =
    set_all username field desired
      (clear_all username field (stale_ifaces policy username field desired) policy)

-- The file is written only if the list changed.
unfoldable pub save_policy : List PathPolicy → List PathPolicy → MqvpnState → MqvpnState
save_policy before after w =
    if holds (Policy_discrete before after) then w else record w { server = some (some after) }

abbrev pub policy_in : MqvpnState → List PathPolicy
policy_in w = get_or (get_or w.server none) []

-- What both endpoints do with the desired values of a field.
unfoldable pub sync_paths : MqvpnApi → Field → String → List (String × ℕ) → Exec MqvpnState Reply
sync_paths api field username desired = do
  policy ← gets policy_in
  cleared ←
      push_all api field username
        (map (λ iface. (iface, 0)) (stale_ifaces policy username field desired))
  pushed ← push_all api field username desired
  modify (save_policy policy (converged policy username field desired))
  pure (
      if has_entries (cleared ++ pushed)
      then reply "warning" (join "; " (cleared ++ pushed))
      else changes_applied)

pub record MqvpnWeightPin : Type 0 where
  pub iface : String
  pub weight_value : ℤ

-- 1 to MQVPN_PATH_LABEL_IFACE_MAX characters
abbrev pub is_iface : String → Bool
is_iface iface = not (iface == "") && leb (chars iface) 15

abbrev pub in_word : ℤ → Option ℕ
in_word (pos n) = if leb n 65535 then some n else none
in_word (negsuc n) = none

unfoldable pub desired_path_weights :
    List MqvpnWeightPin → List (String × ℕ) → Option (List (String × ℕ))
desired_path_weights [] desired = some desired
desired_path_weights (pin ∷ pins) desired =
    if not (is_iface pin.iface) then none else elim (in_word pin.weight_value) [
      | none ↦ none
      | some value ↦ desired_path_weights pins (insert pin.iface value desired)
    ]

-- (The reasons also quote the pin.)
unfoldable pub mqvpn_weight : MqvpnApi → User → List MqvpnWeightPin → Exec MqvpnState Reply
mqvpn_weight api current_user pins = unless_read_only current_user (do
  server ← gets (λ w. w.server)
  if not (is_some server)
      then pure (reply "warning" "MQVPN is not installed")
      else elim (desired_path_weights pins []) [
        | none ↦ pure (reply "error" "Invalid weight pin")
        | some desired ↦ sync_paths api weight current_user.username desired
      ])
