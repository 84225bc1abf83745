-- ===== src/Shadowsocks/Manager.antt =====
-- add_ss_user and remove_ss_user.
use openmptcprouter_vps.Config.{get_or}
use openmptcprouter_vps.Dict.{keys}
use openmptcprouter_vps.Exec.{
  Exec, Result, bind, gets, key_error, lift, modify, ok, pure, raised, value_error, ◌>>=◌, ◌>>◌,
}
use openmptcprouter_vps.Prelude.{
  List, Option, String, [], fmt, if◌then◌else◌, is_some, none, some, str, suc, ℕ, ◌&&◌, ◌+◌, ◌==◌,
  ◌∷◌,
}
use openmptcprouter_vps.Shadowsocks.Ports.{drop_port, highest_port, put_port}

pub record PortConf : Type 0 where
  pub key : String
  pub local_address : Option String
  pub userid : Option ℕ

-- manager.json: keys by port, or records by port.
pub record SsManager : Type 0 where
  pub port_key : Option (List (ℕ × String))
  pub port_conf : Option (List (ℕ × PortConf))

-- The file, if it is there, and the datagrams sent to the manager, the last first. (A file that is no
-- JSON and a failure of the socket, which is only logged, are not modelled.)
pub record SsState : Type 0 where
  pub manager : Option SsManager
  pub sent : List String

abbrev put_manager : SsManager → String → SsState → SsState
put_manager m message w = record { manager = some m; sent = message ∷ w.sent }

-- The port that is asked for, unless it is missing or 0; else the one behind the highest. (The port is a
-- number; the text '0' does not come here, since /add_user wants ports above 0.)
unfoldable pub chosen_port : {A : Type 0} → Option ℕ → List (ℕ × A) → Result ℕ
chosen_port (some (suc n)) ports = ok (suc n)
chosen_port _ ports = elim (highest_port ports) [ none ↦ raised value_error | some h ↦ ok (h + 1) ]

-- for old_port in data['port_key']: data['port_conf'][old_port] = {'key': …}
unfoldable pub moved : List (ℕ × String) → List (ℕ × PortConf) → List (ℕ × PortConf)
moved [] conf = conf
moved ((port, key) ∷ keys) conf =
    moved keys (put_port port (record { key = key; local_address = none; userid = none }) conf)

-- The records after the move, if there were keys.
unfoldable pub all_conf : SsManager → List (ℕ × PortConf)
all_conf m = moved (get_or m.port_key []) (get_or m.port_conf [])

unfoldable pub add_message : ℕ → String → String → String
add_message port key ip =
    if ip == ""
    then fmt ("add: {\"server_port\": " ∷ str port ∷ ", \"key\": \"" ∷ key ∷ "\"}" ∷ [])
    else fmt (
        "add: {\"server_port\": "
        ∷ str port
        ∷ ", \"key\": \""
        ∷ key
        ∷ "\", \"local_addr\": \""
        ∷ ip
        ∷ "\"}"
        ∷ [])

-- The new configuration and the port.
unfoldable pub manager_added : SsManager → Option ℕ → String → ℕ → String → Result (SsManager × ℕ)
manager_added m port key userid ip =
    if (ip == "") && is_some m.port_key
    then bind (chosen_port port (get_or m.port_key []))
        (λ p. ok (record m { port_key = some (put_port p key (get_or m.port_key [])) }, p))
    else bind (chosen_port port (all_conf m)) (λ p. ok (
      record {
        port_key = none;
        port_conf = some (
            put_port p
              (record {
                key = key;
                local_address = if ip == "" then none else some ip;
                userid = some userid;
              })
              (all_conf m));
      },
      p,
    ))

-- Without a manager the port comes back as it was given.
unfoldable pub add_ss_user : Option ℕ → String → ℕ → String → Exec SsState (Option ℕ)
add_ss_user port key userid ip = do
  manager ← gets (λ w. w.manager)
  elim manager [
    | none ↦ pure port
    | some m ↦ (do
      (m', p) ← lift (manager_added m port key userid ip)
      modify (put_manager m' (add_message p key ip))
      pure (some p))
  ]

-- Without keys and records it is a KeyError.
unfoldable pub manager_removed : SsManager → ℕ → Result SsManager
manager_removed m port = elim m.port_key [
  | some keys ↦ ok (record m { port_key = some (drop_port port keys) })
  | none ↦ elim m.port_conf [
    | some conf ↦ ok (record m { port_conf = some (drop_port port conf) })
    | none ↦ raised key_error
  ]
]

unfoldable pub remove_ss_user : ℕ → Exec SsState Unit
remove_ss_user port = do
  manager ← gets (λ w. w.manager)
  elim manager [
    | none ↦ pure tt
    | some m ↦ (do
      m' ← lift (manager_removed m port)
      modify (put_manager m' (fmt ("remove: {\"server_port\": " ∷ str port ∷ "}" ∷ []))))
  ]
