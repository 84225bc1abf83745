-- ===== src/Metrics/Store.antt =====
-- The JSON backend of the metrics (JSONBackend), which keeps the last measurements of each user's
-- interfaces in omr-metrics.json, and the endpoints POST /metrics and GET /metrics/all over it.
use openmptcprouter_vps.Config.{get_or}
use openmptcprouter_vps.Dict.{insert, lookup}
use openmptcprouter_vps.Exec.{
  Exec, attribute_error, gets, http_exception, modify, pure, raise, require, type_error, ◌>>=◌,
  ◌>>◌,
}
use openmptcprouter_vps.Host.Reply.{User}
use openmptcprouter_vps.Metrics.Json.{
  Json, JsonFile, content, members_of, no_file, object, unreadable,
}
use openmptcprouter_vps.Metrics.Toggle.{admin_or_403}
use openmptcprouter_vps.Prelude.{
  Bool, List, Option, String, [], false, if◌then◌else◌, none, not, some, true, ℕ, ◌&&◌, ◌+◌, ◌==◌,
}

-- One measurement. `Rest` stands for the fields that are stored and passed on.
pub record InterfaceMetrics (Rest : Type 0) : Type 0 where
  pub interface : String
  pub timestamp : Option ℕ
  pub rest : Rest

-- By user: by interface: the measurement.
abbrev pub MetricsData : Type 0 → Type 0
MetricsData Rest = Json (Json (InterfaceMetrics Rest))

-- omr-metrics.json, and the number of attempts to replace it.
pub record MetricsStore (Rest : Type 0) : Type 0 where
  pub file : JsonFile (MetricsData Rest)
  pub attempts : ℕ

-- target = username if current_user.permissions == 'admin' and username else current_user.username
unfoldable pub chosen_user : User → Option String → String
chosen_user user none = user.username
chosen_user user (some username) =
    if (user.permissions == "admin") && not (username == "") then username else user.username

module _ {Rest : Type 0} where
  -- A file that is missing or cannot be read counts as an empty dict.
  unfoldable pub data_of : JsonFile (MetricsData Rest) → MetricsData Rest
  data_of no_file = object []
  data_of unreadable = object []
  data_of (content root) = root

  unfoldable pub read_all_metrics : Exec (MetricsStore Rest) (MetricsData Rest)
  unfolding data_of
  read_all_metrics = gets (λ s. data_of s.file)

  unfoldable pub read_user : String → Exec (MetricsStore Rest) (Json (InterfaceMetrics Rest))
  unfolding read_all_metrics
  read_user username = do
    root ← read_all_metrics
    members ← require attribute_error (members_of root)
    pure (get_or (lookup username members) (object []))

  -- d[payload['interface']] = payload for the user's value `d`, which takes keys if it is a dict
  unfoldable pub put_payload :
      String
      → InterfaceMetrics Rest
      → List (String × Json (InterfaceMetrics Rest))
      → Json (InterfaceMetrics Rest)
      → Option (MetricsData Rest)
  put_payload username payload members (object stored) =
      some (object (insert username (object (insert payload.interface payload stored)) members))
  put_payload username payload members _ = none

  -- data.setdefault(username, {})[payload['interface']] = payload
  unfoldable pub with_payload :
      String
      → InterfaceMetrics Rest
      → List (String × Json (InterfaceMetrics Rest))
      → Option (MetricsData Rest)
  with_payload username payload members =
      put_payload username payload members (get_or (lookup username members) (object []))

  -- if payload.get('timestamp') is None: payload['timestamp'] = int(time.time())
  unfoldable pub stamped : ℕ → InterfaceMetrics Rest → InterfaceMetrics Rest
  stamped now metrics = record metrics { timestamp = some (get_or metrics.timestamp now) }

  -- GET /metrics/all
  unfoldable pub get_all_metrics : User → Exec (MetricsStore Rest) (MetricsData Rest)
  unfolding read_all_metrics
  get_all_metrics user = admin_or_403 user read_all_metrics

-- `saves n`: the n-th attempt to write the file and put it in place works.
module _ {Rest : Type 0} (saves : ℕ → Bool) where
  unfoldable pub put_data : MetricsData Rest → Exec (MetricsStore Rest) Bool
  put_data root = modify (λ s. record s { file = content root }) >> pure true

  unfoldable pub write_interface : String → InterfaceMetrics Rest → Exec (MetricsStore Rest) Bool
  unfolding read_all_metrics with_payload put_data
  write_interface username payload = do
    root ← read_all_metrics
    members ← require attribute_error (members_of root)
    updated ← require type_error (with_payload username payload members)
    n ← gets (λ s. s.attempts)
    modify (λ s. record s { attempts = n + 1 })
    if saves n then put_data updated else pure false

  -- POST /metrics; `now` is the time in seconds.
  unfoldable pub set_metrics :
      User → Option String → InterfaceMetrics Rest → ℕ → Exec (MetricsStore Rest) Unit
  unfolding chosen_user write_interface stamped
  set_metrics user username metrics now = do
    written ← write_interface (chosen_user user username) (stamped now metrics)
    if written then pure tt else raise (http_exception 503 "Metrics storage unavailable")
