-- ===== src/Host/Store.antt =====
-- omradmin.py: reading omr-admin-config.json, leniently (`read_omr_config`) and strictly
-- (`json.load`), backing it up and writing it.
-- read_omr_config: text that is no JSON gives an empty dict, a missing file an exception.
use openmptcprouter_vps.Config.{
  Config, ConfigFile, UserData, empty_config, invalid, missing, parsed, trailing_commas,
  users_or_empty,
}
use openmptcprouter_vps.Dict.{lookup}
use openmptcprouter_vps.Exec.{Exec, file_not_found, key_error, ok, raised, require, value_error}
use openmptcprouter_vps.Host.{World}
use openmptcprouter_vps.Prelude.{List, Option, String, [], none, some, ◌∷◌}

unfoldable pub read_omr_config : Exec World Config
read_omr_config w = elim w.config [
  | missing ↦ (raised file_not_found, w)
  | invalid ↦ (ok empty_config, w)
  | trailing_commas c ↦ (ok c, w)
  | parsed c ↦ (ok c, w)
]

-- with open(…) as f: json.load(f)
unfoldable pub load_config : Exec World Config
load_config w = elim w.config [
  | missing ↦ (raised file_not_found, w)
  | invalid ↦ (raised value_error, w)
  | trailing_commas c ↦ (raised value_error, w)
  | parsed c ↦ (ok c, w)
]

-- backup_config: the copy fails on a missing file. (The pruning of old copies is not modelled.)
unfoldable pub backup_config : Exec World Unit
backup_config w = elim w.config [
  | missing ↦ (raised file_not_found, w)
  | _ ↦ (ok tt, record w { backups = w.config ∷ w.backups })
]

-- with open(…, 'w') as f: json.dump(data, f, indent=4)
unfoldable pub dump_config : Config → Exec World Unit
dump_config c w = (ok tt, record w { config = parsed c })

-- data['users'][0] (An empty list of users, an IndexError, has no place in the model.)
unfoldable pub users_of : Config → Exec World (List (String × UserData))
users_of c = require key_error c.users

-- What a lenient read gives, as a value.
abbrev pub readable : ConfigFile → Option Config
readable missing = none
readable invalid = some empty_config
readable (trailing_commas c) = some c
readable (parsed c) = some c

-- The users of the file, when it is there.
abbrev pub stored_users : World → List (String × UserData)
stored_users w = elim (readable w.config) [ none ↦ [] | some c ↦ users_or_empty c ]

unfoldable pub user_at : World → String → Option UserData
user_at w name = lookup name (stored_users w)
