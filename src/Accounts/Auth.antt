-- ===== src/Accounts/Auth.antt =====
-- get_user, authenticate_user, /token and get_current_user.
use Prim.Native.Char.{code}
use openmptcprouter_vps.Config.{UserData, get_or, int}
use openmptcprouter_vps.Dict.{lookup}
use openmptcprouter_vps.Exec.{
  Exec, PyError, Result, bind, http_exception, lift, ok, pure, raise, raised, type_error,
  value_error, ◌>>=◌,
}
use openmptcprouter_vps.Host.{World}
use openmptcprouter_vps.Host.Reply.{User}
use openmptcprouter_vps.Host.Store.{load_config, users_of}
use openmptcprouter_vps.Prelude.{
  Bool, List, Option, String, false, if◌then◌else◌, ltb, none, some, true, ◌&&◌, ◌==◌,
}

-- What the service takes from its libraries: the signed token of a name, the name of a token whose
-- signature and age are right (none if not, `some none` if it names nobody), and pydantic's reading of a
-- text as a bool.
pub record Libraries : Type 0 where
  pub encode : String → String
  pub decode : String → Option (Option String)
  pub to_bool : String → Option Bool

-- UserInDB, the fields that the service reads. The `username` in a user's dict is its key.
pub record UserInDb : Type 0 where
  pub user : User
  pub disabled : Bool
  pub user_password : String

-- The flag of a dict; the default is false.
unfoldable pub disabled_flag : Libraries → UserData → Option Bool
disabled_flag libs u = elim u.disabled [ none ↦ some false | some s ↦ libs.to_bool s ]

-- UserInDB(**user_dict); a validation error is a ValueError.
unfoldable pub user_in_db : Libraries → String → UserData → Result UserInDb
user_in_db libs username u = elim u.user_password [
  | none ↦ raised value_error
  | some password ↦ elim (disabled_flag libs u) [
    | none ↦ raised value_error
    | some flag' ↦ ok (record {
      user = record {
        username = username;
        permissions = get_or u.permissions "rw";
        userid = elim u.userid [ none ↦ none | some id ↦ some (int id) ];
      };
      disabled = flag';
      user_password = password;
    })
  ]
]

unfoldable pub get_user : Libraries → List (String × UserData) → String → Result (Option UserInDb)
get_user libs db username = elim (lookup username db) [
  | none ↦ ok none
  | some u ↦ bind (user_in_db libs username u) (λ account. ok (some account))
]

-- s.isascii()
unfoldable pub is_ascii : String → Bool
is_ascii String.[] = true
is_ascii (String.◌∷◌ c s) = let rest = is_ascii s in ltb (code c) 128 && rest

-- secrets.compare_digest: texts that are not ASCII are a TypeError.
unfoldable pub verify_password : String → String → Result Bool
verify_password plain_password user_password =
    if is_ascii plain_password && is_ascii user_password
    then ok (plain_password == user_password)
    else raised type_error

unfoldable pub authenticate_user :
    Libraries → List (String × UserData) → String → String → Result (Option UserInDb)
authenticate_user libs db username password = bind (get_user libs db username) (λ found_user.
    elim found_user [
      | none ↦ ok none
      | some account ↦
          bind (verify_password password account.user_password)
            (λ right. ok (if right then some account else none))
    ])

abbrev pub bad_login : PyError
bad_login = http_exception 400 "Incorrect username or password"

abbrev pub inactive_user : PyError
inactive_user = http_exception 400 "Inactive user"

abbrev pub no_credentials : PyError
no_credentials = http_exception 403 "Could not validate credentials"

-- /token: the access token. (The log line of a failure is not modelled.)
unfoldable pub login_for_access_token : Libraries → String → String → Exec World String
login_for_access_token libs username password = do
  content ← load_config
  db ← users_of content
  account ← lift (authenticate_user libs db username password)
  elim account [
    | none ↦ raise bad_login
    | some a ↦ if a.disabled then raise inactive_user else pure (libs.encode username)
  ]

-- The user of a name that a token gives.
unfoldable pub user_of_name : Libraries → String → Exec World User
user_of_name libs username = do
  content ← load_config
  elim content.users [
    | none ↦ raise no_credentials
    | some db ↦ (do
      account ← lift (get_user libs db username)
      elim account [
        | none ↦ raise no_credentials
        | some a ↦ if a.disabled then raise inactive_user else pure a.user
      ])
  ]

unfoldable pub get_current_user : Libraries → String → Exec World User
get_current_user libs token = elim (libs.decode token) [
  | none ↦ raise no_credentials
  | some sub ↦ elim sub [ none ↦ raise no_credentials | some username ↦ user_of_name libs username ]
]
