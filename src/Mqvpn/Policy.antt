-- ===== src/Mqvpn/Policy.antt =====
-- The `path_policy` list of server.json and the three helpers over it.
use openmptcprouter_vps.Prelude.{
  Bool, List, Option, String, String_discrete, [], contains, false, if◌then◌else◌, is_some, none,
  not, some, true, ℕ, ◌&&◌, ◌==◌, ◌||◌, ◌∷◌,
}

-- The two fields that a path can have.
pub data Field : Type 0 where
  weight dscp_mask : Field

pub record PathPolicy : Type 0 where
  pub user : Option String
  pub iface : Option String
  pub path_weight : Option ℕ
  pub path_mask : Option ℕ

-- e.get(field)
abbrev pub value_of : Field → PathPolicy → Option ℕ
value_of weight e = e.path_weight
value_of dscp_mask e = e.path_mask

-- e[field] = value, or e.pop(field, None)
abbrev pub put_value : Field → Option ℕ → PathPolicy → PathPolicy
put_value weight value e = record e { path_weight = value }
put_value dscp_mask value e = record e { path_mask = value }

abbrev pub same_field : Field → Field → Bool
same_field weight weight = true
same_field weight dscp_mask = false
same_field dscp_mask weight = false
same_field dscp_mask dscp_mask = true

abbrev is_text : Option String → String → Bool
is_text none s = false
is_text (some t) s = t == s

-- e.get('user') == username and e.get('iface') == iface
unfoldable pub is_path : String → String → PathPolicy → Bool
is_path username iface e = is_text e.user username && is_text e.iface iface

-- The interface of an entry of the user that has the field.
unfoldable pub iface_with : String → Field → PathPolicy → Option String
iface_with username field e =
    if is_text e.user username && is_some (value_of field e) then e.iface else none

-- The interfaces, each once; the source has a set.
unfoldable pub ifaces_with : List PathPolicy → String → Field → List String
unfolding iface_with
ifaces_with [] username field = []
ifaces_with (e ∷ policy) username field =
    let rest = ifaces_with policy username field in
    elim (iface_with username field e) [
      | none ↦ rest
      | some iface ↦
          if iface == "" || contains String_discrete iface rest then rest else iface ∷ rest
    ]

unfoldable pub policy_set : List PathPolicy → String → String → Field → ℕ → List PathPolicy
policy_set [] username iface field value =
    put_value field (some value)
      (record { user = some username; iface = some iface; path_weight = none; path_mask = none })
    ∷ []
policy_set (e ∷ policy) username iface field value =
    if is_path username iface e
    then put_value field (some value) e ∷ policy
    else e ∷ policy_set policy username iface field value

-- 'weight' not in e and 'dscp_mask' not in e
abbrev pub is_bare : PathPolicy → Bool
is_bare e = not (is_some e.path_weight) && not (is_some e.path_mask)

unfoldable pub policy_clear : List PathPolicy → String → String → Field → List PathPolicy
policy_clear [] username iface field = []
policy_clear (e ∷ policy) username iface field =
    let rest = policy_clear policy username iface field in
    if is_path username iface e
    then if is_bare (put_value field none e) then policy else put_value field none e ∷ policy
    else e ∷ rest
