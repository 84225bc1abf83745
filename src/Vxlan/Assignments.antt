-- ===== src/Vxlan/Assignments.antt =====
-- _vxlan_assignments and _vxlan_conflicts: the network ids and ports that the users hold. (Stored ids and
-- ports are natural numbers; the texts that _vxlan_as_int would also read have no place in the model.)
use Prim.Native.Char.{code}
use openmptcprouter_vps.Config.{UserData, int}
use openmptcprouter_vps.Exec.{Exec, pure, ◌>>=◌}
use openmptcprouter_vps.Host.{Host, World}
use openmptcprouter_vps.Host.Store.{read_omr_config}
use openmptcprouter_vps.Prelude.{
  Bool, List, String, [], false, if◌then◌else◌, ltb, none, not, some, true, ℕ, ◌&&◌, ◌==ℕ◌, ◌==◌,
  ◌∷◌,
}
use openmptcprouter_vps.Vxlan.Settings.{VxlanConfig, get_vxlan_config}

-- A network id with the UDP port of its device.
abbrev pub Ids : Type 0
Ids = ℕ × ℕ

abbrev pub ids_of : VxlanConfig → Ids
ids_of c = (c.vni, c.port)

-- The entries for users with an id, the excluded one left out.
unfoldable pub assign_users :
    Host → String → List (String × UserData) → Exec World (List (String × Ids))
assign_users host exclude [] = pure []
assign_users host exclude ((name, u) ∷ users) =
    if name == exclude then assign_users host exclude users else elim u.userid [
      | none ↦ assign_users host exclude users
      | some id ↦ (do
        c ← get_vxlan_config host name (int id)
        rest ← assign_users host exclude users
        pure ((name, ids_of c) ∷ rest))
    ]

unfoldable pub vxlan_assignments : Host → String → Exec World (List (String × Ids))
vxlan_assignments host exclude = do
  c ← read_omr_config
  elim c.users [ none ↦ pure [] | some users ↦ assign_users host exclude users ]

-- The names that share the id, split by whether they have the same port too.
unfoldable pub split_by_port : ℕ → ℕ → List (String × Ids) → List String × List String
split_by_port vni port [] = ([], [])
split_by_port vni port ((name, ids) ∷ rest) =
    let (same_port, other_port) = split_by_port vni port rest in
    if not (ids.0 ==ℕ vni)
    then (same_port, other_port)
    else if ids.1 ==ℕ port
    then (name ∷ same_port, other_port)
    else (same_port, name ∷ other_port)

-- s <= t by code points
unfoldable pub text_leb : String → String → Bool
text_leb String.[] t = true
text_leb (String.◌∷◌ c s) String.[] = false
text_leb (String.◌∷◌ c s) (String.◌∷◌ d t) =
    let rest = text_leb s t in if ltb (code c) (code d) then true else code c ==ℕ code d && rest

unfoldable pub insert_name : String → List String → List String
insert_name name [] = name ∷ []
insert_name name (n ∷ ns) = if text_leb name n then name ∷ n ∷ ns else n ∷ insert_name name ns

-- sorted(names)
unfoldable pub sorted_names : List String → List String
sorted_names [] = []
sorted_names (n ∷ ns) = insert_name n (sorted_names ns)

unfoldable pub vxlan_conflicts : Host → String → ℕ → ℕ → Exec World (List String × List String)
vxlan_conflicts host username vni port = do
  assignments ← vxlan_assignments host username
  let (same_port, other_port) = split_by_port vni port assignments
  pure (sorted_names same_port, sorted_names other_port)
