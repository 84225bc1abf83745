-- ===== src/Vxlan/ClashFree.antt =====
-- No two enabled tunnels with the same network id and port: the invariant that the kernel needs.
use openmptcprouter_vps.Config.{Config, UserData, get_or, int, parsed}
use openmptcprouter_vps.Dict.{insert, lookup, lookup-insert_ne, lookup-insert_self}
use openmptcprouter_vps.Exec.{ok, ◌>>=◌}
use openmptcprouter_vps.Host.{Host, World}
use openmptcprouter_vps.Host.Store.{load_config, users_of}
use openmptcprouter_vps.Prelude.{
  List, Member, Option, String, String_discrete, [], all, ap, arith, if◌then◌else◌, none, refl,
  some, some_inj, sym, true, ◌==◌, ◌∙◌, ◌∷◌, ◌≡◌, ◌≢◌,
}
use openmptcprouter_vps.Vxlan.Assignments.{Ids, assign_users, ids_of}
use openmptcprouter_vps.Vxlan.Settings.{
  VxlanConfig, get_vxlan_config, no_vxlan, user_or_empty, vxlan_config,
}

-- The settings of the device of a user that has an id.
abbrev pub device : Host → UserData → Option VxlanConfig
device host u = elim u.userid [
  | none ↦ none
  | some id ↦ some (vxlan_config host (get_or u.vxlan no_vxlan) (int id))
]

-- Two users with an id and an enabled tunnel never have the same network id and the same port.
pub record IsClashFree (host : Host) (users : List (String × UserData)) : Type 0 where
  pub apart :
      (a b : String) {ua ub : UserData} {ca cb : VxlanConfig}
      → a ≢ b
      → lookup a users ≡ some ua
      → lookup b users ≡ some ub
      → device host ua ≡ some ca
      → device host ub ≡ some cb
      → ca.enabled ≡ true
      → cb.enabled ≡ true
      → ids_of ca ≢ ids_of cb

-- What assign_users collects, as a value; `all` are the users of the file.
unfoldable pub assigned :
    Host → List (String × UserData) → String → List (String × UserData) → List (String × Ids)
assigned host all exclude [] = []
assigned host all exclude ((name, u) ∷ users) =
    let rest = assigned host all exclude users in
    if name == exclude then rest else elim u.userid [
      | none ↦ rest
      | some id ↦
          (
            name,
            ids_of (
                vxlan_config host (get_or (user_or_empty (lookup name all)).vxlan no_vxlan)
                  (int id)),
          )
          ∷ rest
    ]

module _ (host : Host) (w : World) {c : Config} {users : List (String × UserData)}
    (reads : w.config ≡ parsed c) (has_users : c.users ≡ some users) where
  pub assign_users-runs :
      (exclude : String) (us : List (String × UserData))
      → assign_users host exclude us w ≡ (ok (assigned host users exclude us), w)
  unfolding assign_users assigned get_vxlan_config load_config users_of ◌>>=◌
  assign_users-runs exclude [] = refl
  assign_users-runs exclude ((name, u) ∷ us) = ground (arith, assign_users-runs exclude us)

  pub assigned-Member :
      (exclude b : String) {ub : UserData} {cb : VxlanConfig} (us : List (String × UserData))
      → lookup b users ≡ some ub
      → device host ub ≡ some cb
      → exclude ≢ b
      → lookup b us ≡ some ub
      → Member (b, ids_of cb) (assigned host users exclude us)
  unfolding assigned lookup
  assigned-Member exclude b [] known dev ne h = cc
  assigned-Member exclude b ((name, u) ∷ us) known dev ne h =
      ground (arith, assigned-Member exclude b us known dev ne)

-- If the tunnel of `u` under the name `a` is enabled, no other user has its id and port.
abbrev pub IsAlone : Host → String → UserData → List (String × UserData) → Type 0
IsAlone host a u users =
    (b : String) (ub : UserData) (ca cb : VxlanConfig)
    → a ≢ b
    → lookup b users ≡ some ub
    → device host u ≡ some ca
    → device host ub ≡ some cb
    → ca.enabled ≡ true
    → ids_of ca ≢ ids_of cb

-- Writing one user's settings keeps the invariant, if no other user holds the id and port that an
-- enabled tunnel then has.
pub insert-IsClashFree :
    (host : Host) (a : String) (u : UserData) (users : List (String × UserData))
    → IsClashFree host users
    → IsAlone host a u users
    → IsClashFree host (insert a u users)
insert-IsClashFree host a u users free new = record {
  apart = λ x y ne hx hy dx dy ex ey. elim (String_discrete a x) [
    | yes ax ↦ elim (String_discrete a y) [
      | yes ay ↦ absurd (ne (sym ax ∙ ay))
      | no nay ↦
          new y _ _ _ nay (sym (lookup-insert_ne a y u users nay) ∙ hy)
            (ap (device host) (
                some_inj (
                  sym (lookup-insert_self a u users)
                  ∙ ap (λ z. lookup z (insert a u users)) ax
                  ∙ hx))
              ∙ dx)
            dy ex
    ]
    | no nax ↦ elim (String_discrete a y) [
      | yes ay ↦ λ same.
          new x _ _ _ nax (sym (lookup-insert_ne a x u users nax) ∙ hx)
            (ap (device host) (
                some_inj (
                  sym (lookup-insert_self a u users)
                  ∙ ap (λ z. lookup z (insert a u users)) ay
                  ∙ hy))
              ∙ dy)
            dx ey (sym same)
      | no nay ↦
          free.apart x y ne (sym (lookup-insert_ne a x u users nax) ∙ hx)
            (sym (lookup-insert_ne a y u users nay) ∙ hy) dx dy ex ey
    ]
  ];
}
