-- ===== src/Vxlan/Requests.antt =====
-- /vxlan and /vxlan_user keep the invariant.
use openmptcprouter_vps.Config.{
  Config, ConfigFile, UserData, UserId, get_or, has_entries, int, parsed,
}
use openmptcprouter_vps.Dict.{insert, lookup}
use openmptcprouter_vps.Exec.{modify, ok, ◌>>=◌}
use openmptcprouter_vps.Exec.Keeps.{Keeps, Keeps-bind, Keeps-if, Keeps-pure, Keeps-require}
use openmptcprouter_vps.Host.{Host, World}
use openmptcprouter_vps.Host.Reply.{User}
use openmptcprouter_vps.Host.Store.{load_config, read_omr_config, stored_users, users_of}
use openmptcprouter_vps.Prelude.{
  Bool-cases, List, Member, Option-cases, String, [], ap, arith, false, inl, inr, not, refl, some,
  some_inj, subst, sym, true, ℕ, ◌&&◌, ◌==◌, ◌∙◌, ◌∷◌, ◌≡◌, ◌⊎◌,
}
use openmptcprouter_vps.Users.Changes.{modif_config_user, update, vxlan_to}
use openmptcprouter_vps.Users.Updates.{modif_config_user_writes}
use openmptcprouter_vps.Vxlan.Assignments.{
  ids_of, sorted_names, split_by_port, vxlan_assignments, vxlan_conflicts,
}
use openmptcprouter_vps.Vxlan.ClashFree.{
  IsAlone, IsClashFree, assign_users-runs, assigned, assigned-Member, device, insert-IsClashFree,
}
use openmptcprouter_vps.Vxlan.Conflicts.{has_entries-sorted_names, split_by_port-Member}
use openmptcprouter_vps.Vxlan.Endpoints.{
  VxlanRequest, VxlanUser, applied, apply_vxlan, assign_ids, bad_mode, request_overrides,
  user_overrides, vxlan, vxlan_user_set_config,
}
use openmptcprouter_vps.Vxlan.Settings.{
  Overrides, VxlanConfig, get_vxlan_config, merge_vxlan_config, merged, no_vxlan, stored_of,
  vxlan_config,
}
use openmptcprouter_vps.Vxlan.Units.{drop_unit, put_unit, write_vxlan_conf}

abbrev ConfigIs : ConfigFile → World → Type 0
ConfigIs f w = w.config ≡ f

load_config-ConfigIs : {f : ConfigFile} → Keeps (ConfigIs f) load_config
unfolding load_config
load_config-ConfigIs = record { at = λ w h. ground arith }

users_of-ConfigIs : {f : ConfigFile} (c : Config) → Keeps (ConfigIs f) (users_of c)
unfolding users_of
users_of-ConfigIs c = Keeps-require _ _

get_vxlan_config-ConfigIs :
    {f : ConfigFile} (host : Host) (username : String) (userid : ℕ)
    → Keeps (ConfigIs f) (get_vxlan_config host username userid)
unfolding get_vxlan_config
get_vxlan_config-ConfigIs host username userid =
    Keeps-bind load_config-ConfigIs (λ c. Keeps-bind (users_of-ConfigIs c) (λ users. Keeps-pure _))

units-ConfigIs :
    {f : ConfigFile} (g : World → World)
    → ((w : World) → (g w).config ≡ w.config)
    → Keeps (ConfigIs f) (modify g)
unfolding ◌>>=◌
units-ConfigIs g same = record { at = λ w h. same w ∙ h }

pub drop_unit-config : (userid : ℕ) (w : World) → (drop_unit userid w).config ≡ w.config
unfolding drop_unit
drop_unit-config userid w = ground arith

write_vxlan_conf-ConfigIs :
    {f : ConfigFile} (host : Host) (username : String) (userid : ℕ)
    → Keeps (ConfigIs f) (write_vxlan_conf host username userid)
unfolding write_vxlan_conf put_unit
write_vxlan_conf-ConfigIs host username userid =
    Keeps-bind (get_vxlan_config-ConfigIs host username userid) (λ c.
      Keeps-if (not c.enabled) (units-ConfigIs (drop_unit userid) (drop_unit-config userid)) (
        Keeps-bind load_config-ConfigIs (λ d.
          Keeps-bind (users_of-ConfigIs d)
            (λ users. Keeps-if _ (Keeps-pure tt) (units-ConfigIs _ (λ w. refl))))))

module _ (host : Host) (w : World) {c : Config} {users : List (String × UserData)}
    (reads : w.config ≡ parsed c) (has_users : c.users ≡ some users) (a : String) {u : UserData}
    (known : lookup a users ≡ some u) where
  abbrev with_vxlan : VxlanConfig → List (String × UserData)
  with_vxlan cfg = insert a (record u { vxlan = some (stored_of cfg) }) users

  -- What apply_vxlan leaves in the file.
  apply_vxlan-config :
      (userid : ℕ) (cfg : VxlanConfig)
      → (apply_vxlan host a userid cfg w).1.config
        ≡ parsed (record c { users = some (with_vxlan cfg) })
  unfolding apply_vxlan update ◌>>=◌
  apply_vxlan-config userid cfg =
      let (done, stored, log) =
        modif_config_user_writes a (vxlan_to (stored_of cfg) ∷ []) w reads has_users known in
      let w1 = (modif_config_user a (vxlan_to (stored_of cfg) ∷ []) w).1 in
      let rest = Keeps-bind (write_vxlan_conf-ConfigIs host a userid) (λ _.
        Keeps-bind (get_vxlan_config-ConfigIs host a userid) (λ now. Keeps-pure (applied now))) in
      rw done (rest.at w1 stored)

  -- The names that vxlan_conflicts finds.
  abbrev others : ℕ → ℕ → List String × List String
  others vni port = split_by_port vni port (assigned host users a users)

  vxlan_conflicts-runs :
      (vni port : ℕ)
      → vxlan_conflicts host a vni port w
        ≡ (ok (sorted_names (others vni port).0, sorted_names (others vni port).1), w)
  unfolding vxlan_conflicts vxlan_assignments read_omr_config ◌>>=◌
  vxlan_conflicts-runs vni port = ground (arith, assign_users-runs host w reads has_users a users)

  device-stored_of :
      (cfg : VxlanConfig) {ca : VxlanConfig}
      → device host (record u { vxlan = some (stored_of cfg) }) ≡ some ca
      → (ids_of ca ≡ (cfg.vni, cfg.port)) × (ca.enabled ≡ cfg.enabled)
  unfolding vxlan_config
  device-stored_of cfg h = elim (Option-cases u.userid) [
    | inl absent ↦ absurd (ground arith)
    | inr (id, present) ↦
        let same = some_inj (rw present at h) in
        (ap ids_of (sym same), ap (λ z. z.enabled) (sym same))
  ]

  IsAlone-of_none :
      (cfg : VxlanConfig)
      → (cfg.enabled ≡ true → has_entries (sorted_names (others cfg.vni cfg.port).0) ≡ false)
      → IsAlone host a (record u { vxlan = some (stored_of cfg) }) users
  IsAlone-of_none cfg none_found b ub ca cb ne hb da db up same =
      let (ids, enabled) = device-stored_of cfg da in
      let here = assigned-Member host w reads has_users a b users hb db ne hb in
      let there = subst (λ z. Member (b, z) (assigned host users a users)) (sym same ∙ ids) here in
      let seen = split_by_port-Member b cfg.vni cfg.port (assigned host users a users) there in
      absurd
        (ground (arith, none_found, seen, has_entries-sorted_names (others cfg.vni cfg.port).0))

  apply_vxlan-IsClashFree :
      (userid : ℕ) (cfg : VxlanConfig)
      → IsClashFree host users
      → (cfg.enabled ≡ true → has_entries (sorted_names (others cfg.vni cfg.port).0) ≡ false)
      → IsClashFree host (stored_users (apply_vxlan host a userid cfg w).1)
  apply_vxlan-IsClashFree userid cfg free none_found =
      rw (stored_users, apply_vxlan-config userid cfg)
        (insert-IsClashFree host a (record u { vxlan = some (stored_of cfg) }) users free
          (IsAlone-of_none cfg none_found))

  -- What the merge reads is a value.
  abbrev merged_now : ℕ → Overrides → VxlanConfig
  merged_now userid o = merged o (vxlan_config host (get_or u.vxlan no_vxlan) userid)

  merge-runs :
      (userid : ℕ) (o : Overrides)
      → merge_vxlan_config host a userid o w ≡ (ok (merged_now userid o), w)
  unfolding merge_vxlan_config get_vxlan_config load_config users_of ◌>>=◌
  merge-runs userid o = ground arith

  -- A call that leaves the host alone, or applies settings that were checked if they are enabled.
  abbrev IsGuarded : World → ℕ → VxlanConfig → Type 0
  IsGuarded after userid cfg =
      (after ≡ w)
      ⊎ ((after ≡ (apply_vxlan host a userid cfg w).1)
          × (cfg.enabled && has_entries (sorted_names (others cfg.vni cfg.port).0) ≡ false))

  IsClashFree-IsGuarded :
      {after : World} (userid : ℕ) (cfg : VxlanConfig)
      → IsClashFree host users
      → IsGuarded after userid cfg
      → IsClashFree host (stored_users after)
  IsClashFree-IsGuarded userid cfg free (inl same) =
      rw same (rw (stored_users, reads, has_users) free)
  IsClashFree-IsGuarded userid cfg free (inr (same, checked)) =
      rw same (apply_vxlan-IsClashFree userid cfg free (λ on. ground arith))

vxlan-IsGuarded :
    (host : Host) (w : World) {c : Config} {users : List (String × UserData)}
    (reads : w.config ≡ parsed c) (has_users : c.users ≡ some users) (user : User) {u : UserData}
    (known : lookup user.username users ≡ some u) (request : VxlanRequest)
    → let userid = get_or user.userid 0 in
      IsGuarded host w reads has_users user.username known
        (vxlan host user request w).1
        userid
        (merged_now host w reads has_users user.username known userid (request_overrides request))
unfolding vxlan ◌>>=◌
vxlan-IsGuarded host w reads has_users user known request =
    let userid = get_or user.userid 0 in
    let cfg =
      merged_now host w reads has_users user.username known userid (request_overrides request) in
    let now =
      merge-runs host w reads has_users user.username known userid (request_overrides request) in
    let pair = vxlan_conflicts-runs host w reads has_users user.username known cfg.vni cfg.port in
    ground (arith, now, pair)

module _ (host : Host) (w : World) {c : Config} {users : List (String × UserData)}
    (reads : w.config ≡ parsed c) (has_users : c.users ≡ some users)
    (free : IsClashFree host users) where
  -- On valid JSON that holds the user and has no clash, /vxlan leaves a file without one: two users
  -- with an id and an enabled tunnel never have the same network id and port, whoever asks for what.
  pub vxlan-IsClashFree :
      (user : User) {u : UserData} (request : VxlanRequest)
      → lookup user.username users ≡ some u
      → IsClashFree host (stored_users (vxlan host user request w).1)
  vxlan-IsClashFree user request known =
      IsClashFree-IsGuarded host w reads has_users user.username known _ _ free
        (vxlan-IsGuarded host w reads has_users user known request)

  assign_ids-IsGuarded :
      (p : VxlanUser) {u : UserData} (known : lookup p.username users ≡ some u) (userid : ℕ)
      → IsGuarded host w reads has_users p.username known
          (assign_ids host p userid w).1
          userid
          (merged_now host w reads has_users p.username known userid (user_overrides p))
  unfolding assign_ids ◌>>=◌
  assign_ids-IsGuarded p known userid =
      let cfg = merged_now host w reads has_users p.username known userid (user_overrides p) in
      let now = merge-runs host w reads has_users p.username known userid (user_overrides p) in
      let pair = vxlan_conflicts-runs host w reads has_users p.username known cfg.vni cfg.port in
      ground (arith, now, pair)

  vxlan_user-outcome :
      (user : User) (p : VxlanUser)
      → ((vxlan_user_set_config host user p w).1 ≡ w)
        ⊎ ((u : UserData) × (id : UserId) × (lookup p.username users ≡ some u)
            × ((vxlan_user_set_config host user p w).1 ≡ (assign_ids host p (int id) w).1))
  unfolding vxlan_user_set_config read_omr_config ◌>>=◌
  vxlan_user-outcome user p = elim (Option-cases (lookup p.username users)) [
    | inl unknown ↦ inl (ground arith)
    | inr (u, known) ↦ elim (Option-cases u.userid) [
      | inl absent ↦ inl (ground arith)
      | inr (id, present) ↦ elim (Bool-cases (bad_mode p.mode)) [
        | inl bad ↦ inl (ground arith)
        | inr good ↦ elim (Bool-cases (user.permissions == "admin")) [
          | inl admin ↦ inr (u, id, known, ground arith)
          | inr other ↦ inl (ground arith)
        ]
      ]
    ]
  ]

  -- On valid JSON that has no clash, /vxlan_user leaves a file without one, for any caller, any request
  -- and any user named in it, and with or without `force`.
  pub vxlan_user-IsClashFree :
      (user : User) (p : VxlanUser)
      → IsClashFree host (stored_users (vxlan_user_set_config host user p w).1)
  vxlan_user-IsClashFree user p = elim (vxlan_user-outcome user p) [
    | inl same ↦ rw same (rw (stored_users, reads, has_users) free)
    | inr (u, id, known, same) ↦ rw same (
        IsClashFree-IsGuarded host w reads has_users p.username known _ _ free
          (assign_ids-IsGuarded p known (int id)))
  ]
