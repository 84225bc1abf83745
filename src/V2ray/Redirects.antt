-- ===== src/V2ray/Redirects.antt =====
-- A redirected port that is added and removed again.
use openmptcprouter_vps.Exec.{ok, raised}
use openmptcprouter_vps.Prelude.{
  Bool, List, String, String_discrete, [], ap, arith, false, holds, holds_self, not, refl, some,
  some_inj, sym, true, ℕ, ℤ, ◌&&◌, ◌++◌, ◌+◌, ◌==◌, ◌∷◌, ◌≡◌, ◌≢◌,
}
use openmptcprouter_vps.V2ray.Numbers.{parse_int}
use openmptcprouter_vps.V2ray.Ports.{
  Redirect, V2rayData, V2rayData_discrete, V2rayInbound, V2rayRule, V2rayState, added, change_file,
  changed, door, door_rule, drop_inbounds, drop_rules, exists_tag, first_of, first_tag, full_tag,
  json, removed, removed_tag, v2ray_add_port, v2ray_del_port, write_back,
}
use openmptcprouter_vps.Xray.Write.{dumped}

-- Without a match, the loop of v2ray_del_port keeps the list and removes an inbound behind it.
drop_inbounds_last :
    (tag : String) (l : List V2rayInbound) (i : V2rayInbound)
    → exists_tag tag l ≡ ok false
    → i.tag ≡ some tag
    → drop_inbounds tag (l ++ i ∷ []) ≡ ok l
unfolding drop_inbounds exists_tag
drop_inbounds_last tag [] i h e = ground (arith, e, holds_self (String_discrete tag tag))
drop_inbounds_last tag (x ∷ l) i h e = ground (arith, drop_inbounds_last tag l i)

-- Every rule has a first tag, and it is another one.
unfoldable pub has_other_tags : String → List V2rayRule → Bool
has_other_tags tag [] = true
has_other_tags tag (r ∷ l) = elim (first_tag r) [
  | raised e ↦ false
  | ok t ↦ not (t == tag) && has_other_tags tag l
]

drop_rules_last :
    (tag : String) (l : List V2rayRule) (r : V2rayRule)
    → has_other_tags tag l ≡ true
    → first_tag r ≡ ok tag
    → drop_rules tag (l ++ r ∷ []) ≡ ok l
unfolding drop_rules has_other_tags
drop_rules_last tag [] r h e = ground (arith, e, holds_self (String_discrete tag tag))
drop_rules_last tag (x ∷ l) r h e = ground (arith, drop_rules_last tag l r)

append_ne : {A : Type 0} (l : List A) (x : A) → l ++ x ∷ [] ≢ l
append_ne [] x e = ground (arith, e)
append_ne (y ∷ l) x e = append_ne l x (ground (arith, e))

-- The data with the redirect's inbound and rule.
abbrev pub with_door : Redirect → ℤ → ℤ → List V2rayInbound → List V2rayRule → V2rayData
with_door r port destport l rules = record {
  inbounds = some (l ++ door r port destport ∷ []);
  rules = some (rules ++ door_rule r ∷ []);
}

write_back_other :
    (d after : V2rayData) (dumped : Bool) (s : V2rayState)
    → after ≢ d
    → write_back d dumped (ok after) s
      ≡ (ok tt, record { file = json after true; restarts = s.restarts + 1 })
unfolding write_back
write_back_other d after dumped s differs =
    let no_match : holds (V2rayData_discrete after d) ≡ false =
      elim (V2rayData_discrete after d) as (λ x. holds x ≡ false) [
        | yes p ↦ absurd (differs p)
        | no n ↦ refl
      ] in
    ground (arith, no_match)

with_door-removed :
    (r : Redirect) (port destport : ℤ) (l : List V2rayInbound) (rules : List V2rayRule)
    → exists_tag (full_tag r) l ≡ ok false
    → has_other_tags (full_tag r) rules ≡ true
    → r.destip ≢ ""
    → removed r (with_door r port destport l rules)
      ≡ ok (record { inbounds = some l; rules = some rules })
unfolding removed removed_tag door door_rule first_tag first_of
with_door-removed r port destport l rules fresh_tag fresh_rules not_empty = ground (
  arith,
  not_empty,
  drop_inbounds_last (full_tag r) l (door r port destport) fresh_tag refl,
  drop_rules_last (full_tag r) rules (door_rule r) fresh_rules refl,
)

with_door-added :
    (r : Redirect) (port destport : ℤ) (l : List V2rayInbound) (rules : List V2rayRule)
    → exists_tag (full_tag r) l ≡ ok false
    → parse_int r.port ≡ some port
    → parse_int r.destport ≡ some destport
    → added r (record { inbounds = some l; rules = some rules })
      ≡ ok (with_door r port destport l rules)
unfolding added
with_door-added r port destport l rules fresh_tag port_read destport_read =
    rw (fresh_tag, port_read, destport_read) refl

module _ (r : Redirect) (l : List V2rayInbound) (rules : List V2rayRule) (dumped : Bool)
    (restarts : ℕ) {port destport : ℤ} where
  -- On a file whose inbounds all have a tag and whose rules all have a first tag, where none is the tag of
  -- the redirect, and for ports that int() reads and a target address that is not empty: adding the
  -- redirect works and puts its inbound and its rule at the ends of the lists, removing it then works
  -- too and gives back the lists, and V2Ray is restarted both times.
  pub v2ray_del_port-add :
      exists_tag (full_tag r) l ≡ ok false
      → has_other_tags (full_tag r) rules ≡ true
      → parse_int r.port ≡ some port
      → parse_int r.destport ≡ some destport
      → r.destip ≢ ""
      → let d : V2rayData = record { inbounds = some l; rules = some rules } in
        let s : V2rayState = record { file = json d dumped; restarts = restarts } in
        (v2ray_add_port r s ≡ (
          ok tt,
          record { file = json (with_door r port destport l rules) true; restarts = restarts + 1 },
        ))
        × (v2ray_del_port r (v2ray_add_port r s).1
            ≡ (ok tt, record { file = json d true; restarts = restarts + 1 + 1 }))
  unfolding v2ray_add_port v2ray_del_port changed change_file
  v2ray_del_port-add fresh_tag fresh_rules port_read destport_read not_empty =
      let d : V2rayData = record { inbounds = some l; rules = some rules } in
      let s : V2rayState = record { file = json d dumped; restarts = restarts } in
      let after = with_door r port destport l rules in
      let differs : after ≢ d =
        λ e. append_ne l (door r port destport) (some_inj (ap (λ x. x.inbounds) e)) in
      let differs_back : d ≢ after = λ e. differs (sym e) in
      let add : v2ray_add_port r s
          ≡ (ok tt, record { file = json after true; restarts = restarts + 1 }) =
        rw (with_door-added r port destport l rules fresh_tag port_read destport_read)
          (write_back_other d after dumped s differs) in
      (
        add,
        rw (add, with_door-removed r port destport l rules fresh_tag fresh_rules not_empty)
            (write_back_other after d true
              (record { file = json after true; restarts = restarts + 1 }) differs_back),
      )
