-- ===== src/Firewall/Numeric.antt =====
-- With every user id stored as a number, rendering and syncing always return.
use openmptcprouter_vps.Config.{
  Config, FwEntry, UserData, UserId, get_or, new_user, number, numeral, users_or_empty,
}
use openmptcprouter_vps.Dict.{lookup}
use openmptcprouter_vps.Exec.{PyError, Result, bind, ok, raised, ◌>>=◌}
use openmptcprouter_vps.Firewall.Nft.{nft_flush_chain, nft_run}
use openmptcprouter_vps.Firewall.Ports.{nft_sync_ports, stored_ports}
use openmptcprouter_vps.Firewall.Rules.{
  Rules, dnat_target, render_bulk_redirect, render_entries, render_entry, render_fw_ports,
  render_users, tunnel_v6,
}
use openmptcprouter_vps.Host.{Host, World}
use openmptcprouter_vps.Host.Store.{read_omr_config, readable}
use openmptcprouter_vps.Prelude.{
  Bool, List, Option, String, String_discrete, [], arith, false, holds, if◌then◌else◌, none, refl,
  some, subst, true, ◌==ℕ◌, ◌∷◌, ◌≡◌, ◌≢◌,
}

abbrev pub IsNumeric : Option UserId → Type 0
IsNumeric none = Unit
IsNumeric (some (number n)) = Unit
IsNumeric (some (numeral n)) = ⊥

-- Every user id is missing or a number.
abbrev pub NumericIds : List (String × UserData) → Type 0
NumericIds [] = Unit
NumericIds ((name, u) ∷ users) = IsNumeric u.userid × NumericIds users

abbrev Returns : {A : Type 0} → Result A → Type 0
Returns {A} r = (a : A) × (r ≡ ok a)

bind-Returns :
    {A B : Type 0} (r : Result A) (f : A → Result B)
    → Returns r
    → ((a : A) → Returns (f a))
    → Returns (bind r f)
bind-Returns (ok a) f h k = k a
bind-Returns (raised e) f h k = cc (h.1)

if-Returns :
    {A : Type 0} (b : Bool) {x y : Result A} → Returns x → Returns y → Returns (if b then x else y)
if-Returns true h k = h
if-Returns false h k = k

tunnel_v6-Returns : (id : Option UserId) → IsNumeric id → Returns (tunnel_v6 id)
unfolding tunnel_v6
tunnel_v6-Returns none h = (_, refl)
tunnel_v6-Returns (some (number n)) h = (_, refl)
tunnel_v6-Returns (some (numeral n)) h = absurd h

render_entry-Returns :
    (name : String) (u : UserData) (e : FwEntry)
    → IsNumeric u.userid
    → Returns (render_entry name u e)
unfolding render_entry dnat_target
render_entry-Returns name u e h =
    if-Returns _ (_, refl)
      (if-Returns _
        (bind-Returns (dnat_target u (get_or e.family 4) (get_or e.vpn "default")) _
          (if-Returns _ (_, refl)
            (if-Returns (get_or e.family 4 ==ℕ 4) (_, refl) (tunnel_v6-Returns u.userid h)))
          (λ t. (_, refl)))
        (_, refl))

render_entries-Returns :
    (name : String) (u : UserData) (l : List FwEntry)
    → IsNumeric u.userid
    → Returns (render_entries name u l)
unfolding render_entries
render_entries-Returns name u [] h = (_, refl)
render_entries-Returns name u (e ∷ l) h =
    bind-Returns (render_entry name u e) _ (render_entry-Returns name u e h) (λ r.
      bind-Returns (render_entries name u l) _ (render_entries-Returns name u l h)
        (λ rules. (_, refl)))

render_users-Returns :
    (users : List (String × UserData)) → NumericIds users → Returns (render_users users)
unfolding render_users
render_users-Returns [] h = (_, refl)
render_users-Returns ((name, u) ∷ users) h =
    bind-Returns (render_entries name u (stored_ports u)) _
      (render_entries-Returns name u (stored_ports u) h.0)
      (λ first.
        bind-Returns (render_users users) _ (render_users-Returns users h.1) (λ rest. (_, refl)))

pub NumericIds-lookup :
    (name : String) (users : List (String × UserData)) {u : UserData}
    → NumericIds users
    → lookup name users ≡ some u
    → IsNumeric u.userid
unfolding lookup
NumericIds-lookup name [] h e = cc
NumericIds-lookup name ((j, v) ∷ users) {u} h e =
    elim (String_discrete j name)
        as (λ d. (if holds d then some v else lookup name users) ≡ some u → IsNumeric u.userid) [
          | yes p ↦ λ same.
              subst (λ (o : Option UserData). elim o [ none ↦ Unit | some x ↦ IsNumeric x.userid ])
                same h.0
          | no n ↦ λ rest. NumericIds-lookup name users h.1 rest
        ]
      e

default_user-IsNumeric :
    (users : List (String × UserData))
    → NumericIds users
    → IsNumeric (get_or (lookup "openmptcprouter" users) new_user).userid
default_user-IsNumeric users h = go (lookup "openmptcprouter" users) refl
  where
    go :
        (o : Option UserData)
        → lookup "openmptcprouter" users ≡ o
        → IsNumeric (get_or o new_user).userid
    go none e = tt
    go (some u) e = NumericIds-lookup "openmptcprouter" users h e

-- Both renderings return a value.
pub render_returns :
    (c : Config)
    → NumericIds (users_or_empty c)
    → ((rules : Rules) × (render_fw_ports c ≡ ok rules))
      × ((bulk : List String) × (render_bulk_redirect c ≡ ok bulk))
unfolding render_fw_ports render_bulk_redirect
render_returns c h = (
  render_users-Returns (users_or_empty c) h,
  if-Returns _
      (bind-Returns
        (tunnel_v6 (get_or (lookup "openmptcprouter" (users_or_empty c)) new_user).userid) _
        (tunnel_v6-Returns _ (default_user-IsNumeric (users_or_empty c) h)) (λ target6. (_, refl)))
      (_, refl),
)

-- If the file can be read and no user id is a text, a sync of the ports raises no exception, whatever
-- nft answers.
pub nft_sync_ports_returns :
    (host : Host) (w : World) {c : Config}
    → readable w.config ≡ some c
    → NumericIds (users_or_empty c)
    → (e : PyError) → (nft_sync_ports host w).0 ≢ raised e
unfolding nft_sync_ports nft_flush_chain nft_run read_omr_config ◌>>=◌
nft_sync_ports_returns host w {c} reads h e =
    let ((rules, r), (bulk, b)) = render_returns c h in ground (arith, r, b)
