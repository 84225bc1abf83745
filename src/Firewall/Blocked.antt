-- ===== src/Firewall/Blocked.antt =====
-- An IPv6 redirect of a user whose id is stored as text: the rule cannot be rendered.
use openmptcprouter_vps.Config.{
  Config, FwEntry, UserData, UserId, get_or, is_truthy, number, numeral, users_or_empty,
}
use openmptcprouter_vps.Exec.{PyError, Result, bind, ok, raised, value_error}
use openmptcprouter_vps.Firewall.Kernel.{nft_sync_ports_raises}
use openmptcprouter_vps.Firewall.Ports.{nft_sync_ports, stored_ports}
use openmptcprouter_vps.Firewall.Rendering.{accept-ne-dnat}
use openmptcprouter_vps.Firewall.Rules.{
  dnat_target, render_entries, render_entry, render_fw_ports, render_users, tunnel_v6,
}
use openmptcprouter_vps.Host.{Host, World}
use openmptcprouter_vps.Host.Store.{readable}
use openmptcprouter_vps.Prelude.{
  Bool, List, Member, Option, String, [], ap, arith, false, if◌then◌else◌, inl, inr, none, refl,
  some, true, ℕ, ◌==ℕ◌, ◌∷◌, ◌≡◌, ◌≢◌, ◌⊎◌,
}

-- A result, or a ValueError.
abbrev OkOrValueError : {A : Type 0} → Result A → Type 0
OkOrValueError {A} r = ((a : A) × (r ≡ ok a)) ⊎ (r ≡ raised value_error)

bind-cases :
    {A B : Type 0} (r : Result A) (f : A → Result B)
    → OkOrValueError r
    → ((a : A) → OkOrValueError (f a))
    → OkOrValueError (bind r f)
bind-cases (ok a) f h k = k a
bind-cases (raised e) f (inl h) k = cc (h.1)
bind-cases (raised e) f (inr h) k = inr (rw (ok_free h))
  where
    ok_free : {A : Type 0} {x y : PyError} → ◌≡◌ {A = Result A} (raised x) (raised y) → x ≡ y
    ok_free h = cc

if-cases :
    {A : Type 0} (b : Bool) {x y : Result A}
    → OkOrValueError x
    → OkOrValueError y
    → OkOrValueError (if b then x else y)
if-cases true h k = h
if-cases false h k = k

tunnel_v6-cases : (id : Option UserId) → OkOrValueError (tunnel_v6 id)
unfolding tunnel_v6
tunnel_v6-cases none = inl (_, refl)
tunnel_v6-cases (some (number n)) = inl (_, refl)
tunnel_v6-cases (some (numeral n)) = inr refl

dnat_target-cases : (u : UserData) (f : ℕ) (vpn : String) → OkOrValueError (dnat_target u f vpn)
unfolding dnat_target
dnat_target-cases u f vpn =
    if-cases _ (inl (_, refl)) (if-cases (f ==ℕ 4) (inl (_, refl)) (tunnel_v6-cases u.userid))

render_entry-cases :
    (name : String) (u : UserData) (e : FwEntry) → OkOrValueError (render_entry name u e)
unfolding render_entry
render_entry-cases name u e = if-cases _ (inl (_, refl)) (
    if-cases _
      (bind-cases (dnat_target u (get_or e.family 4) (get_or e.vpn "default")) _
        (dnat_target-cases u (get_or e.family 4) (get_or e.vpn "default")) (λ t. inl (_, refl)))
      (inl (_, refl)))

render_entries-cases :
    (name : String) (u : UserData) (l : List FwEntry) → OkOrValueError (render_entries name u l)
unfolding render_entries
render_entries-cases name u [] = inl (([], []), refl)
render_entries-cases name u (e ∷ l) =
    bind-cases (render_entry name u e) _ (render_entry-cases name u e) (λ r.
      bind-cases (render_entries name u l) _ (render_entries-cases name u l)
        (λ rules. inl (_, refl)))

-- The entry redirects IPv6 connections to the user's own tunnel address, which is made from the id,
-- and the id is a text.
pub record IsBlocked (u : UserData) (e : FwEntry) : Type 0 where
  pub id : ℕ
  pub text_id : u.userid ≡ some (numeral id)
  pub redirect : e.fwtype ≡ some "DNAT"
  pub ipv6 : get_or e.family 4 ≢ 4
  pub to_tunnel : get_or e.vpn "default" ≡ "default"

render_entry_blocked :
    (name : String) (u : UserData) (e : FwEntry)
    → IsBlocked u e
    → render_entry name u e ≡ raised value_error
unfolding render_entry dnat_target tunnel_v6
render_entry_blocked name u e b =
    ground (arith, accept-ne-dnat, b.text_id, b.redirect, b.ipv6, b.to_tunnel)

render_entries_blocked :
    (name : String) (u : UserData) (e : FwEntry) (l : List FwEntry)
    → IsBlocked u e
    → Member e l
    → render_entries name u l ≡ raised value_error
unfolding render_entries
render_entries_blocked name u e [] b m = absurd m
render_entries_blocked name u e (e' ∷ l) b (inl same) = rw (← same, render_entry_blocked name u e b)
render_entries_blocked name u e (e' ∷ l) b (inr m) =
    ground (arith, render_entry-cases name u e', render_entries_blocked name u e l b m)

render_users_blocked :
    (name : String) (u : UserData) (e : FwEntry) (users : List (String × UserData))
    → IsBlocked u e
    → Member e (stored_ports u)
    → Member (name, u) users
    → render_users users ≡ raised value_error
unfolding render_users
render_users_blocked name u e [] b m n = absurd n
render_users_blocked name u e ((name', u') ∷ users) b m (inl same) =
    rw (← ap (λ (x : String × UserData). x.0) same, ← ap (λ (x : String × UserData). x.1) same)
      (rw (render_entries_blocked name u e (stored_ports u) b m))
render_users_blocked name u e ((name', u') ∷ users) b m (inr n) = ground (
  arith,
  render_entries-cases name' u' (stored_ports u'),
  render_users_blocked name u e users b m n,
)

-- While one user of the readable file has a text for an id, and a DNAT entry to the tunnel that is not
-- of IPv4, a sync of the ports raises a ValueError and does nothing: no chain of any user is updated.
pub nft_sync_ports_blocked :
    (host : Host) (w : World) (name : String) {c : Config} {u : UserData} {e : FwEntry}
    → readable w.config ≡ some c
    → is_truthy c ≡ true
    → Member (name, u) (users_or_empty c)
    → Member e (stored_ports u)
    → IsBlocked u e
    → nft_sync_ports host w ≡ (raised value_error, w)
unfolding render_fw_ports
nft_sync_ports_blocked host w name {c} {u} {e} reads full n m b =
    nft_sync_ports_raises host w reads full (render_users_blocked name u e (users_or_empty c) b m n)
