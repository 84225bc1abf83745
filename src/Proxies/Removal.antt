-- ===== src/Proxies/Removal.antt =====
-- Adding a user and removing it again gives the file's data back.
use openmptcprouter_vps.Exec.{PyError, Result, bind, key_error, ok, ok_inj, raised}
use openmptcprouter_vps.Prelude.{
  List, Option, String, [], ap, holds_self, none, refl, some, sym, true, ◌++◌, ◌∙◌, ◌∷◌, ◌≡◌,
}
use openmptcprouter_vps.Proxies.Calls.{change_all, change_inbound, in_slot}
use openmptcprouter_vps.Proxies.Data.{Account, ProxyClient, ProxyInbound}
use openmptcprouter_vps.Proxies.Users.{
  Identity, Slot, append_user, drop_accounts, drop_clients, new_client, remove_user_of, shadowsocks,
  slot_of, socks, trojan, tunnel, vmess,
}
use openmptcprouter_vps.V2ray.Ports.{or_raise}

-- Inversion of a bind that returns.
pub bind-eq-ok :
    {A B : Type 0} (r : Result A) (f : A → Result B) {b : B}
    → bind r f ≡ ok b
    → (a : A) × (r ≡ ok a) × (f a ≡ ok b)
bind-eq-ok (ok a) f h = (a, refl, h)
bind-eq-ok (raised e) f h = cc

pub or_raise-eq-ok :
    {A : Type 0} (e : PyError) (o : Option A) {a : A} → or_raise e o ≡ ok a → o ≡ some a
or_raise-eq-ok e none h = cc
or_raise-eq-ok e (some b) h = ap some (ok_inj h)

module _ (name : String) where
  drop_clients-append :
      (l kept : List ProxyClient) (c : ProxyClient)
      → c.email ≡ some name
      → drop_clients name l ≡ ok kept
      → drop_clients name (l ++ c ∷ []) ≡ ok kept
  unfolding drop_clients
  drop_clients-append [] kept c h q = simp (h, holds_self) q
  drop_clients-append (x ∷ l) kept c h q =
      let (email, he, q1) = bind-eq-ok (or_raise key_error x.email) _ q in
      let (rest, hr, q2) = bind-eq-ok (drop_clients name l) _ q1 in
      simp (he, drop_clients-append l rest c h hr) q2

  drop_accounts-append :
      (l kept : List Account) (a : Account)
      → a.user ≡ some name
      → drop_accounts name l ≡ ok kept
      → drop_accounts name (l ++ a ∷ []) ≡ ok kept
  unfolding drop_accounts
  drop_accounts-append [] kept a h q = simp (h, holds_self) q
  drop_accounts-append (x ∷ l) kept a h q =
      let (user, he, q1) = bind-eq-ok (or_raise key_error x.user) _ q in
      let (rest, hr, q2) = bind-eq-ok (drop_accounts name l) _ q1 in
      simp (he, drop_accounts-append l rest a h hr) q2

  -- The user's element is at the end of the list, and no other one is there.
  clients_back :
      (i : ProxyInbound) (c : ProxyClient)
      → c.email ≡ some name
      → remove_user_of tunnel name i ≡ ok i
      → (l : List ProxyClient) × (i.clients ≡ some l)
        × (remove_user_of tunnel name (record i { clients = some (l ++ c ∷ []) }) ≡ ok i)
  unfolding remove_user_of
  clients_back i c named h =
      let (l, hl, h1) = bind-eq-ok (or_raise key_error i.clients) _ h in
      let (kept, hk, h2) = bind-eq-ok (drop_clients name l) _ h1 in
      let present = or_raise-eq-ok key_error i.clients hl in
      (l, present, simp (drop_clients-append l kept c named hk) h2)

  accounts_back :
      (i : ProxyInbound) (a : Account)
      → a.user ≡ some name
      → remove_user_of socks name i ≡ ok i
      → (l : List Account) × (i.accounts ≡ some l)
        × (remove_user_of socks name (record i { accounts = some (l ++ a ∷ []) }) ≡ ok i)
  unfolding remove_user_of
  accounts_back i a named h =
      let (l, hl, h1) = bind-eq-ok (or_raise key_error i.accounts) _ h in
      let (kept, hk, h2) = bind-eq-ok (drop_accounts name l) _ h1 in
      (l, or_raise-eq-ok key_error i.accounts hl, simp (drop_accounts-append l kept a named hk) h2)

-- The user can be appended, and removing it gives the inbound back.
record Returns (u : Identity) (slot : Slot) (i : ProxyInbound) : Type 0 where
  appended : ProxyInbound
  appends : append_user slot u i ≡ ok appended
  same_tag : appended.tag ≡ i.tag
  removes : remove_user_of slot u.name appended ≡ ok i

module _ (u : Identity) where
  client-Returns :
      (slot : Slot) (i : ProxyInbound)
      → ((l : List ProxyClient)
          → i.clients ≡ some l
          → append_user slot u i ≡ ok (record i { clients = some (l ++ new_client slot u ∷ []) }))
      → ((j : ProxyInbound) → remove_user_of slot u.name j ≡ remove_user_of tunnel u.name j)
      → (new_client slot u).email ≡ some u.name
      → remove_user_of slot u.name i ≡ ok i
      → Returns u slot i
  client-Returns slot i app rem named h =
      let (l, present, back) = clients_back u.name i (new_client slot u) named (sym (rem i) ∙ h) in
      record {
        appended = record i { clients = some (l ++ new_client slot u ∷ []) };
        appends = app l present;
        same_tag = refl;
        removes = rem _ ∙ back;
      }

  user-Returns :
      (slot : Slot) (i : ProxyInbound) → remove_user_of slot u.name i ≡ ok i → Returns u slot i
  unfolding append_user remove_user_of new_client
  user-Returns tunnel i h = client-Returns tunnel i (λ l p. simp p) (λ j. refl) refl h
  user-Returns vmess i h = client-Returns vmess i (λ l p. simp p) (λ j. refl) refl h
  user-Returns trojan i h = client-Returns trojan i (λ l p. simp p) (λ j. refl) refl h
  user-Returns shadowsocks i h = client-Returns shadowsocks i (λ l p. simp p) (λ j. refl) refl h
  user-Returns socks i h =
      let (l, present, back) =
        accounts_back u.name i (record { pass = some u.uuid; user = some u.name }) refl h in
      record {
        appended = record i {
          accounts = some (l ++ record { pass = some u.uuid; user = some u.name } ∷ []);
        };
        appends = simp present;
        same_tag = refl;
        removes = back;
      }

  slot-back :
      (slot : Option Slot) (i : ProxyInbound)
      → in_slot true (λ s. remove_user_of s u.name) slot i ≡ ok i
      → (j : ProxyInbound) × (in_slot true (λ s. append_user s u) slot i ≡ ok j)
        × (j.tag ≡ i.tag)
        × (in_slot true (λ s. remove_user_of s u.name) slot j ≡ ok i)
  unfolding in_slot
  slot-back none i h = (i, refl, refl, refl)
  slot-back (some slot) i h =
      let r = user-Returns slot i h in (r.appended, r.appends, r.same_tag, r.removes)

  inbound-back :
      (i : ProxyInbound)
      → change_inbound true (λ s. remove_user_of s u.name) i ≡ ok i
      → (j : ProxyInbound) × (change_inbound true (λ s. append_user s u) i ≡ ok j)
        × (change_inbound true (λ s. remove_user_of s u.name) j ≡ ok i)
  unfolding change_inbound
  inbound-back i h =
      let (tag, ht, h1) = bind-eq-ok (or_raise key_error i.tag) _ h in
      let present = or_raise-eq-ok key_error i.tag ht in
      let (j, added, same, removed) = slot-back (slot_of true tag) i h1 in
      (j, simp present added, simp (same, present) removed)

  pub all-back :
      (l : List ProxyInbound)
      → change_all true (λ s. remove_user_of s u.name) l ≡ ok l
      → (k : List ProxyInbound) × (change_all true (λ s. append_user s u) l ≡ ok k)
        × (change_all true (λ s. remove_user_of s u.name) k ≡ ok l)
  unfolding change_all
  all-back [] h = ([], refl, refl)
  all-back (i ∷ rest) h =
      let (j, hj, h1) = bind-eq-ok (change_inbound true (λ s. remove_user_of s u.name) i) _ h in
      let (others, ho, h2) =
        bind-eq-ok (change_all true (λ s. remove_user_of s u.name) rest) _ h1 in
      let (i', added, removed) = inbound-back i (hj ∙ cc (ok_inj h2)) in
      let (k, added_all, removed_all) = all-back rest (ho ∙ cc (ok_inj h2)) in
      (i' ∷ k, simp (added, added_all), simp (removed, removed_all))
