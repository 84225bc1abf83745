-- ===== src/Firewall/Rendering.antt =====
-- The rendered chains against a description of them: which entries give a rule, and which rule.
use openmptcprouter_vps.Config.{FwEntry, UserData, get_or}
use openmptcprouter_vps.Exec.{Result, bind, ok, raised}
use openmptcprouter_vps.Firewall.Rules.{
  Rendered, Rules, accept_line, add_rendered, dnat_line, dnat_target, render_entries, render_entry,
}
use openmptcprouter_vps.Prelude.{
  Bool, List, String, String_discrete, [], arith, filter, map, ne_of_test, not, refl, ◌&&◌, ◌==◌,
  ◌∷◌, ◌≡◌, ◌≢◌,
}

abbrev pub is_accept : FwEntry → Bool
is_accept e = get_or e.fwtype "ACCEPT" == "ACCEPT"

abbrev pub is_dnat : FwEntry → Bool
is_dnat e = get_or e.fwtype "ACCEPT" == "DNAT"

-- The target of an entry, if it can be computed, and the empty text otherwise.
abbrev pub target_of : UserData → FwEntry → String
target_of u e = elim (dnat_target u (get_or e.family 4) (get_or e.vpn "default")) [
  | ok t ↦ t
  | raised x ↦ ""
]

-- An entry that redirects, with somewhere to redirect to.
abbrev pub redirects : UserData → FwEntry → Bool
redirects u e = is_dnat e && not (target_of u e == "")

bind-ok :
    {A B : Type 0} (r : Result A) (f : A → Result B) {b : B}
    → bind r f ≡ ok b
    → (a : A) × (r ≡ ok a) × (f a ≡ ok b)
bind-ok (ok a) f h = (a, refl, h)
bind-ok (raised e) f h = cc

abbrev pub expected : String → UserData → List FwEntry → Rules
expected name u l = (
  map (accept_line name) (filter is_accept l),
  map (λ e. dnat_line name e (target_of u e)) (filter (redirects u) l),
)

pub accept-ne-dnat : ◌≢◌ {A = String} "ACCEPT" "DNAT"
unfolding String_discrete
accept-ne-dnat = ne_of_test "ACCEPT" "DNAT" refl

expected-cons :
    (name : String) (u : UserData) (e : FwEntry) (l : List FwEntry) (r : Rendered)
    → render_entry name u e ≡ ok r
    → add_rendered r (expected name u l) ≡ expected name u (e ∷ l)
unfolding render_entry filter
expected-cons name u e l r h = ground (arith, accept-ne-dnat)

-- If rendering a user's entries raises nothing, the accept rules are those of the ACCEPT entries, and
-- the dnat rules those of the DNAT entries with a target, each in the order of the list.
pub render_entries-expected :
    (name : String) (u : UserData) (l : List FwEntry) {rules : Rules}
    → render_entries name u l ≡ ok rules
    → rules ≡ expected name u l
unfolding render_entries filter
render_entries-expected name u [] h = cc
render_entries-expected name u (e ∷ l) h =
    let (r, first, more) = bind-ok (render_entry name u e) _ h in
    let (rs, rest, eq) = bind-ok (render_entries name u l) _ more in
    cc (eq, render_entries-expected name u l rest, expected-cons name u e l r first)
