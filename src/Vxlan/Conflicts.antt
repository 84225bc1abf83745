-- ===== src/Vxlan/Conflicts.antt =====
-- What a conflict is found from: the names that share a network id and a port with someone.
use openmptcprouter_vps.Config.{has_entries}
use openmptcprouter_vps.Prelude.{
  List, Member, String, [], ap, arith, inl, inr, refl, true, ℕ, ◌∷◌, ◌≡◌,
}
use openmptcprouter_vps.Vxlan.Assignments.{Ids, insert_name, sorted_names, split_by_port}

-- A user that holds the same id and port is in the first list.
pub split_by_port-Member :
    (b : String) (vni port : ℕ) (l : List (String × Ids))
    → Member (b, (vni, port)) l
    → has_entries (split_by_port vni port l).0 ≡ true
unfolding split_by_port
split_by_port-Member b vni port [] m = absurd m
split_by_port-Member b vni port ((name, ids) ∷ l) (inl e) =
    let ids_same : (vni, port) ≡ ids = ap (λ (x : String × Ids). x.1) e in
    rw (← ids_same) (ground arith)
split_by_port-Member b vni port ((name, ids) ∷ l) (inr m) =
    ground (arith, split_by_port-Member b vni port l m)

has_entries-insert_name :
    (name : String) (l : List String) → has_entries (insert_name name l) ≡ true
unfolding insert_name
has_entries-insert_name name [] = refl
has_entries-insert_name name (n ∷ ns) = ground arith

pub has_entries-sorted_names : (l : List String) → has_entries (sorted_names l) ≡ has_entries l
unfolding sorted_names
has_entries-sorted_names [] = refl
has_entries-sorted_names (n ∷ ns) = has_entries-insert_name n (sorted_names ns)
