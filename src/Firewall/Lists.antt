-- ===== src/Firewall/Lists.antt =====
-- What adding and removing an entry do to a user's list.
use openmptcprouter_vps.Config.{FwEntry, FwEntry_discrete}
use openmptcprouter_vps.Firewall.Keys.{
  HasDistinctKeys, IsValid, append_last-HasDistinctKeys, filter-HasDistinctKeys, find_key,
  find_key-append_last, find_key-remove, find_key_of_contains,
}
use openmptcprouter_vps.Firewall.Ports.{
  FwEntries_discrete, FwKey, fw_port_key, has_other_key, is_settled, is_supported, ports_added,
  ports_removed, same_key, same_key_iff,
}
use openmptcprouter_vps.Prelude.{
  Bool, Bool-cases, List, Option, [], all, all-append, all-filter, and_parts, contains, false,
  filter, filter-filter, filter_comm, if◌then◌else◌, inl, inr, none, of_holds, refl, some, subst,
  true, ◌++◌, ◌∷◌, ◌≡◌,
}

-- The entry under a key once `e` is stored under its own.
abbrev pub stored_over : FwEntry → List FwEntry → FwKey → Option FwEntry
stored_over e l j = if same_key (fw_port_key e) j then some e else find_key j l

pub is_supported-other_key_all :
    (k : FwKey) (l : List FwEntry)
    → all is_supported (filter (has_other_key k) (filter is_supported l)) ≡ true
is_supported-other_key_all k l =
    rw (filter_comm (has_other_key k) is_supported l)
      (all-filter is_supported (filter (has_other_key k) l))

module _ (e : FwEntry) (sup : is_supported e ≡ true) where
  abbrev fresh : List FwEntry → List FwEntry
  fresh l = filter (has_other_key (fw_port_key e)) (filter is_supported l) ++ e ∷ []

  fresh-find_key :
      (l : List FwEntry) (j : FwKey)
      → find_key j (fresh l) ≡ stored_over e (filter is_supported l) j
  fresh-find_key l j =
      rw
        (
          find_key-append_last j (filter (has_other_key (fw_port_key e)) (filter is_supported l)) e,
          find_key-remove (fw_port_key e) j (filter is_supported l),
        )
        (fits (same_key (fw_port_key e) j) (find_key j (filter is_supported l)))
    where
      fits :
          (b : Bool) (o : Option FwEntry)
          → (elim (if b then none else o) [ none ↦ if b then some e else none | some x ↦ some x ])
            ≡ (if b then some e else o)
      fits true o = refl
      fits false none = refl
      fits false (some x) = refl

  fresh-IsValid : (l : List FwEntry) → HasDistinctKeys l → IsValid (fresh l)
  unfolding all
  fresh-IsValid l d = record {
    distinct =
        append_last-HasDistinctKeys (filter (has_other_key (fw_port_key e)) (filter is_supported l))
          e (filter-HasDistinctKeys _ _ (filter-HasDistinctKeys is_supported l d))
          (rw (find_key-remove (fw_port_key e) (fw_port_key e) (filter is_supported l))
            (rw ((same_key_iff (fw_port_key e) (fw_port_key e)).1 refl)));
    supported = rw (
      all-append is_supported (filter (has_other_key (fw_port_key e)) (filter is_supported l))
          (e ∷ []),
      is_supported-other_key_all (fw_port_key e) l,
      sup,
    );
  }

  kept-IsValid :
      (l : List FwEntry)
      → HasDistinctKeys l
      → contains FwEntry_discrete e l ≡ true
      → filter is_supported l ≡ l
      → IsValid l × ((j : FwKey) → find_key j l ≡ stored_over e (filter is_supported l) j)
  kept-IsValid l d c same = (
    record {
      distinct = d;
      supported = subst (λ x. all is_supported x ≡ true) same (all-filter is_supported l);
    },
    λ j. rw same (elim (Bool-cases (same_key (fw_port_key e) j)) [
      | inl y ↦ rw (y, ← (same_key_iff (fw_port_key e) j).0 y) (find_key_of_contains e l d c)
      | inr n ↦ rw n
    ]),
  )

  -- Adding an entry gives a valid list, in which the entry stands under its key and every other
  -- supported entry under its own.
  pub ports_added-IsValid :
      (l : List FwEntry)
      → HasDistinctKeys l
      → IsValid (ports_added (fw_port_key e) e l)
        × ((j : FwKey)
            → find_key j (ports_added (fw_port_key e) e l)
              ≡ stored_over e (filter is_supported l) j)
  unfolding ports_added is_settled
  ports_added-IsValid l d = elim (Bool-cases (is_settled e l)) [
    | inl there ↦
        let (c, same) = and_parts _ _ there in
        rw there (kept-IsValid l d c (of_holds (FwEntries_discrete (filter is_supported l) l) same))
    | inr fresh ↦ rw fresh (fresh-IsValid l d, fresh-find_key l)
  ]

-- Removing a key leaves the other supported entries under their keys.
pub ports_removed-IsValid :
    (k : FwKey) (l : List FwEntry)
    → HasDistinctKeys l
    → IsValid (ports_removed k l)
      × ((j : FwKey)
          → find_key j (ports_removed k l)
            ≡ (if same_key k j then none else find_key j (filter is_supported l)))
unfolding ports_removed
ports_removed-IsValid k l d = rw (← filter-filter (has_other_key k) is_supported l) (
  record {
    distinct = filter-HasDistinctKeys _ _ (filter-HasDistinctKeys is_supported l d);
    supported = is_supported-other_key_all k l;
  },
  λ j. find_key-remove k j (filter is_supported l),
)
