-- ===== src/Firewall/Keys.antt =====
-- A user's list of firewall entries as a map from keys to entries.
use openmptcprouter_vps.Config.{FwEntry, FwEntry_discrete}
use openmptcprouter_vps.Firewall.Ports.{
  FwKey, fw_port_key, has_other_key, is_supported, same_key, same_key_iff,
}
use openmptcprouter_vps.Prelude.{
  Bool, Bool-cases, List, Option, [], all, arith, contains, filter, if◌then◌else◌, inl, inr, none,
  refl, some, true, ◌++◌, ◌∷◌, ◌≡◌,
}

-- The entry of a key: the first that has it.
unfoldable pub find_key : FwKey → List FwEntry → Option FwEntry
find_key k [] = none
find_key k (e ∷ es) = if same_key (fw_port_key e) k then some e else find_key k es

-- No two entries have the same key.
abbrev pub HasDistinctKeys : List FwEntry → Type 0
HasDistinctKeys [] = Unit
HasDistinctKeys (e ∷ es) = (find_key (fw_port_key e) es ≡ none) × HasDistinctKeys es

pub record IsValid (l : List FwEntry) : Type 0 where
  pub distinct : HasDistinctKeys l
  pub supported : all is_supported l ≡ true

find_key-filter-none :
    (p : FwEntry → Bool) (k : FwKey) (l : List FwEntry)
    → find_key k l ≡ none
    → find_key k (filter p l) ≡ none
unfolding find_key filter
find_key-filter-none p k [] h = refl
find_key-filter-none p k (e ∷ l) h = ground (arith, find_key-filter-none p k l)

pub filter-HasDistinctKeys :
    (p : FwEntry → Bool) (l : List FwEntry) → HasDistinctKeys l → HasDistinctKeys (filter p l)
unfolding filter
filter-HasDistinctKeys p [] h = tt
filter-HasDistinctKeys p (e ∷ l) h = elim (Bool-cases (p e)) [
  | inl y ↦ rw y (find_key-filter-none p (fw_port_key e) l h.0, filter-HasDistinctKeys p l h.1)
  | inr n ↦ rw n (filter-HasDistinctKeys p l h.1)
]

pub find_key-remove :
    (k j : FwKey) (l : List FwEntry)
    → find_key j (filter (has_other_key k) l) ≡ (if same_key k j then none else find_key j l)
unfolding find_key filter has_other_key
find_key-remove k j [] = ground arith
find_key-remove k j (e ∷ l) = ground (
  arith,
  find_key-remove k j l,
  same_key_iff (fw_port_key e) k,
  same_key_iff (fw_port_key e) j,
  same_key_iff k j,
)

pub find_key-append_last :
    (k : FwKey) (l : List FwEntry) (e : FwEntry)
    → find_key k (l ++ e ∷ []) ≡ (elim (find_key k l) [
      | none ↦ if same_key (fw_port_key e) k then some e else none
      | some x ↦ some x
    ])
unfolding find_key
find_key-append_last k [] e = ground arith
find_key-append_last k (x ∷ l) e = ground (arith, find_key-append_last k l e)

pub append_last-HasDistinctKeys :
    (l : List FwEntry) (e : FwEntry)
    → HasDistinctKeys l
    → find_key (fw_port_key e) l ≡ none
    → HasDistinctKeys (l ++ e ∷ [])
unfolding find_key
append_last-HasDistinctKeys [] e h n = (refl, tt)
append_last-HasDistinctKeys (x ∷ l) e h n = (
  ground (
    arith,
    find_key-append_last (fw_port_key x) l e,
    same_key_iff (fw_port_key e) (fw_port_key x),
    same_key_iff (fw_port_key x) (fw_port_key e),
  ),
  append_last-HasDistinctKeys l e h.1 (ground arith),
)

pub find_key_of_contains :
    (e : FwEntry) (l : List FwEntry)
    → HasDistinctKeys l
    → contains FwEntry_discrete e l ≡ true
    → find_key (fw_port_key e) l ≡ some e
unfolding find_key contains
find_key_of_contains e [] h c = cc
find_key_of_contains e (x ∷ l) h c =
    ground (arith, find_key_of_contains e l h.1, same_key_iff (fw_port_key x) (fw_port_key e))
