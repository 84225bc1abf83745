-- ===== src/Vxlan/Pools.antt =====
-- _vxlan_default_v4 and _vxlan_default_v6: the tunnel addresses of a user id.
use openmptcprouter_vps.Host.{Host}
use openmptcprouter_vps.Prelude.{
  Option, String, [], arith, fmt, hex, if◌then◌else◌, is_some, ltb, none, refl, some, ℕ, ◌*◌, ◌+◌,
  ◌-◌, ◌∷◌, ◌≡◌, ◌≢◌, ◌≤◌, ◌⊎◌,
}

-- VXLAN_V4_POOL_LEGACY.ip and VXLAN_V4_POOL_EXT.ip as numbers, and how many /30 each pool has.
abbrev pub legacy_ip : ℕ
legacy_ip = 10 * 16777216 + 255 * 65536 + 249 * 256

abbrev pub ext_ip : ℕ
ext_ip = 10 * 16777216 + 255 * 65536 + 224 * 256

abbrev pub legacy_slices : ℕ
legacy_slices = 64

abbrev pub ext_slices : ℕ
ext_slices = 1024

-- The first address of a user's /30.
unfoldable pub slice_v4 : ℕ → Option ℕ
slice_v4 userid =
    if ltb userid legacy_slices
    then some (legacy_ip + userid * 4)
    else if ltb (userid - legacy_slices) ext_slices
    then some (ext_ip + (userid - legacy_slices) * 4)
    else none

unfoldable pub vxlan_default_v4 : Host → ℕ → Option String × Option String
unfolding slice_v4
vxlan_default_v4 host userid = elim (slice_v4 userid) [
  | none ↦ (none, none)
  | some net ↦ (
    some (fmt (host.str_ip (net + 1) ∷ "/30" ∷ [])),
    some (fmt (host.str_ip (net + 2) ∷ "/30" ∷ [])),
  )
]

unfoldable pub group_v6 : ℕ → Option String
group_v6 userid =
    if ltb userid 256
    then some (fmt ("b0" ∷ hex userid ∷ []))
    else if ltb userid 4096
    then some (fmt ("b" ∷ hex userid ∷ []))
    else none

unfoldable pub vxlan_default_v6 : ℕ → Option String × Option String
unfolding group_v6
vxlan_default_v6 userid = elim (group_v6 userid) [
  | none ↦ (none, none)
  | some group ↦
      (some (fmt ("fd00::" ∷ group ∷ ":1/126" ∷ [])), some (fmt ("fd00::" ∷ group ∷ ":2/126" ∷ [])))
]

-- The /30 of different user ids do not overlap, and each lies in one of the two pools.
pub slice_v4_disjoint :
    (a b : ℕ) {m n : ℕ}
    → a ≢ b
    → slice_v4 a ≡ some m
    → slice_v4 b ≡ some n
    → ((m + 4 ≤ n) ⊎ (n + 4 ≤ m))
      × (((legacy_ip ≤ m) × (m + 4 ≤ legacy_ip + 256)) ⊎ ((ext_ip ≤ m) × (m + 4 ≤ ext_ip + 4096)))
unfolding slice_v4
slice_v4_disjoint a b d h k = (ground arith, ground arith)

-- A user id has a /30 exactly if it is below 1088.
pub slice_v4_total : (userid : ℕ) → is_some (slice_v4 userid) ≡ ltb userid 1088
unfolding slice_v4
slice_v4_total userid = ground arith

group_examples :
    (group_v6 5 ≡ some "b05") × (group_v6 255 ≡ some "b0ff") × (group_v6 256 ≡ some "b100")
unfolding group_v6 hex
group_examples = (refl, refl, refl)
