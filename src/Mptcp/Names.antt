-- ===== src/Mptcp/Names.antt =====
-- _available_mptcp_bpf_schedulers, normalize_mptcp_scheduler and normalize_mptcp_path_manager.
use Prim.Native.Char.{code}
use openmptcprouter_vps.Config.{get_or, has_entries}
use openmptcprouter_vps.Dict.{insert, lookup}
use openmptcprouter_vps.Prelude.{
  Bool, Bool-cases, List, Option, String, String_discrete, [], arith, contains, false,
  if◌then◌else◌, inl, inr, none, not, refl, some, subst, sym, true, ◌&&◌, ◌==ℕ◌, ◌==◌, ◌||◌, ◌∷◌,
  ◌≡◌, ◌⊎◌,
}

-- fname[:-2] of a name that ends in '.o'
unfoldable pub object_stem : String → Option String
object_stem String.[] = none
object_stem (String.◌∷◌ c s) =
    let rest = object_stem s in
    if String.◌∷◌ c s == ".o"
    then some ""
    else elim rest [ none ↦ none | some stem ↦ some (String.◌∷◌ c stem) ]

-- s[len(p):] of a text that starts with p
unfoldable pub strip_prefix : String → String → Option String
strip_prefix String.[] s = some s
strip_prefix (String.◌∷◌ d p) String.[] = none
strip_prefix (String.◌∷◌ d p) (String.◌∷◌ c s) =
    let rest = strip_prefix p s in if code c ==ℕ code d then rest else none

-- The registered name of an object file's stem.
unfoldable pub canonical_name : String → String
canonical_name stem = get_or (strip_prefix "mptcp_" stem) stem

-- The dict from stems to registered names. The directory's names are given; none if it cannot be read.
unfoldable pub available_schedulers :
    Option (List String) → List (String × String) → List (String × String)
available_schedulers none available = available
available_schedulers (some []) available = available
available_schedulers (some (fname ∷ fnames)) available =
    available_schedulers (some fnames) (elim (object_stem fname) [
      | none ↦ available
      | some stem ↦ insert stem (canonical_name stem) available
    ])

unfoldable pub normalize_mptcp_scheduler : Option (List String) → String → String
normalize_mptcp_scheduler fnames scheduler =
    if scheduler == ""
    then scheduler
    else elim (lookup scheduler (available_schedulers fnames [])) [
      | none ↦ scheduler
      | some canonical ↦ if canonical == "" then scheduler else canonical
    ]

abbrev pub v0_path_managers : List String
v0_path_managers = "default" ∷ "fullmesh" ∷ "ndiffports" ∷ "binder" ∷ "netlink" ∷ []

abbrev pub is_in : String → List String → Bool
is_in s l = contains String_discrete s l

-- `available` are the names that the kernel advertises.
unfoldable pub normalize_mptcp_path_manager : List String → String → String
normalize_mptcp_path_manager available path_manager =
    if path_manager == ""
    then path_manager
    else if not (has_entries available) || is_in path_manager available
    then path_manager
    else if is_in path_manager v0_path_managers && is_in "kernel" available
    then "kernel"
    else path_manager

v0_names : is_in "kernel" v0_path_managers ≡ false
unfolding contains String_discrete
v0_names = refl

-- Either a name is kept, or it becomes kernel, which is then a name that the kernel advertises, while the
-- name itself is not.
pub path_manager_cases :
    (available : List String) (name : String)
    → (normalize_mptcp_path_manager available name ≡ name)
      ⊎ ((normalize_mptcp_path_manager available name ≡ "kernel")
          × (is_in "kernel" available ≡ true)
          × (is_in name available ≡ false))
unfolding normalize_mptcp_path_manager
path_manager_cases available name = ground arith

pub kernel_stays :
    (available : List String) → normalize_mptcp_path_manager available "kernel" ≡ "kernel"
unfolding normalize_mptcp_path_manager
kernel_stays available = ground (arith, v0_names)

red_scheduler :
    normalize_mptcp_scheduler (some ("mptcp_bpf_red.o" ∷ "README" ∷ [])) "mptcp_bpf_red" ≡ "bpf_red"
unfolding normalize_mptcp_scheduler available_schedulers object_stem canonical_name strip_prefix
    lookup insert String_discrete
red_scheduler = refl

has_entries_of_is_in : (s : String) (l : List String) → is_in s l ≡ true → has_entries l ≡ true
unfolding contains
has_entries_of_is_in s [] h = cc
has_entries_of_is_in s (x ∷ l) h = refl

becomes_kernel :
    (available : List String) (name : String)
    → is_in "kernel" available ≡ true
    → is_in name available ≡ false
    → is_in name v0_path_managers ≡ true
    → (name == "") ≡ false
    → normalize_mptcp_path_manager available name ≡ "kernel"
unfolding normalize_mptcp_path_manager
becomes_kernel available name kernel unknown v0 some_name =
    rw (some_name, has_entries_of_is_in "kernel" available kernel, unknown, v0, kernel) refl

advertised_stays :
    (available : List String) (name : String)
    → is_in name available ≡ true
    → normalize_mptcp_path_manager available name ≡ name
advertised_stays available name known = elim (path_manager_cases available name) [
  | inl kept ↦ kept
  | inr (kernel, advertised, unknown) ↦ absurd (ground (arith, known, unknown))
]

-- On a kernel that advertises kernel, a name that it advertises, or one of the out-of-tree names, becomes
-- a name that it advertises; and on any kernel, normalising twice is normalising once.
pub normalize_mptcp_path_manager_lem :
    (available : List String) (name : String)
    → (is_in "kernel" available ≡ true
        → (is_in name available || is_in name v0_path_managers) ≡ true
        → (name == "") ≡ false
        → is_in (normalize_mptcp_path_manager available name) available ≡ true)
      × (normalize_mptcp_path_manager available (normalize_mptcp_path_manager available name)
          ≡ normalize_mptcp_path_manager available name)
normalize_mptcp_path_manager_lem available name = (
  λ kernel known some_name. elim (Bool-cases (is_in name available)) [
    | inl here ↦
        subst (λ z. is_in z available ≡ true) (sym (advertised_stays available name here)) here
    | inr there ↦
        subst (λ z. is_in z available ≡ true)
          (sym (becomes_kernel available name kernel there (rw there at known) some_name)) kernel
  ],
  ground (arith, path_manager_cases available name, kernel_stays available),
)
