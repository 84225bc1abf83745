-- ===== src/Mptcp/Distinct.antt =====
-- The settings that /mptcp writes are different ones: no write undoes an earlier one.
use Prim.Native.Char.{code}
use openmptcprouter_vps.Dict.{keys}
use openmptcprouter_vps.Mptcp.Applying.{IsDistinct}
use openmptcprouter_vps.Mptcp.Names.{is_in}
use openmptcprouter_vps.Mptcp.Request.{
  MptcpHost, MptcpParams, cc_key, mptcp_values, offered, v0_values, v1_options, v1_values,
}
use openmptcprouter_vps.Mptcp.Runs.{all_settings, parameter_values}
use openmptcprouter_vps.Prelude.{
  Bool, Bool-cases, List, Option, String, String_discrete, [], all, ap, arith, contains, false, fmt,
  holds_self, if◌then◌else◌, inl, inr, map, none, not, of_holds, refl, some, true, ℕ, ◌&&◌, ◌++◌,
  ◌==ℕ◌, ◌==◌, ◌||◌, ◌∷◌, ◌≡◌,
}

-- A key that begins with a slash.
unfoldable pub is_absolute : String → Bool
is_absolute String.[] = false
is_absolute (String.◌∷◌ c s) = code c ==ℕ 47

absent_path :
    (key : String) (ks : List String)
    → all is_absolute ks ≡ true
    → is_absolute key ≡ false
    → is_in key ks ≡ false
unfolding all contains
absent_path key [] h n = refl
absent_path key (k ∷ ks) h n = elim (String_discrete k key) [
  | yes e ↦ absurd (ground (arith, h, n, e))
  | no d ↦ ground (arith, h, d, absent_path key ks (ground (arith, h)) n)
]

is_in-append :
    (key : String) (xs ys : List String) → is_in key (xs ++ ys) ≡ (is_in key xs || is_in key ys)
unfolding contains
is_in-append key [] ys = refl
is_in-append key (x ∷ xs) ys = ground (arith, is_in-append key xs ys)

keys-append : (xs ys : List (String × String)) → keys (xs ++ ys) ≡ keys xs ++ keys ys
keys-append [] ys = refl
keys-append (x ∷ xs) ys = ap (λ l. x.0 ∷ l) (keys-append xs ys)

path_ne : (a b : String) → is_absolute a ≡ false → is_absolute b ≡ true → (a == b) ≡ false
path_ne a b p q = elim (Bool-cases (a == b)) [
  | inr n ↦ n
  | inl y ↦ absurd (ground (arith, p, q, of_holds (String_discrete a b) y))
]

last_ne : (a b : String) → (b == a) ≡ false → (a == b) ≡ false
last_ne a b n = elim (Bool-cases (a == b)) [
  | inr other ↦ other
  | inl y ↦
      absurd (ground (arith, n, of_holds (String_discrete a b) y, holds_self (String_discrete a a)))
]

-- Sysctl keys, then paths, then one more sysctl key.
apart :
    (xs ps : List String) (last : String)
    → IsDistinct xs
    → IsDistinct ps
    → all (λ k. not (is_absolute k)) xs ≡ true
    → all is_absolute ps ≡ true
    → is_in last xs ≡ false
    → is_absolute last ≡ false
    → IsDistinct (xs ++ (ps ++ last ∷ []))
unfolding all contains
apart [] [] last d e h g n m = (refl, tt)
apart [] (p ∷ ps) last d e h g n m = (
  rw is_in-append (ground (arith, e.0, path_ne last p m (ground (arith, g)))),
  apart [] ps last tt e.1 refl (ground (arith, g)) refl m,
)
apart (x ∷ xs) ps last d e h g n m = (
  rw (is_in-append, is_in-append)
      (ground
        (arith, d.0, absent_path x ps g (ground (arith, h)), last_ne last x (ground (arith, n)))),
  apart xs ps last d.1 e (ground (arith, h)) g (ground (arith, n)) m,
)

-- The key of an option.
abbrev option_key : String × String × Bool → String
option_key o = fmt ("net.mptcp." ∷ o.0 ∷ [])

absent-offered :
    (host : MptcpHost) (key : String) (options : List (String × String × Bool))
    → is_in key (map option_key options) ≡ false
    → is_in key (keys (offered host options)) ≡ false
unfolding offered contains
absent-offered host key [] h = refl
absent-offered host key ((name, value, truthy) ∷ rest) h =
    elim (Bool-cases (truthy && host.has_option name)) [
      | inl given_one ↦ rw given_one (ground (arith, h, absent-offered host key rest))
      | inr left_out ↦ rw left_out (absent-offered host key rest (ground (arith, h)))
    ]

offered-IsDistinct :
    (host : MptcpHost) (options : List (String × String × Bool))
    → IsDistinct (map option_key options)
    → IsDistinct (keys (offered host options))
unfolding offered
offered-IsDistinct host [] d = tt
offered-IsDistinct host ((name, value, truthy) ∷ rest) d =
    elim (Bool-cases (truthy && host.has_option name)) [
      | inl given_one ↦
          rw given_one (absent-offered host _ rest d.0, offered-IsDistinct host rest d.1)
      | inr left_out ↦ rw left_out (offered-IsDistinct host rest d.1)
    ]

offered_plain :
    (host : MptcpHost) (options : List (String × String × Bool))
    → all (λ k. not (is_absolute k)) (map option_key options) ≡ true
    → all (λ k. not (is_absolute k)) (keys (offered host options)) ≡ true
unfolding offered all
offered_plain host [] h = refl
offered_plain host ((name, value, truthy) ∷ rest) h =
    elim (Bool-cases (truthy && host.has_option name)) [
      | inl given_one ↦ rw given_one (ground (arith, h, offered_plain host rest))
      | inr left_out ↦ rw left_out (offered_plain host rest (ground (arith, h)))
    ]

-- The keys of both kinds of settings are different ones, no paths, and not the congestion control's.
pub record IsPlain (values : List (String × String)) : Type 0 where
  pub distinct : IsDistinct (keys values)
  pub plain : all (λ k. not (is_absolute k)) (keys values) ≡ true
  pub no_cc : is_in cc_key (keys values) ≡ false

v0_values-IsPlain : (host : MptcpHost) (p : MptcpParams) → IsPlain (v0_values host p)
unfolding v0_values contains String_discrete all is_absolute
v0_values-IsPlain host p = record {
  distinct = (refl, (refl, (refl, (refl, (refl, tt)))));
  plain = refl;
  no_cc = refl;
}

v1_values-IsPlain : (host : MptcpHost) (p : MptcpParams) → IsPlain (v1_values host p)
unfolding v1_values v1_options contains String_discrete all is_absolute
v1_values-IsPlain host p = record {
  distinct = (
    absent-offered host "net.mptcp.checksum_enabled" (v1_options host p) refl,
    offered-IsDistinct host (v1_options host p)
        (refl, (refl, (refl, (refl, (refl, (refl, (refl, tt))))))),
  );
  plain = offered_plain host (v1_options host p) refl;
  no_cc = absent-offered host cc_key (v1_options host p) refl;
}

pub mptcp_values-IsPlain : (host : MptcpHost) (p : MptcpParams) → IsPlain (mptcp_values host p)
unfolding mptcp_values
mptcp_values-IsPlain host p =
    elim host.is_v0 as (λ b. IsPlain (if b then v0_values host p else v1_values host p)) [
      | true ↦ v0_values-IsPlain host p
      | false ↦ v1_values-IsPlain host p
    ]

parameter_keys :
    (n : ℕ) (parameters : List String) → keys (parameter_values (some n) parameters) ≡ parameters
parameter_keys n [] = refl
parameter_keys n (k ∷ ks) = ap (λ l. k ∷ l) (parameter_keys n ks)

parameter_values-IsDistinct :
    (aggressiveness : Option ℕ) (parameters : List String)
    → IsDistinct parameters
    → all is_absolute parameters ≡ true
    → IsDistinct (keys (parameter_values aggressiveness parameters))
      × (all is_absolute (keys (parameter_values aggressiveness parameters)) ≡ true)
unfolding all
parameter_values-IsDistinct none parameters d h = (tt, refl)
parameter_values-IsDistinct (some n) parameters d h = rw parameter_keys (d, h)

-- So all that a transaction sets are different settings.
pub all_settings-IsDistinct :
    (host : MptcpHost) (p : MptcpParams) (control : String) (parameters : List String)
    → IsDistinct parameters
    → all is_absolute parameters ≡ true
    → IsDistinct
        (keys (all_settings (mptcp_values host p) control p.nanbbr_aggressiveness parameters))
unfolding is_absolute
all_settings-IsDistinct host p control parameters d h =
    let v = mptcp_values-IsPlain host p in
    let (e, g) = parameter_values-IsDistinct p.nanbbr_aggressiveness parameters d h in
    rw (keys-append, keys-append) (apart _ _ cc_key v.distinct e v.plain g v.no_cc refl)
