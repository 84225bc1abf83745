-- ===== src/Mqvpn/Marks.antt =====
-- The masks that /mqvpn_dscp leaves in the policy, bit by bit.
use openmptcprouter_vps.Dict.{has_key, insert, lookup, lookup-insert}
use openmptcprouter_vps.Dscp.Classes.{dscp_codepoints}
use openmptcprouter_vps.Host.Reply.{User}
use openmptcprouter_vps.Mqvpn.Bits.{bits, bits-cong, set_bit-bits}
use openmptcprouter_vps.Mqvpn.Masks.{MqvpnDscpPin, desired_masks, mask_of, mqvpn_dscp, set_bit}
use openmptcprouter_vps.Mqvpn.Policy.{Field, PathPolicy, dscp_mask, same_field}
use openmptcprouter_vps.Mqvpn.Requests.{mqvpn_dscp-IsSynced}
use openmptcprouter_vps.Mqvpn.Sync.{MqvpnApi, MqvpnState, is_iface, policy_in}
use openmptcprouter_vps.Mqvpn.Views.{HasDistinctPaths, field_at}
use openmptcprouter_vps.Prelude.{
  Bool, List, Option, Option-cases, String, [], ap, arith, false, if◌then◌else◌, inl, inr, is_some,
  ltb, none, refl, some, suc, sym, true, zero, ℕ, ◌&&◌, ◌<◌, ◌==ℕ◌, ◌==◌, ◌||◌, ◌∙◌, ◌∷◌, ◌≡◌, ◌≢◌,
}

-- A class has the codepoint n.
unfoldable pub has_codepoint : String → ℕ → Bool
has_codepoint dscp n = elim (lookup dscp dscp_codepoints) [ none ↦ false | some m ↦ m ==ℕ n ]

-- One of the classes has the codepoint n.
unfoldable pub is_marked : List String → ℕ → Bool
is_marked [] n = false
is_marked (dscp ∷ classes) n = has_codepoint dscp n || is_marked classes n

-- What the mask of an interface is to be: its bit n tells whether a class of the interface's last pin
-- has the codepoint n. Without a pin there is none.
unfoldable pub last_mask : String → List MqvpnDscpPin → Option ℕ
last_mask iface [] = none
last_mask iface (pin ∷ pins) = elim (last_mask iface pins) [
  | some mask ↦ some mask
  | none ↦ if pin.iface == iface then some (bits 64 (is_marked pin.dscp)) else none
]

-- A class name that is in the table.
unfoldable pub all_known : List String → Bool
all_known [] = true
all_known (dscp ∷ classes) = has_key dscp dscp_codepoints && all_known classes

-- Each pin names an interface and known classes.
unfoldable pub all_valid : List MqvpnDscpPin → Bool
all_valid [] = true
all_valid (pin ∷ pins) = is_iface pin.iface && all_known pin.dscp && all_valid pins

unfoldable pub all_under : ℕ → List (String × ℕ) → Bool
all_under w [] = true
all_under w ((name, n) ∷ l) = ltb n w && all_under w l

lookup-all_under :
    (w : ℕ) (name : String) (l : List (String × ℕ)) {n : ℕ}
    → all_under w l ≡ true
    → lookup name l ≡ some n
    → n < w
unfolding lookup all_under
lookup-all_under w name [] {n} h here = absurd (ground arith)
lookup-all_under w name ((other, m) ∷ l) {n} h here =
    ground (arith, lookup-all_under w name l {n = n})

codepoints_under : all_under 64 dscp_codepoints ≡ true
unfolding all_under
codepoints_under = refl

bits-none : (w : ℕ) → bits w (λ n. false) ≡ 0
unfolding bits
bits-none zero = refl
bits-none (suc w) = rw (bits-none w) refl

has_codepoint-lookup :
    (dscp : String) (n j : ℕ)
    → lookup dscp dscp_codepoints ≡ some n
    → has_codepoint dscp j ≡ (n ==ℕ j)
unfolding has_codepoint
has_codepoint-lookup dscp n j here =
    ap (λ (o : Option ℕ). elim o as (λ x. Bool) [ none ↦ false | some m ↦ m ==ℕ j ]) here

mask_of-lookup :
    (dscp : String) (n : ℕ) (classes : List String) (mask : ℕ)
    → lookup dscp dscp_codepoints ≡ some n
    → mask_of (dscp ∷ classes) mask ≡ mask_of classes (set_bit n mask)
unfolding mask_of
mask_of-lookup dscp n classes mask here =
    ap
      (λ (o : Option ℕ). elim o as (λ x. Option ℕ) [
        | none ↦ none
        | some m ↦ mask_of classes (set_bit m mask)
      ])
      here

-- Known classes set the bits of their codepoints.
mask_of-bits :
    (classes : List String) (p : ℕ → Bool)
    → all_known classes ≡ true
    → mask_of classes (bits 64 p) ≡ some (bits 64 (λ n. p n || is_marked classes n))
unfolding mask_of all_known is_marked has_key
mask_of-bits [] p known = ap some (bits-cong 64 _ _ (λ n. ground arith))
mask_of-bits (dscp ∷ classes) p known = elim (Option-cases (lookup dscp dscp_codepoints)) [
  | inl unlisted ↦ absurd (ground arith)
  | inr (n, here) ↦
      let small = lookup-all_under 64 dscp dscp_codepoints codepoints_under here in
      mask_of-lookup dscp n classes (bits 64 p) here
      ∙ (ap (mask_of classes) (set_bit-bits 64 n p small)
          ∙ mask_of-bits classes _ (ground arith)
          ∙ ap some
              (bits-cong 64 _ _ (λ j. rw (has_codepoint-lookup dscp n j here) (ground arith))))
]

mask_of-is_marked :
    (classes : List String)
    → all_known classes ≡ true
    → mask_of classes 0 ≡ some (bits 64 (is_marked classes))
mask_of-is_marked classes known =
    ap (mask_of classes) (sym (bits-none 64)) ∙ mask_of-bits classes (λ n. false) known

or_else : Option ℕ → Option ℕ → Option ℕ
or_else none old = old
or_else (some x) old = some x

-- Valid pins are accepted, and a key of the dict has the mask of its last pin.
desired_masks-last_mask :
    (pins : List MqvpnDscpPin) (m : List (String × ℕ))
    → all_valid pins ≡ true
    → (desired : List (String × ℕ)) × (desired_masks pins m ≡ some desired)
      × ((i : String) → lookup i desired ≡ or_else (last_mask i pins) (lookup i m))
unfolding desired_masks all_valid last_mask or_else
desired_masks-last_mask [] m valid = (m, refl, λ i. refl)
desired_masks-last_mask (pin ∷ pins) m valid =
    let mask = bits 64 (is_marked pin.dscp) in
    let name : is_iface pin.iface ≡ true = ground arith in
    let made = mask_of-is_marked pin.dscp (ground arith) in
    let (desired, accepted, reads) =
      desired_masks-last_mask pins (insert pin.iface mask m) (ground arith) in
    (
      desired,
      rw (name, made) accepted,
      λ i. reads i ∙ ground (arith, lookup-insert pin.iface i mask m),
    )

-- After the request: a path still has one entry, the user's masks are those of the pins, and every other
-- value is the old one.
abbrev pub IsMarked : String → List MqvpnDscpPin → List PathPolicy → List PathPolicy → Type 0
IsMarked u pins before after =
    HasDistinctPaths after
    × ((i : String) → (i == "") ≡ false → field_at dscp_mask u i after ≡ last_mask i pins)
    × ((g : Field) (v j : String)
        → (same_field dscp_mask g && (u == v)) ≡ false
        → field_at g v j after ≡ field_at g v j before)

or_else-none : (o : Option ℕ) → or_else o none ≡ o
unfolding or_else
or_else-none none = refl
or_else-none (some x) = refl

-- For a user who may write, an installed server whose policy has one entry a path at most, and pins with
-- valid interface names and known classes: after /mqvpn_dscp each of the user's interfaces has the mask
-- whose bit n tells whether a class of the interface's last pin has the codepoint n, an interface without
-- a pin has none, and weights and other users' values are as before.
pub mqvpn_dscp-IsMarked :
    (api : MqvpnApi) (user : User) (w : MqvpnState) (pins : List MqvpnDscpPin)
    → user.permissions ≢ "ro"
    → is_some w.server ≡ true
    → HasDistinctPaths (policy_in w)
    → all_valid pins ≡ true
    → IsMarked user.username pins (policy_in w) (policy_in (mqvpn_dscp api user pins w).1)
unfolding lookup last_mask
mqvpn_dscp-IsMarked api user w pins may installed distinct valid =
    let (desired, accepted, reads) = desired_masks-last_mask pins [] valid in
    let (distinct', masks, others) =
      mqvpn_dscp-IsSynced api user w may installed distinct pins accepted in
    (distinct', λ i named. masks i named ∙ reads i ∙ or_else-none (last_mask i pins), others)
