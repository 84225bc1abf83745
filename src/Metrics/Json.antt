-- ===== src/Metrics/Json.antt =====
-- What json.load gives. `Inner` is the type of the values in a list or dict, so a type says how deep the
-- modelled code looks; what lies below is passed on.
use openmptcprouter_vps.Config.{has_entries}
use openmptcprouter_vps.Dict.{lookup}
use openmptcprouter_vps.Metrics.Floats.{Float, finite}
use openmptcprouter_vps.Prelude.{
  Bool, List, Option, String, [], false, if◌then◌else◌, negsuc, none, not, pos, some, true, ℤ,
  ◌==ℕ◌, ◌==◌,
}

pub data Json (Inner : Type 0) : Type 0 where
  null : Json Inner
  boolean : Bool → Json Inner
  integer : ℤ → Json Inner
  real : Float → Json Inner
  quoted : String → Json Inner
  array : List Inner → Json Inner
  object : List (String × Inner) → Json Inner

abbrev pub is_nonzero : ℤ → Bool
is_nonzero (pos n) = not (n ==ℕ 0)
is_nonzero (negsuc n) = true

-- A file that is not there, that cannot be read or content, or with this content.
pub data JsonFile (Content : Type 0) : Type 0 where
  no_file unreadable : JsonFile Content
  content : Content → JsonFile Content

module _ {Inner : Type 0} where
  -- bool(value)
  unfoldable pub is_true : Json Inner → Bool
  is_true null = false
  is_true (boolean b) = b
  is_true (integer z) = is_nonzero z
  is_true (real (finite z)) = is_nonzero z
  is_true (real _) = true
  is_true (quoted s) = not (s == "")
  is_true (array items) = has_entries items
  is_true (object members) = has_entries members

  -- The dict, if it is one.
  abbrev pub members_of : Json Inner → Option (List (String × Inner))
  members_of (object members) = some members
  members_of _ = none

-- d.get(key) or {}
unfoldable pub get_or_empty : {Inner : Type 0} → String → List (String × Json Inner) → Json Inner
get_or_empty key members = elim (lookup key members) [
  | none ↦ object []
  | some value ↦ if is_true value then value else object []
]
