-- ===== src/Metrics/Settings.antt =====
-- _auto_cfg without its cache: the block auto_learning of omr-admin-config.json, sanitised.
use Prim.Native.Char.{code}
use openmptcprouter_vps.Dict.{lookup}
use openmptcprouter_vps.Exec.{Result, attribute_error, bind, ok, raised, type_error, value_error}
use openmptcprouter_vps.Metrics.Floats.{
  Float, clamp_float, clamp_int, dyadic, float_of_int, int_of_float,
}
use openmptcprouter_vps.Metrics.Json.{
  Json, JsonFile, boolean, content, get_or_empty, integer, is_true, object, quoted, real,
}
use openmptcprouter_vps.Mptcp.Persisted.{strip}
use openmptcprouter_vps.Prelude.{
  Bool, Option, String, [], false, if◌then◌else◌, leb, none, pos, some, true, ℕ, ℤ, ◌&&◌, ◌+◌,
  ◌==ℕ◌, ◌||◌,
}
use openmptcprouter_vps.V2ray.Numbers.{parse_int}

-- omr-admin-config.json, and the value of a key of it.
abbrev pub Block : Type 0 → Type 0
Block Deep = Json (Json Deep)

abbrev pub AdminFile : Type 0 → Type 0
AdminFile Deep = JsonFile (Json (Block Deep))

pub record AutoCfg : Type 0 where
  pub enabled : Bool
  pub interval : ℤ
  pub learning_rate : Float
  pub window : ℤ
  pub min_points : ℤ
  pub sharpen : Float
  pub exploration : Float
  pub exploration_scale : Float
  pub min_available_mb : ℤ

-- _AUTO_DEFAULTS; the fractions are the doubles nearest to 1e-4 and 0.15.
unfoldable pub auto_defaults : AutoCfg
unfolding dyadic
auto_defaults = record {
  enabled = true;
  interval = pos 300;
  learning_rate = dyadic 7378697629483821 66;
  window = pos 900;
  min_points = pos 5;
  sharpen = dyadic 4 0;
  exploration = dyadic 0 0;
  exploration_scale = dyadic 5404319552844595 55;
  min_available_mb = pos 512;
}

lower_code : ℕ → ℕ
lower_code c = if leb 65 c && leb c 90 then c + 32 else c

-- text.lower() == word, for a word of small letters and digits
lowers_to : String → String → Bool
unfolding lower_code
lowers_to String.[] String.[] = true
lowers_to (String.◌∷◌ c s) (String.◌∷◌ d t) = (lower_code (code c) ==ℕ code d) && lowers_to s t
lowers_to _ _ = false

means_yes : String → Bool
unfolding lowers_to
means_yes s = lowers_to s "1" || lowers_to s "true" || lowers_to s "yes" || lowers_to s "on"

-- except (TypeError, ValueError): return the default
abbrev pub or_default : {A : Type 0} → A → Result A → Result A
or_default default (ok a) = ok a
or_default default (raised type_error) = ok default
or_default default (raised value_error) = ok default
or_default default (raised e) = raised e

module _ {Deep : Type 0} where
  -- int(value)
  unfoldable pub cast_int : Json Deep → Result ℤ
  unfolding int_of_float parse_int
  cast_int (boolean b) = ok (if b then pos 1 else pos 0)
  cast_int (integer z) = ok z
  cast_int (real x) = int_of_float x
  cast_int (quoted s) = elim (parse_int s) [ none ↦ raised value_error | some z ↦ ok z ]
  cast_int _ = raised type_error

  -- float(value); `float_text` is float() of a text.
  unfoldable pub cast_float : (String → Option Float) → Json Deep → Result Float
  unfolding float_of_int
  cast_float float_text (boolean b) = float_of_int (if b then pos 1 else pos 0)
  cast_float float_text (integer z) = float_of_int z
  cast_float float_text (real x) = ok x
  cast_float float_text (quoted s) = elim (float_text s) [
    | none ↦ raised value_error
    | some x ↦ ok x
  ]
  cast_float float_text _ = raised type_error

  -- raw.get(key): a value that is no dict has no `get`.
  unfoldable pub get : Block Deep → String → Result (Option (Json Deep))
  unfolding lookup
  get (object members) key = ok (lookup key members)
  get _ key = raised attribute_error

  -- _bool. The default is a bool.
  unfoldable pub bool_at : Block Deep → String → Bool → Result Bool
  unfolding get means_yes strip is_true
  bool_at raw key default = bind (get raw key) (λ found. elim found [
    | none ↦ ok default
    | some (quoted s) ↦ ok (means_yes (strip s))
    | some value ↦ ok (is_true value)
  ])

  -- _num with cast=int and with cast=float. The defaults lie in their ranges.
  unfoldable pub int_at : Block Deep → String → ℤ → ℤ → ℤ → Result ℤ
  unfolding get
  int_at raw key lo hi default = bind (get raw key) (λ found. or_default default (
      bind (elim found [ none ↦ ok default | some value ↦ cast_int value ])
        (λ z. ok (clamp_int lo hi z))))

  unfoldable pub float_at :
      (String → Option Float) → Block Deep → String → Float → Float → Float → Result Float
  unfolding get
  float_at float_text raw key lo hi default = bind (get raw key) (λ found. or_default default (
      bind (elim found [ none ↦ ok default | some value ↦ cast_float float_text value ])
        (λ x. ok (clamp_float lo hi x))))

  -- json.load(f).get('auto_learning') or {}, and {} on any exception
  unfoldable pub auto_block : AdminFile Deep → Block Deep
  unfolding get_or_empty
  auto_block (content (object members)) = get_or_empty "auto_learning" members
  auto_block _ = object []
