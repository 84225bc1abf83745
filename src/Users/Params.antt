-- ===== src/Users/Params.antt =====
-- What set_global_param does to the configuration.
use openmptcprouter_vps.Config.{Config, Param, has_entries, is_truthy}
use openmptcprouter_vps.Dict.{insert, insert-lookup, lookup, lookup-insert_self}
use openmptcprouter_vps.Exec.{ok, ◌>>=◌}
use openmptcprouter_vps.Host.{World}
use openmptcprouter_vps.Host.Store.{backup_config, dump_config, read_omr_config, readable}
use openmptcprouter_vps.Prelude.{List, String, [], arith, refl, some, true, ◌∷◌, ◌≡◌}
use openmptcprouter_vps.Users.Changes.{set_global_param, set_param}

-- The configuration with a global parameter set.
abbrev pub with_param : String → Param → Config → Config
with_param key value c = record c { globals = insert key value c.globals }

module _ (key : String) (value : Param) (w : World) {c : Config}
    (reads : readable w.config ≡ some c) (full : is_truthy c ≡ true) where
  -- On a readable file that is not empty, set_global_param succeeds, and the file then reads as the
  -- configuration with the parameter set: the new value under the key, everything else as before.
  pub set_global_param_writes :
      ((set_global_param key value w).0 ≡ ok tt)
      × (readable (set_global_param key value w).1.config ≡ some (with_param key value c))
  unfolding ◌>>=◌ set_global_param set_param read_omr_config backup_config dump_config
  set_global_param_writes = ground (arith, insert-lookup key value c.globals)

  -- A value that is there already is not written again: the host is left alone.
  pub set_global_param_unchanged :
      lookup key c.globals ≡ some value → set_global_param key value w ≡ (ok tt, w)
  unfolding ◌>>=◌ set_global_param set_param read_omr_config
  set_global_param_unchanged h = ground arith

has_entries-insert :
    (key : String) (value : Param) (m : List (String × Param))
    → has_entries (insert key value m) ≡ true
unfolding insert
has_entries-insert key value [] = refl
has_entries-insert key value ((j, v) ∷ m) = ground arith

pub is_truthy-with_param :
    (key : String) (value : Param) (c : Config) → is_truthy (with_param key value c) ≡ true
is_truthy-with_param key value c = ground (arith, has_entries-insert key value c.globals)

-- On a readable file that is not empty, a second set_global_param with the same value changes nothing
-- on the host: no write and no backup.
pub set_global_param_idem :
    (key : String) (value : Param) (w : World) {c : Config}
    → readable w.config ≡ some c
    → is_truthy c ≡ true
    → set_global_param key value (set_global_param key value w).1
      ≡ (ok tt, (set_global_param key value w).1)
set_global_param_idem key value w {c} reads full =
    set_global_param_unchanged key value (set_global_param key value w).1
      (set_global_param_writes key value w reads full).1 (is_truthy-with_param key value c)
      (lookup-insert_self key value c.globals)
