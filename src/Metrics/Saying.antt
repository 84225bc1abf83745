-- ===== src/Metrics/Saying.antt =====
-- The admin file that _auto_set_enabled writes says what was set, and _auto_cfg reads it there.
use openmptcprouter_vps.Config.{has_entries}
use openmptcprouter_vps.Dict.{insert, lookup-insert_self}
use openmptcprouter_vps.Exec.{ok, ok_inj}
use openmptcprouter_vps.Exec.Yields.{Gives, Gives-ok, anything}
use openmptcprouter_vps.Metrics.Json.{
  Json, array, boolean, content, get_or_empty, integer, is_true, no_file, null, object, quoted,
  real, unreadable,
}
use openmptcprouter_vps.Metrics.Learning.{Platform, sanitised}
use openmptcprouter_vps.Metrics.Ranges.{Gives-and_then}
use openmptcprouter_vps.Metrics.Settings.{AdminFile, Block, auto_block, bool_at, get}
use openmptcprouter_vps.Metrics.Toggle.{with_block, with_enabled, with_root}
use openmptcprouter_vps.Prelude.{
  Bool, List, String, [], arith, refl, some, some_inj, subst, sym, true, ◌∙◌, ◌∷◌, ◌≡◌,
}

has_entries-insert :
    {A : Type 0} (key : String) (a : A) (d : List (String × A))
    → has_entries (insert key a d) ≡ true
unfolding insert
has_entries-insert key a [] = refl
has_entries-insert key a ((other, b) ∷ d) = ground arith

is_true-insert :
    {A : Type 0} (key : String) (a : A) (d : List (String × A))
    → is_true (object (insert key a d)) ≡ true
unfolding is_true
is_true-insert key a d = has_entries-insert key a d

module _ {Deep : Type 0} (enabled : Bool) where
  -- A block that says so.
  abbrev pub Says : Block Deep → Type 0
  Says block = (default : Bool) → bool_at block "enabled" default ≡ ok enabled

  Says-insert :
      (block : List (String × Json Deep)) → Says (object (insert "enabled" (boolean enabled) block))
  unfolding bool_at get is_true
  Says-insert block default = rw lookup-insert_self refl

  get_or_empty-insert :
      (block : List (String × Json Deep)) (members : List (String × Block Deep))
      → get_or_empty "auto_learning"
          (insert "auto_learning" (object (insert "enabled" (boolean enabled) block)) members)
        ≡ object (insert "enabled" (boolean enabled) block)
  unfolding get_or_empty
  get_or_empty-insert block members =
      rw (lookup-insert_self, get_or_empty)
        (rw (is_true-insert "enabled" (boolean enabled) block) refl)

  with_block-Says :
      (members : List (String × Block Deep)) (block : Block Deep) (root : Json (Block Deep))
      → with_block enabled members block ≡ some root
      → Says (auto_block (content root))
  unfolding with_block auto_block
  with_block-Says members (object block) root h =
      subst (λ r. Says (auto_block (content r))) (some_inj h)
        (subst Says (sym (get_or_empty-insert block members)) (Says-insert block))
  with_block-Says members null root h = cc
  with_block-Says members (boolean b) root h = cc
  with_block-Says members (integer z) root h = cc
  with_block-Says members (real x) root h = cc
  with_block-Says members (quoted s) root h = cc
  with_block-Says members (array s) root h = cc

  with_root-Says :
      (old root : Json (Block Deep))
      → with_root enabled old ≡ some root
      → Says (auto_block (content root))
  unfolding with_root
  with_root-Says (object members) root h = with_block-Says members _ root h
  with_root-Says null root h = cc
  with_root-Says (boolean b) root h = cc
  with_root-Says (integer z) root h = cc
  with_root-Says (real x) root h = cc
  with_root-Says (quoted s) root h = cc
  with_root-Says (array s) root h = cc

  pub with_enabled-Says :
      (file : AdminFile Deep) (root : Json (Block Deep))
      → with_enabled enabled file ≡ some root
      → Says (auto_block (content root))
  unfolding with_enabled
  with_enabled-Says no_file root h = with_root-Says (object []) root h
  with_enabled-Says unreadable root h = cc
  with_enabled-Says (content old) root h = with_root-Says old root h

  -- Settings made from a block that says so.
  pub sanitised-Says :
      (platform : Platform) (block : Block Deep)
      → Says block
      → Gives (λ cfg. cfg.enabled ≡ enabled) (sanitised platform block)
  unfolding sanitised
  sanitised-Says platform block says =
      Gives-and_then {P = λ b. b ≡ enabled} _ _ (record { result = λ b e. ok_inj (sym e ∙ says _) })
        (λ b e. Gives-and_then _ _ anything (λ interval _.
          Gives-and_then _ _ anything (λ learning_rate _. Gives-and_then _ _ anything (λ window _.
            Gives-and_then _ _ anything (λ min_points _. Gives-and_then _ _ anything (λ sharpen _.
              Gives-and_then _ _ anything (λ exploration _.
                Gives-and_then _ _ anything
                  (λ scale _. Gives-and_then _ _ anything (λ memory _. Gives-ok _ e)))))))))
