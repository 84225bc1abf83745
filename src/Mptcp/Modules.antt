-- ===== src/Mptcp/Modules.antt =====
-- The modules that /mptcp loads before its transaction, and the files of their parameters.
use mathlib.Core.Option
use openmptcprouter_vps.Config.{has_entries}
use openmptcprouter_vps.Exec.{Result, ok, ◌>>=◌}
use openmptcprouter_vps.Mptcp.Applying.{IsDistinct}
use openmptcprouter_vps.Mptcp.Distinct.{is_absolute}
use openmptcprouter_vps.Mptcp.Endpoint.{ensure_parameters, nanbbr_parameters}
use openmptcprouter_vps.Mptcp.Kernel.{Settings}
use openmptcprouter_vps.Mptcp.Names.{is_in}
use openmptcprouter_vps.Mptcp.Request.{MptcpHost, nanbbr_var_modules, parameter_path}
use openmptcprouter_vps.Prelude.{
  Bool-cases, List, Option, Option-cases, String, String_discrete, [], all, ap, arith, contains,
  false, if◌then◌else◌, inl, inr, map, none, refl, some, some_inj, sym, true, ℕ, ◌==◌, ◌∙◌, ◌∷◌,
  ◌≡◌,
}

-- The settings and both files are the same; modules and services may be other ones.
pub record SameState (s h : Settings) : Type 0 where
  pub values : h.values ≡ s.values
  pub conf : h.conf ≡ s.conf
  pub nanbbr_conf : h.nanbbr_conf ≡ s.nanbbr_conf

pub SameState-refl : (s : Settings) → SameState s s
SameState-refl s = record { values = refl; conf = refl; nanbbr_conf = refl }

abbrev module_paths : List (String × String) → List String
module_paths = map (λ e. parameter_path e.1)

-- Some of the paths, each once.
pub record ArePaths (within ps : List String) : Type 0 where
  pub absent : (key : String) → is_in key within ≡ false → is_in key ps ≡ false
  pub distinct : IsDistinct ps
  pub paths : all is_absolute ps ≡ true

-- What ensure_parameters answers, and that it only loads modules.
pub record Ensured (within : List String) (s : Settings)
    (out : Result (Option (List String)) × Settings) : Type 0 where
  pub answer : Option (List String)
  pub returned : out.0 ≡ ok answer
  pub same : SameState s out.1
  pub found_paths : (ps : List String) → answer ≡ some ps → ArePaths within ps

-- The same answer, with one more path that is passed over.
widened :
    {x : String} {within mods : List String} {s : Settings}
    {out : Result (Option (List String)) × Settings}
    → Ensured within (record s { modprobed = mods }) out
    → Ensured (x ∷ within) s out
unfolding contains
widened e = record {
  answer = e.answer;
  returned = e.returned;
  same = record { values = e.same.values; conf = e.same.conf; nanbbr_conf = e.same.nanbbr_conf };
  found_paths = λ ps p.
      let q = e.found_paths ps p in
      record {
        absent = λ key n. q.absent key (ground (arith, n));
        distinct = q.distinct;
        paths = q.paths;
      };
}

-- An answer with one more path that is taken.
lengthened :
    {x : String} {within mods : List String} {s : Settings}
    {out : Result (Option (List String)) × Settings}
    (e : Ensured within (record s { modprobed = mods }) out)
    → is_in x within ≡ false
    → is_absolute x ≡ true
    → Ensured (x ∷ within) s (ok (Option.map (λ paths. x ∷ paths) e.answer), out.1)
unfolding contains all
lengthened {x} {within} e n a = record {
  answer = Option.map (λ paths. x ∷ paths) e.answer;
  returned = refl;
  same = record { values = e.same.values; conf = e.same.conf; nanbbr_conf = e.same.nanbbr_conf };
  found_paths = λ ps p. elim (Option-cases e.answer) [
    | inl gone ↦ absurd (ground (arith, p, gone))
    | inr (qs, there) ↦
        let q = e.found_paths qs there in
        let made : x ∷ qs ≡ ps = some_inj (ap (Option.map (λ paths. x ∷ paths)) (sym there) ∙ p) in
        rw (← made) (record {
          absent = λ key k. ground (arith, k, q.absent key);
          distinct = (q.absent x n, q.distinct);
          paths = ground (arith, a, q.paths);
        })
  ];
}

ensure_parameters-Ensured :
    (host : MptcpHost) (control : String) (modules : List (String × String)) (s : Settings)
    → IsDistinct (module_paths modules)
    → all is_absolute (module_paths modules) ≡ true
    → Ensured (module_paths modules) s (ensure_parameters host control modules s)
unfolding ensure_parameters all contains ◌>>=◌
ensure_parameters-Ensured host control [] s d h = record {
  answer = some [];
  returned = refl;
  same = SameState-refl s;
  found_paths =
      λ ps e. rw (← some_inj e) (record { absent = λ key n. refl; distinct = tt; paths = refl });
}
ensure_parameters-Ensured host control ((name, m) ∷ rest) s d h =
    let s1 : Settings = record s { modprobed = m ∷ s.modprobed } in
    let more = ensure_parameters-Ensured host control rest s1 d.1 (ground (arith, h)) in
    elim (Bool-cases (host.is_ready s1.modprobed (parameter_path m))) [
      | inr unready ↦ elim (Bool-cases (name == control)) [
        | inl wanted ↦
            rw (unready, wanted)
              (record {
                answer = none;
                returned = refl;
                same = record { values = refl; conf = refl; nanbbr_conf = refl };
                found_paths = λ ps e. cc;
              })
        | inr other ↦ rw (unready, other) (widened more)
      ]
      | inl is_there ↦ rw (is_there, more.returned) (lengthened more d.0 (ground (arith, h)))
    ]

nanbbr_modules-Ensured :
    (host : MptcpHost) (control : String) (s : Settings)
    → Ensured
        (module_paths nanbbr_var_modules)
        s
        (ensure_parameters host control nanbbr_var_modules s)
unfolding parameter_path contains String_discrete all is_absolute
nanbbr_modules-Ensured host control s =
    ensure_parameters-Ensured host control nanbbr_var_modules s (refl, (refl, (refl, tt))) refl

-- So too for the whole step: the parameters that it answers are different files.
pub nanbbr_parameters_lem :
    (host : MptcpHost) (control : String) (aggressiveness : Option ℕ) (s : Settings)
    → (answer : Option (List String)) × ((nanbbr_parameters host control aggressiveness s).0
        ≡ ok answer)
      × SameState s (nanbbr_parameters host control aggressiveness s).1
      × ((ps : List String) → answer ≡ some ps → IsDistinct ps × (all is_absolute ps ≡ true))
unfolding nanbbr_parameters ◌>>=◌ all
nanbbr_parameters_lem host control none s =
    (some [], refl, SameState-refl s, λ ps e. rw (← some_inj e) (tt, refl))
nanbbr_parameters_lem host control (some n) s =
    let e = nanbbr_modules-Ensured host control s in
    elim (Option-cases e.answer) [
      | inl gone ↦ rw (e.returned, gone) (none, refl, e.same, λ ps p. cc)
      | inr (qs, there) ↦
          let q = e.found_paths qs there in
          rw (e.returned, there)
            (
              (if has_entries qs then some qs else none),
              refl,
              e.same,
              λ ps p. let made : qs ≡ ps = ground (arith, p) in rw (← made) (q.distinct, q.paths),
            )
    ]
