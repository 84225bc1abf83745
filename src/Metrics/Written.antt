-- ===== src/Metrics/Written.antt =====
-- What write_interface of the JSON backend does to the stored data.
use openmptcprouter_vps.Config.{get_or}
use openmptcprouter_vps.Dict.{insert, lookup, lookup-insert_ne}
use openmptcprouter_vps.Exec.{Result, attribute_error, ok, pure, raised, ◌>>=◌}
use openmptcprouter_vps.Metrics.Json.{
  Json, array, boolean, content, integer, members_of, null, object, quoted, real,
}
use openmptcprouter_vps.Metrics.Store.{
  InterfaceMetrics, MetricsData, MetricsStore, data_of, put_data, put_payload, read_all_metrics,
  read_user, with_payload, write_interface,
}
use openmptcprouter_vps.Prelude.{
  Bool, List, Option, Option-cases, String, [], ap, false, if◌then◌else◌, inl, inr, none, refl,
  some, some_inj, subst, sym, true, ℕ, ◌+◌, ◌∙◌, ◌≡◌, ◌≢◌,
}

module _ {Rest : Type 0} where
  -- What read_user gives on the data.
  unfoldable pub user_of :
      String
      → Option (List (String × Json (InterfaceMetrics Rest)))
      → Result (Json (InterfaceMetrics Rest))
  user_of name none = raised attribute_error
  user_of name (some members) = ok (get_or (lookup name members) (object []))

  pub read_user_value :
      (name : String) (s : MetricsStore Rest)
      → (read_user name s).0 ≡ user_of name (members_of (data_of s.file))
  unfolding read_user read_all_metrics user_of ◌>>=◌
  read_user_value name s = elim (Option-cases (members_of (data_of s.file))) [
    | inl h ↦ simp h
    | inr (m, h) ↦ simp h
  ]

  -- The outcome of an attempt to write.
  abbrev pub outcome : Bool → MetricsData Rest → MetricsStore Rest → Result Bool × MetricsStore Rest
  outcome true root s = (ok true, record s { file = content root; attempts = s.attempts + 1 })
  outcome false root s = (ok false, record s { attempts = s.attempts + 1 })

  put_if :
      (saves : ℕ → Bool) (b : Bool) (root : MetricsData Rest) (s : MetricsStore Rest)
      → (if b then put_data saves root else pure false) (record s { attempts = s.attempts + 1 })
        ≡ outcome b root s
  unfolding put_data ◌>>=◌
  put_if saves true root s = refl
  put_if saves false root s = refl

  module _ (saves : ℕ → Bool) (name : String) (payload : InterfaceMetrics Rest)
      (s : MetricsStore Rest) where
    write_raised : members_of (data_of s.file) ≡ none → (write_interface saves name payload s).1 ≡ s
    unfolding write_interface read_all_metrics ◌>>=◌
    write_raised h = simp h

    write_refused :
        (members : List (String × Json (InterfaceMetrics Rest)))
        → members_of (data_of s.file) ≡ some members
        → with_payload name payload members ≡ none
        → (write_interface saves name payload s).1 ≡ s
    unfolding write_interface read_all_metrics ◌>>=◌
    write_refused members h q = simp (h, q)

    pub write_done :
        (members : List (String × Json (InterfaceMetrics Rest))) (root : MetricsData Rest)
        → members_of (data_of s.file) ≡ some members
        → with_payload name payload members ≡ some root
        → write_interface saves name payload s ≡ outcome (saves s.attempts) root s
    unfolding write_interface read_all_metrics put_data ◌>>=◌
    write_done members root h q = simp (h, q) (put_if saves (saves s.attempts) root s)

  pub with_payload-value :
      (name : String) (payload : InterfaceMetrics Rest)
      (stored : List (String × InterfaceMetrics Rest))
      (members : List (String × Json (InterfaceMetrics Rest)))
      → get_or (lookup name members) (object []) ≡ object stored
      → with_payload name payload members
        ≡ some (object (insert name (object (insert payload.interface payload stored)) members))
  unfolding with_payload put_payload
  with_payload-value name payload stored members h = ap (put_payload name payload members) h

  module _ (name other : String) (payload : InterfaceMetrics Rest)
      (members : List (String × Json (InterfaceMetrics Rest))) (ne : name ≢ other) where
    put_payload-other :
        (d : Json (InterfaceMetrics Rest)) (root : MetricsData Rest)
        → put_payload name payload members d ≡ some root
        → user_of other (members_of root) ≡ user_of other (some members)
    unfolding put_payload user_of
    put_payload-other (object stored) root h =
        subst (λ r. user_of other (members_of r) ≡ user_of other (some members)) (some_inj h)
          (ap (λ o. ok (get_or o (object []))) (lookup-insert_ne name other _ members ne))
    put_payload-other null root h = cc
    put_payload-other (boolean b) root h = cc
    put_payload-other (integer z) root h = cc
    put_payload-other (real x) root h = cc
    put_payload-other (quoted x) root h = cc
    put_payload-other (array x) root h = cc

  module _ (saves : ℕ → Bool) (name other : String) (payload : InterfaceMetrics Rest)
      (s : MetricsStore Rest) (ne : name ≢ other) where
    -- The other user's data after a write.
    if_other :
        (b : Bool) (root : MetricsData Rest)
        (members : List (String × Json (InterfaceMetrics Rest)))
        → members_of (data_of s.file) ≡ some members
        → user_of other (members_of root) ≡ user_of other (some members)
        → user_of other (members_of (data_of (outcome b root s).1.file))
          ≡ user_of other (members_of (data_of s.file))
    unfolding data_of
    if_other true root members h q = q ∙ ap (user_of other) (sym h)
    if_other false root members h q = refl

    pub write_interface-other :
        user_of other (members_of (data_of (write_interface saves name payload s).1.file))
        ≡ user_of other (members_of (data_of s.file))
    unfolding with_payload
    write_interface-other = elim (Option-cases (members_of (data_of s.file))) [
      | inl h ↦ ap after_file (write_raised saves name payload s h)
      | inr (members, h) ↦ elim (Option-cases (with_payload name payload members)) [
        | inl q ↦ ap after_file (write_refused saves name payload s members h q)
        | inr (root, q) ↦
            ap (λ o. after_file o.1) (write_done saves name payload s members root h q)
            ∙ if_other (saves s.attempts) root members h
                (put_payload-other name other payload members ne _ root q)
      ]
    ]
      where
        after_file : MetricsStore Rest → Result (Json (InterfaceMetrics Rest))
        after_file w = user_of other (members_of (data_of w.file))
