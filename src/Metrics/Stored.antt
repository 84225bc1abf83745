-- ===== src/Metrics/Stored.antt =====
-- What POST /metrics stores, and whose data it leaves alone.
use openmptcprouter_vps.Config.{get_or}
use openmptcprouter_vps.Dict.{insert, lookup, lookup-insert_self}
use openmptcprouter_vps.Exec.{
  Result, continue, http_exception, ok, ok_inj, pure, raise, raised, ◌>>=◌,
}
use openmptcprouter_vps.Host.Reply.{User}
use openmptcprouter_vps.Metrics.Json.{Json, members_of, object}
use openmptcprouter_vps.Metrics.Store.{
  InterfaceMetrics, MetricsData, MetricsStore, chosen_user, data_of, read_user, set_metrics,
  stamped, write_interface,
}
use openmptcprouter_vps.Metrics.Written.{
  outcome, read_user_value, user_of, with_payload-value, write_done, write_interface-other,
}
use openmptcprouter_vps.Prelude.{
  Bool, List, Option, String, [], ap, arith, false, if◌then◌else◌, none, refl, some, sym, true, ℕ,
  ◌∙◌, ◌≡◌, ◌≢◌,
}

module _ {Rest : Type 0} (saves : ℕ → Bool) (user : User) (username : Option String)
    (metrics : InterfaceMetrics Rest) (now : ℕ) (s : MetricsStore Rest) where
  answer_state :
      (r : Result Bool) (w : MetricsStore Rest)
      → (continue r
          (λ b. if b then pure tt else raise (http_exception 503 "Metrics storage unavailable"))
          w).1
        ≡ w
  unfolding ◌>>=◌
  answer_state (ok true) w = refl
  answer_state (ok false) w = refl
  answer_state (raised e) w = refl

  set_metrics-state :
      (set_metrics saves user username metrics now s).1
      ≡ (write_interface saves (chosen_user user username) (stamped now metrics) s).1
  unfolding set_metrics ◌>>=◌
  set_metrics-state = answer_state _ _

  chosen_user-user :
      (u : Option String) → user.permissions ≢ "admin" → chosen_user user u ≡ user.username
  unfolding chosen_user
  chosen_user-user none h = refl
  chosen_user-user (some name) h = ground arith

  -- Whatever a user without the permission `admin` sends to POST /metrics, whichever name is asked for,
  -- and whether or not the write works: what read_user gives of every other user is as before.
  pub set_metrics_confined :
      (other : String)
      → user.permissions ≢ "admin"
      → user.username ≢ other
      → (read_user other (set_metrics saves user username metrics now s).1).0
        ≡ (read_user other s).0
  set_metrics_confined other h ne =
      read_user_value other _
      ∙ ap (λ w. user_of other (members_of (data_of w.file))) set_metrics-state
      ∙ write_interface-other saves _ other _ s (λ e. ne (sym (chosen_user-user username h) ∙ e))
      ∙ sym (read_user_value other s)

  stored_in :
      (members : Option (List (String × Json (InterfaceMetrics Rest)))) (name : String)
      (old : List (String × InterfaceMetrics Rest))
      → user_of name members ≡ ok (object old)
      → (m : List (String × Json (InterfaceMetrics Rest))) × (members ≡ some m)
        × (get_or (lookup name m) (object []) ≡ object old)
  unfolding user_of
  stored_in none name old h = cc
  stored_in (some m) name old h = (m, refl, ok_inj h)

  set_metrics-done :
      (w : MetricsStore Rest)
      → write_interface saves (chosen_user user username) (stamped now metrics) s ≡ (ok true, w)
      → (set_metrics saves user username metrics now s).0 ≡ ok tt
  unfolding set_metrics ◌>>=◌
  set_metrics-done w h = simp h

  user_of-insert :
      (name : String) (d : Json (InterfaceMetrics Rest))
      (m : List (String × Json (InterfaceMetrics Rest)))
      → user_of name (some (insert name d m)) ≡ ok d
  unfolding user_of
  user_of-insert name d m = ap (λ o. ok (get_or o (object []))) (lookup-insert_self name d m)

  -- If the user whom POST /metrics stores for has a dict of measurements, or none yet, and the file can be
  -- written: the request is answered, and read_user then gives the old dict with the measurement put in
  -- for its interface, with its own timestamp if it has one, or else the time of the request.
  pub set_metrics_stores :
      (old : List (String × InterfaceMetrics Rest))
      → (read_user (chosen_user user username) s).0 ≡ ok (object old)
      → saves s.attempts ≡ true
      → ((set_metrics saves user username metrics now s).0 ≡ ok tt)
        × ((read_user
              (chosen_user user username)
              (set_metrics saves user username metrics now s).1).0
            ≡ ok (
                object (
                  insert metrics.interface
                    (record metrics { timestamp = some (get_or metrics.timestamp now) })
                    old)))
  unfolding stamped data_of
  set_metrics_stores old h works =
      let (m, hm, q) =
        stored_in _ (chosen_user user username) old (sym (read_user_value _ s) ∙ h) in
      let root : MetricsData Rest = object (
        insert (chosen_user user username)
          (object (insert metrics.interface (stamped now metrics) old)) m) in
      let done =
        write_done saves _ (stamped now metrics) s m root hm
          (with_payload-value _ (stamped now metrics) old m q)
        ∙ ap (λ b. outcome b root s) works in
      (
        set_metrics-done _ done,
        read_user_value _ _
            ∙ ap (λ w. user_of (chosen_user user username) (members_of (data_of w.file)))
                (set_metrics-state ∙ ap (λ o. o.1) done)
            ∙ user_of-insert (chosen_user user username) _ m,
      )
