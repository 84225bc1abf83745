-- ===== src/Mptcp/Ending.antt =====
-- The ends that the transaction of /mptcp can have.
use openmptcprouter_vps.Dict.{keys, lookup}
use openmptcprouter_vps.Exec.{Result, ok, os_error, raised}
use openmptcprouter_vps.Exec.Ends.{Ends, raises, returns}
use openmptcprouter_vps.Host.Reply.{Reply, changes_applied, listing, read_only_user, reply}
use openmptcprouter_vps.Mptcp.Apply.{Attempt, all_values, new_conf}
use openmptcprouter_vps.Mptcp.Applying.{InForce, IsDistinct}
use openmptcprouter_vps.Mptcp.Endpoint.{
  conclude, nanbbr_parameters, restart_services, restarted_services, transact, unable,
}
use openmptcprouter_vps.Mptcp.Kernel.{Kernel, Settings, conf_text}
use openmptcprouter_vps.Mptcp.Modules.{SameState, SameState-refl}
use openmptcprouter_vps.Mptcp.Request.{
  MptcpHost, MptcpParams, mptcp_error, mptcp_values, nanbbr_config_content,
}
use openmptcprouter_vps.Mptcp.Restores.{AsBefore, rollback_restores}
use openmptcprouter_vps.Mptcp.Rollback.{rollback}
use openmptcprouter_vps.Mptcp.Runs.{all_settings}
use openmptcprouter_vps.Mptcp.Tracking.{Tracked}
use openmptcprouter_vps.Mptcp.Transaction.{Carried, InForce-same, attempt-Ends}
use openmptcprouter_vps.Prelude.{
  Bool-cases, List, Option, String, String_discrete, [], ap, arith, false, holds, if◌then◌else◌,
  inl, inr, ne_of_test, none, refl, some, sym, true, ◌∙◌, ◌∷◌, ◌≡◌, ◌≢◌,
}

-- What the endpoint has done when it says that the changes are applied.
pub record IsApplied (host : MptcpHost) (p : MptcpParams) (s h : Settings) : Type 0 where
  pub parameters : List String
  pub old : String
  pub supported :
      (nanbbr_parameters host p.congestion_control p.nanbbr_aggressiveness s).0
      ≡ ok (some parameters)
  pub was : s.conf ≡ conf_text old
  pub conf :
      h.conf ≡ conf_text (new_conf old (all_values (mptcp_values host p) p.congestion_control))
  pub nanbbr : h.nanbbr_conf ≡ elim p.nanbbr_aggressiveness [
    | none ↦ s.nanbbr_conf
    | some n ↦ some (nanbbr_config_content n)
  ]
  pub in_force :
      InForce
        (all_settings (mptcp_values host p) p.congestion_control p.nanbbr_aggressiveness parameters)
        h

restart-SameState :
    (host : MptcpHost) (services : List (String × String)) (s : Settings)
    → SameState s (restart_services host services s)
unfolding restart_services
restart-SameState host [] s = SameState-refl s
restart-SameState host ((path, unit) ∷ rest) s =
    elim (host.has_file path)
      as (λ b.
        SameState s (
          restart_services host rest
            (if b then record s { commands = unit ∷ s.commands } else s))) [
              | true ↦
                  let e = restart-SameState host rest (record s { commands = unit ∷ s.commands }) in
                  record { values = e.values; conf = e.conf; nanbbr_conf = e.nanbbr_conf }
              | false ↦ restart-SameState host rest s
            ]

pub AsBefore-SameState : {s h : Settings} → SameState s h → AsBefore s h
AsBefore-SameState e = record {
  values = λ key. ap (lookup key) e.values;
  conf = e.conf;
  nanbbr_conf = e.nanbbr_conf;
}

pub SameState-trans : {s k h : Settings} → SameState s k → SameState k h → SameState s h
SameState-trans a b = record {
  values = b.values ∙ a.values;
  conf = b.conf ∙ a.conf;
  nanbbr_conf = b.nanbbr_conf ∙ a.nanbbr_conf;
}

AsBefore-trans : {s k h : Settings} → SameState s k → AsBefore k h → AsBefore s h
AsBefore-trans same b = record {
  values = λ key. b.values key ∙ ap (lookup key) same.values;
  conf = b.conf ∙ same.conf;
  nanbbr_conf = b.nanbbr_conf ∙ same.nanbbr_conf;
}

-- One of the three ends of the transaction.
pub data MptcpOutcome (host : MptcpHost) (p : MptcpParams) (s : Settings)
    : Result Reply × Settings → Type 0 where
  applied_all :
      (h : Settings) → IsApplied host p s h → MptcpOutcome host p s (ok changes_applied, h)
  left_alone :
      (r : Reply) (h : Settings)
      → AsBefore s h
      → r ≢ changes_applied
      → MptcpOutcome host p s (ok r, h)
  rollback_failed : (h : Settings) → MptcpOutcome host p s (ok (unable true), h)

-- The first part of a reply, the result.
abbrev status : Reply → String
status (reply result reason) = result
status (listing lines) = ""

pub error_not_done : (reason : String) → mptcp_error reason ≢ changes_applied
unfolding String_discrete
error_not_done reason e = ne_of_test "error" "done" refl (ap status e)

pub reader_not_done : read_only_user ≢ changes_applied
unfolding String_discrete
reader_not_done e = ne_of_test "permission" "done" refl (ap status e)

Carried-IsApplied :
    (kernel : Kernel) (host : MptcpHost) (p : MptcpParams) (s k h : Settings)
    (parameters : List String) {old new : String}
    → SameState s k
    → (nanbbr_parameters host p.congestion_control p.nanbbr_aggressiveness s).0
      ≡ ok (some parameters)
    → IsDistinct (
        keys (
          all_settings
            (mptcp_values host p)
            p.congestion_control
            p.nanbbr_aggressiveness
            parameters))
    → Carried
        (mptcp_values host p)
        p.congestion_control
        p.nanbbr_aggressiveness
        parameters
        k
        old
        new
        h
    → IsApplied host p s h
Carried-IsApplied kernel host p s k h parameters {old} same supported d done = record {
  parameters = parameters;
  old = old;
  supported = supported;
  was = sym same.conf ∙ done.was;
  conf = done.conf ∙ ap conf_text done.is_new;
  nanbbr =
      done.nanbbr
      ∙ ap
          (λ (c : Option String). elim p.nanbbr_aggressiveness [
            | none ↦ c
            | some n ↦ some (nanbbr_config_content n)
          ])
          same.nanbbr_conf;
  in_force = done.in_force d;
}

IsApplied-SameState :
    {host : MptcpHost} {p : MptcpParams} {s h k : Settings}
    → SameState h k
    → IsApplied host p s h
    → IsApplied host p s k
IsApplied-SameState {host} {p} {s} {h} {k} same i = record {
  parameters = i.parameters;
  old = i.old;
  supported = i.supported;
  was = i.was;
  conf = same.conf ∙ i.conf;
  nanbbr = same.nanbbr_conf ∙ i.nanbbr;
  in_force = InForce-same _ h k same.values i.in_force;
}

module _ (kernel : Kernel) (host : MptcpHost) (p : MptcpParams) (s k : Settings)
    (parameters : List String) (same : SameState s k)
    (supported : (nanbbr_parameters host p.congestion_control p.nanbbr_aggressiveness s).0
      ≡ ok (some parameters))
    (d : IsDistinct (
      keys (
        all_settings
          (mptcp_values host p)
          p.congestion_control
          p.nanbbr_aggressiveness
          parameters))) where
  concluded :
      (out : Result (String × String) × Attempt)
      → Ends
          (λ r b.
            Carried
              (mptcp_values host p)
              p.congestion_control
              p.nanbbr_aggressiveness
              parameters
              k
              r.0
              r.1
              b.settings)
          (Tracked k)
          out
      → MptcpOutcome host p s (conclude kernel host out.0 out.1)
  unfolding conclude unable
  concluded _ (returns r b done) =
      let i = Carried-IsApplied kernel host p s k b.settings parameters same supported d done in
      elim (String_discrete r.0 r.1)
        as (λ x. MptcpOutcome host p s (
          ok changes_applied,
          if holds x then b.settings else restart_services host restarted_services b.settings,
        )) [
          | yes e ↦ applied_all b.settings i
          | no n ↦
              applied_all _
                (IsApplied-SameState (restart-SameState host restarted_services b.settings) i)
        ]
  concluded _ (raises b t) =
      let (incomplete, e, back) = rollback_restores kernel k b t in
      let h = (rollback kernel b).1.settings in
      let ended : conclude kernel host (raised os_error) b ≡ (ok (unable incomplete), h) =
        ground (arith, e) in
      rw ended (elim (Bool-cases incomplete) [
        | inl wrong ↦ rw wrong (rollback_failed h)
        | inr right ↦
            rw right
              (left_alone (unable false) h (AsBefore-trans same (back right)) (error_not_done _))
      ])

  -- The transaction, from a state `k` that differs from `s` in the modules only.
  pub transact-MptcpOutcome : MptcpOutcome host p s (transact kernel host p parameters k)
  unfolding transact
  transact-MptcpOutcome = concluded _ (
      attempt-Ends kernel k (mptcp_values host p) p.congestion_control p.nanbbr_aggressiveness
        parameters)
