-- ===== src/Mptcp/Liveness.antt =====
-- On a kernel that takes every value, /mptcp applies what it is asked for.
use openmptcprouter_vps.Dict.{keys}
use openmptcprouter_vps.Exec.{Result, lift, ok, ◌>>=◌}
use openmptcprouter_vps.Exec.Ends.{
  Ends, Ends-bind, Ends-gets, Ends-lift, Ends-pure, raises, returns,
}
use openmptcprouter_vps.Host.Reply.{User, changes_applied}
use openmptcprouter_vps.Mptcp.Apply.{
  Attempt, all_values, apply_aggressiveness, apply_all, attempt, decoded, on_host, read_all,
  read_conf, read_files, read_nanbbr, started, write_aggressiveness,
}
use openmptcprouter_vps.Mptcp.Endpoint.{
  conclude, has_cc, load_cc, mptcp, nanbbr_parameters, transact, with_parameters,
}
use openmptcprouter_vps.Mptcp.Kernel.{ConfFile, Kernel, Settings, conf_path, conf_text, nanbbr_path}
use openmptcprouter_vps.Mptcp.Modules.{nanbbr_parameters_lem}
use openmptcprouter_vps.Mptcp.Obliging.{
  IsObliging, Live, Never, apply_parameters_works, apply_sysctls_works, read_old_works,
  write_conf_works, write_nanbbr_works,
}
use openmptcprouter_vps.Mptcp.Request.{
  MptcpHost, MptcpParams, cc_key, mptcp_values, nanbbr_config_content, refusal,
}
use openmptcprouter_vps.Mptcp.Restoring.{HasOlds}
use openmptcprouter_vps.Mptcp.Runs.{HasOlds-left, HasOlds-right}
use openmptcprouter_vps.Mptcp.Safety.{load_cc_lem}
use openmptcprouter_vps.Prelude.{
  List, Option, String, [], arith, false, none, refl, some, str, subst, sym, true, ℕ, ◌+◌, ◌==◌,
  ◌∙◌, ◌∷◌, ◌≡◌, ◌≢◌,
}

read_files_works :
    (kernel : Kernel) (s : Settings) (old : String)
    → IsObliging kernel
    → s.conf ≡ conf_text old
    → Ends (λ _ b. Live s old b) Never (read_files kernel (started s))
unfolding read_files read_conf read_nanbbr on_host ◌>>=◌
read_files_works kernel s old o text_there =
    rw (o.reads s.calls conf_path, text_there, o.reads (s.calls + 1) nanbbr_path)
      (returns tt _ (record { there = λ key h. h; old_conf = refl }))

module _ (kernel : Kernel) (s : Settings) (old : String) (o : IsObliging kernel)
    (text_there : s.conf ≡ conf_text old) (values : List (String × String)) (control : String)
    (parameters : List String) (keys_there : HasOlds (keys (all_values values control)) s.values)
    (parameters_there : HasOlds parameters s.values) where
  aggressiveness_works :
      (aggressiveness : Option ℕ) (a : Attempt)
      → Live s old a
      → Ends (λ _ b. Live s old b) Never (apply_aggressiveness kernel aggressiveness parameters a)
  unfolding apply_aggressiveness ◌>>=◌
  aggressiveness_works none a l = returns tt a l
  aggressiveness_works (some n) a l =
      apply_parameters_works kernel o s old (str n) parameters a l parameters_there

  file_works :
      (aggressiveness : Option ℕ) (a : Attempt)
      → Ends (λ _ b. Unit {0}) Never (write_aggressiveness kernel aggressiveness a)
  unfolding write_aggressiveness ◌>>=◌
  file_works none a = returns tt a tt
  file_works (some n) a = write_nanbbr_works kernel o s old (nanbbr_config_content n) a

  decoded_works :
      (bytes : ConfFile) (a : Attempt)
      → bytes ≡ conf_text old
      → Ends (λ x b. b ≡ a) Never (lift (decoded bytes) a)
  unfolding decoded
  decoded_works bytes a e = rw e (Ends-lift (ok old) a old refl refl)

  apply_all_works :
      (aggressiveness : Option ℕ) (a : Attempt)
      → Live s old a
      → Ends
          (λ _ b. Live s old b)
          Never
          (apply_all kernel values control aggressiveness parameters a)
  unfolding apply_all
  apply_all_works aggressiveness a l =
      let last : List (String × String) = (cc_key, control) ∷ [] in
      Ends-bind _ _ _
        (apply_sysctls_works kernel o s old values a l (HasOlds-left values last _ keys_there))
        (λ _ b m. Ends-bind _ _ _ (aggressiveness_works aggressiveness b m) (λ _ c n.
          apply_sysctls_works kernel o s old last c n (HasOlds-right values last _ keys_there)))

  attempt_works :
      (aggressiveness : Option ℕ)
      → Ends {A = String × String}
          (λ _ b. Unit {0})
          Never
          (attempt kernel values control aggressiveness parameters (started s))
  unfolding attempt read_all
  attempt_works aggressiveness =
      Ends-bind {P = λ _ a. Live s old a} _ _ _
        (Ends-bind _ _ _ (read_files_works kernel s old o text_there) (λ _ a l.
          Ends-bind _ _ _ (read_old_works kernel o s old _ a l keys_there)
            (λ _ b m. read_old_works kernel o s old _ b m parameters_there)))
        (λ _ a l.
          Ends-bind {P = λ bytes b. (bytes ≡ a.old_conf) × (b ≡ a)} _ _ _
            (Ends-gets _ a (refl, refl))
            (λ bytes b p. Ends-bind _ _ _ (decoded_works bytes b (p.0 ∙ l.old_conf)) (λ x c q.
              Ends-bind {P = λ _ e. Live s old e} _ _ _
                (apply_all_works aggressiveness c (subst (Live s old) (sym (q ∙ p.1)) l))
                (λ _ e m. Ends-bind _ _ _ (file_works aggressiveness e) (λ _ f _.
                  Ends-bind _ _ _ (write_conf_works kernel o s old _ _ f)
                    (λ _ g _. Ends-pure _ g tt))))))

returns_of_Never :
    {A : Type 0} {Q : A → Attempt → Type 0} {out : Result A × Attempt}
    → Ends Q Never out
    → (a : A) × (out.0 ≡ ok a)
returns_of_Never (returns a w q) = (a, refl)
returns_of_Never (raises w e) = absurd e

-- For a user that is not read-only and a request that passes the checks, on an obliging kernel that has
-- the lock file's directory, the congestion control, the parameters asked for and every setting that the
-- request names, and with a readable 90-shadowsocks.conf: /mptcp answers that the changes are applied.
pub mptcp_works :
    (kernel : Kernel) (host : MptcpHost) (p : MptcpParams) (u : User) (s : Settings) {old : String}
    {parameters : List String}
    → IsObliging kernel
    → u.permissions ≢ "ro"
    → host.has_lock ≡ true
    → refusal host p ≡ none
    → (nanbbr_parameters host p.congestion_control p.nanbbr_aggressiveness s).0
      ≡ ok (some parameters)
    → ((modules : List String) → has_cc (host.available_cc modules) p.congestion_control ≡ true)
    → s.conf ≡ conf_text old
    → HasOlds (keys (all_values (mptcp_values host p) p.congestion_control)) s.values
    → HasOlds parameters s.values
    → (mptcp kernel host p u s).0 ≡ ok changes_applied
unfolding mptcp with_parameters transact conclude ◌>>=◌
mptcp_works kernel host p u s {old} {parameters} o writer lock fine supported has text_there
      keys_there parameters_there =
    let (answer, returned, same, paths) =
      nanbbr_parameters_lem host p.congestion_control p.nanbbr_aggressiveness s in
    let k = (nanbbr_parameters host p.congestion_control p.nanbbr_aggressiveness s).1 in
    let (loaded, quiet) = load_cc_lem p.congestion_control k in
    let k1 = (load_cc p.congestion_control k).1 in
    let values : k1.values ≡ s.values = quiet.values ∙ same.values in
    let (pair, run) = returns_of_Never (
      attempt_works kernel k1 old o (quiet.conf ∙ same.conf ∙ text_there) (mptcp_values host p)
        p.congestion_control parameters (rw values keys_there) (rw values parameters_there)
        p.nanbbr_aggressiveness) in
    let writes : (u.permissions == "ro") ≡ false = ground (arith, writer) in
    rw writes (simp (fine, lock) (rw (supported, loaded, has k1.modprobed, run) refl))
