-- ===== src/Mptcp/Rollback.antt =====
-- The rollback of /mptcp: what was begun is put back, the last first. An error is noted and the rest is
-- still put back.
use openmptcprouter_vps.Dict.{lookup}
use openmptcprouter_vps.Exec.{Exec, gets, key_error, pure, require, ◌>>=◌}
use openmptcprouter_vps.Mptcp.Apply.{Attempt, on_host}
use openmptcprouter_vps.Mptcp.Kernel.{
  Kernel, Settings, change_setting, fails, remove_nanbbr, replace_conf, replace_nanbbr,
}
use openmptcprouter_vps.Prelude.{
  Bool, List, Option, String, [], false, if◌then◌else◌, none, some, ◌||◌, ◌∷◌,
}

-- One setting; the answer is whether there was an error.
unfoldable pub restore_setting : Kernel → String → Exec Attempt Bool
restore_setting kernel key = do
  olds ← gets (λ a. a.old_values)
  old ← require key_error (lookup key olds)
  on_host (fails (change_setting kernel key old))

unfoldable pub restore_settings : Kernel → List String → Exec Attempt Bool
restore_settings kernel [] = pure false
restore_settings kernel (key ∷ rest) = do
  error ← restore_setting kernel key
  errors ← restore_settings kernel rest
  pure (error || errors)

unfoldable pub restore_conf : Kernel → Exec Attempt Bool
restore_conf kernel = do
  begun ← gets (λ a. a.restores_conf)
  old ← gets (λ a. a.old_conf)
  if begun then on_host (fails (replace_conf kernel old)) else pure false

unfoldable pub put_nanbbr : Kernel → Option String → Exec Settings Unit
put_nanbbr kernel none = remove_nanbbr kernel
put_nanbbr kernel (some content) = replace_nanbbr kernel content

unfoldable pub restore_nanbbr : Kernel → Exec Attempt Bool
restore_nanbbr kernel = do
  begun ← gets (λ a. a.restores_nanbbr)
  old ← gets (λ a. a.old_nanbbr)
  if begun then on_host (fails (put_nanbbr kernel old)) else pure false

-- The whole rollback; the answer is whether it is incomplete.
unfoldable pub rollback : Kernel → Exec Attempt Bool
rollback kernel = do
  sysctls ← gets (λ a. a.applied_sysctls)
  in_sysctls ← restore_settings kernel sysctls
  parameters ← gets (λ a. a.applied_parameters)
  in_parameters ← restore_settings kernel parameters
  in_conf ← restore_conf kernel
  in_nanbbr ← restore_nanbbr kernel
  pure (in_sysctls || in_parameters || in_conf || in_nanbbr)
