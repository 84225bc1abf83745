-- ===== src/Firewall/Kernel.antt =====
-- What _nft_sync_ports gives to nft.
use openmptcprouter_vps.Config.{Config, is_truthy}
use openmptcprouter_vps.Exec.{PyError, ok, raised, ◌>>=◌}
use openmptcprouter_vps.Firewall.Nft.{nft_flush_chain}
use openmptcprouter_vps.Firewall.Ports.{nft_sync_ports}
use openmptcprouter_vps.Firewall.Rules.{Rules, render_bulk_redirect, render_fw_ports}
use openmptcprouter_vps.Host.{Host, World}
use openmptcprouter_vps.Host.Store.{read_omr_config, readable}
use openmptcprouter_vps.Prelude.{List, String, arith, false, some, true, ◌++◌, ◌≡◌}

module _ (host : Host) (w : World) {c : Config} (reads : readable w.config ≡ some c)
    (full : is_truthy c ≡ true) where
  -- With rules that can be rendered, nft is first given the accept chain, and only if it takes that,
  -- the dnat chain, the bulk redirect before the users' rules. The answer is true exactly if nft
  -- took both.
  pub nft_sync_ports_scripts :
      {rules : Rules} {bulk : List String}
      → render_fw_ports c ≡ ok rules
      → render_bulk_redirect c ≡ ok bulk
      → let accept = nft_flush_chain host "user_accept" rules.0 w in
        (nft_sync_ports host w) ≡ elim accept.0 [
          | ok true ↦ nft_flush_chain host "user_dnat" (bulk ++ rules.1) accept.1
          | ok false ↦ (ok false, accept.1)
          | raised e ↦ (raised e, accept.1)
        ]
  unfolding nft_sync_ports read_omr_config ◌>>=◌
  nft_sync_ports_scripts r b = ground arith

  -- If a rule cannot be rendered, the exception leaves the kernel's chains as they are.
  pub nft_sync_ports_raises :
      {e : PyError} → render_fw_ports c ≡ raised e → nft_sync_ports host w ≡ (raised e, w)
  unfolding nft_sync_ports read_omr_config ◌>>=◌
  nft_sync_ports_raises r = ground arith
