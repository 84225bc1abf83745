-- ===== src/Firewall/Nft.antt =====
-- _nft_run and _nft_flush_chain: scripts given to `nft -f -`.
use openmptcprouter_vps.Exec.{Exec, ok}
use openmptcprouter_vps.Host.{Host, World, exited, not_installed}
use openmptcprouter_vps.Prelude.{
  Bool, List, String, [], arith, false, fmt, length, refl, ◌==ℕ◌, ◌∷◌, ◌≡◌,
}

-- The return value says whether nft took the script. With no nft there is no run.
unfoldable pub nft_run : Host → String → Exec World Bool
nft_run host script w = elim (host.nft (length w.nft_log) script) [
  | not_installed ↦ (ok false, w)
  | exited code ↦ (ok (code ==ℕ 0), record w { nft_log = script ∷ w.nft_log })
]

add_rules : String → List String → String
add_rules chain [] = ""
add_rules chain (line ∷ lines) =
    fmt ("add rule inet omr " ∷ chain ∷ " " ∷ line ∷ "\n" ∷ add_rules chain lines ∷ [])

-- The script that replaces a chain's rules.
unfoldable pub chain_script : String → List String → String
unfolding add_rules
chain_script chain lines = fmt ("flush chain inet omr " ∷ chain ∷ "\n" ∷ add_rules chain lines ∷ [])

unfoldable pub nft_flush_chain : Host → String → List String → Exec World Bool
unfolding nft_run
nft_flush_chain host chain lines = nft_run host (chain_script chain lines)

module _ (host : Host) (script : String) (w : World) where
  -- A run of nft touches nothing but the log.
  pub config-nft_run : (nft_run host script w).1.config ≡ w.config
  unfolding nft_run
  config-nft_run = ground arith

chain_script_runs :
    chain_script "user_accept" ("a" ∷ "b" ∷ [])
    ≡ "flush chain inet omr user_accept\nadd rule inet omr user_accept a\nadd rule inet omr user_accept b\n"
unfolding chain_script
chain_script_runs = refl
