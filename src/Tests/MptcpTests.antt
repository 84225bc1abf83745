-- ===== src/Tests/MptcpTests.antt =====
-- The theorems on MPTCP names, for a router that sends fullmesh.
use openmptcprouter_vps.Mptcp.Names.{normalize_mptcp_path_manager, strip_prefix}
use openmptcprouter_vps.Mptcp.Persisted.{
  SysctlState, first_value, left_strip, normalize_persisted_mptcp_path_manager, repair, rewritten,
  right_strip, strip, value_in,
}
use openmptcprouter_vps.Prelude.{
  List, String, String_discrete, [], contains, refl, some, true, ◌∷◌, ◌≡◌,
}

abbrev mainline : List String
mainline = "kernel" ∷ "userspace" ∷ []

abbrev boot : SysctlState
boot = record {
  conf = some ("net.mptcp.enabled=1" ∷ " net.mptcp.path_manager=fullmesh" ∷ []);
  commands = [];
}

repaired_once :
    (normalize_persisted_mptcp_path_manager true mainline boot).conf
    ≡ some ("net.mptcp.enabled=1" ∷ "net.mptcp.path_manager=kernel" ∷ [])
unfolding normalize_persisted_mptcp_path_manager repair first_value value_in strip left_strip
    right_strip strip_prefix rewritten normalize_mptcp_path_manager contains String_discrete
repaired_once = refl
