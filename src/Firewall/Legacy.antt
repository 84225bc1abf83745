-- ===== src/Firewall/Legacy.antt =====
-- _legacy_fw_line: an entry in the line layout that the routers parse.
use openmptcprouter_vps.Config.{FwEntry, get_or}
use openmptcprouter_vps.Firewall.Ports.{entry_of, is_supported_type}
use openmptcprouter_vps.Prelude.{
  Option, String, String_discrete, [], fmt, if◌then◌else◌, none, refl, some, ◌&&◌, ◌==◌, ◌∷◌, ◌≡◌,
}

-- `entry.get(key, d) or d`: an empty text counts as missing.
abbrev or_default : Option String → String → String
or_default o d = if get_or o d == "" then d else get_or o d

legacy_text : String → String → FwEntry → String
legacy_text username fwtype entry =
    let name = get_or entry.name "" in
    let port = get_or entry.port "" in
    let proto = get_or entry.proto "tcp" in
    let source_dip = or_default entry.source_dip "" in
    let dest_ip = or_default entry.dest_ip "" in
    let vpn = or_default entry.vpn "default" in
    let gencomment = or_default entry.comment "" in
    let verb = if fwtype == "ACCEPT" then "open" else "redirect" in
    let dest =
      if fwtype == "ACCEPT"
      then "$FW\t"
      else if vpn == "default"
      then "vpn:$OMR_ADDR"
      else fmt ("vpn:" ∷ vpn ∷ []) in
    let to = if source_dip == "" then "" else fmt (" to " ∷ source_dip ∷ []) in
    let from = if dest_ip == "" then "" else fmt (" from " ∷ dest_ip ∷ []) in
    let net = if dest_ip == "" then "net" else fmt ("net:" ∷ dest_ip ∷ []) in
    if source_dip == "" && dest_ip == ""
    then fmt (
        fwtype ∷ "\t\tnet\t\t" ∷ dest ∷ "\t" ∷ proto ∷ "\t" ∷ port ∷ "\t# OMR " ∷ username ∷ " "
        ∷ verb ∷ " " ∷ name ∷ " port " ∷ proto ∷ gencomment ∷ "\n" ∷ [])
    else fmt (
        fwtype ∷ "\t\t" ∷ net ∷ "\t\t" ∷ dest ∷ "\t" ∷ proto ∷ "\t" ∷ port ∷ "\t-\t" ∷ source_dip
        ∷ "\t# OMR " ∷ username ∷ " " ∷ verb ∷ " " ∷ name ∷ " port " ∷ proto ∷ to ∷ from
        ∷ gencomment ∷ "\n" ∷ [])

unfoldable pub legacy_fw_line : String → FwEntry → Option String
unfolding legacy_text
legacy_fw_line username entry =
    let fwtype = get_or entry.fwtype "ACCEPT" in
    if is_supported_type fwtype then some (legacy_text username fwtype entry) else none

legacy_example :
    legacy_fw_line "bob" (
      entry_of
        (record {
          port = "80";
          proto = "tcp";
          name = "router 80";
          fwtype = "DNAT";
          family = 4;
          source_dip = "";
          dest_ip = "1.2.3.4";
        })
        "default"
        "")
    ≡ some
        "DNAT\t\tnet:1.2.3.4\t\tvpn:$OMR_ADDR\ttcp\t80\t-\t\t# OMR bob redirect router 80 port tcp from 1.2.3.4\n"
unfolding legacy_fw_line String_discrete
legacy_example = refl
