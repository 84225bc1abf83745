-- ===== src/Dscp/Classify.antt =====
-- /dscp_classify, and the nft sets that replay its last push.
use openmptcprouter_vps.Config.{DscpEntry, Param, classify, has_entries, is_truthy}
use openmptcprouter_vps.Dict.{lookup}
use openmptcprouter_vps.Dscp.Classes.{classify_classes, is_classify_class}
use openmptcprouter_vps.Exec.{Exec, pure, ◌>>=◌, ◌>>◌}
use openmptcprouter_vps.Firewall.Comment.{nft_comment}
use openmptcprouter_vps.Firewall.Nft.{nft_flush_chain, nft_run}
use openmptcprouter_vps.Host.{Host, World}
use openmptcprouter_vps.Host.Reply.{Reply, User, changes_applied, reply, unless_read_only}
use openmptcprouter_vps.Host.Store.{read_omr_config}
use openmptcprouter_vps.Prelude.{
  Bool, List, Option, String, [], false, fmt, if◌then◌else◌, join, map, none, not, some, true, ◌++◌,
  ◌==◌, ◌∷◌,
}
use openmptcprouter_vps.Users.Changes.{set_global_param}

pub record Family : Type 0 where
  pub v4 : List String
  pub v6 : List String

unfoldable pub set_name : String → String → String
set_name dscp family = fmt ("omr_dscp_classify_" ∷ dscp ∷ "_" ∷ family ∷ [])

unfoldable pub declared_sets : List String → String
declared_sets [] = ""
declared_sets (dscp ∷ rest) = fmt (
    "add set inet omr "
    ∷ set_name dscp "4"
    ∷ " { type ipv4_addr; flags interval; }\n"
    ∷ "add set inet omr "
    ∷ set_name dscp "6"
    ∷ " { type ipv6_addr; flags interval; }\n"
    ∷ declared_sets rest
    ∷ [])

unfoldable pub nft_ensure_dscp_sets : Host → Exec World Bool
nft_ensure_dscp_sets host = nft_run host (declared_sets classify_classes)

unfoldable pub refresh_script : String → String → List String → String
refresh_script dscp family cidrs =
    let name = set_name dscp family in
    fmt (
      "flush set inet omr "
      ∷ name
      ∷ "\n"
      ∷ (if has_entries cidrs
          then fmt ("add element inet omr " ∷ name ∷ " { " ∷ join ", " cidrs ∷ " }\n" ∷ [])
          else "")
      ∷ [])

unfoldable pub nft_refresh_dscp_set : Host → String → String → List String → Exec World Bool
nft_refresh_dscp_set host dscp family cidrs = nft_run host (refresh_script dscp family cidrs)

unfoldable pub render_dscp_mark : List String → List String
render_dscp_mark [] = []
render_dscp_mark (dscp ∷ rest) =
    let tag = nft_comment (fmt ("OMR DSCP classify " ∷ dscp ∷ [])) in
    fmt
      ("ip daddr @" ∷ set_name dscp "4" ∷ " ip dscp set " ∷ dscp ∷ " comment \"" ∷ tag ∷ "\"" ∷ [])
    ∷ fmt (
        "ip6 daddr @"
        ∷ set_name dscp "6"
        ∷ " ip6 dscp set "
        ∷ dscp
        ∷ " comment \""
        ∷ tag
        ∷ "\""
        ∷ [])
    ∷ render_dscp_mark rest

unfoldable pub nft_sync_dscp_mark : Host → Exec World Bool
nft_sync_dscp_mark host = nft_flush_chain host "dscp_mark" (render_dscp_mark classify_classes)

-- The dict of the classes, each with its two lists.
abbrev pub ByClass : Type 0
ByClass = List (String × Family)

unfoldable pub no_entries : ByClass
no_entries = map (λ dscp. (dscp, record { v4 = []; v6 = [] })) classify_classes

abbrev add_net : Bool → String → Family → Family
add_net true net f = record f { v4 = f.v4 ++ net ∷ [] }
add_net false net f = record f { v6 = f.v6 ++ net ∷ [] }

-- by_class[dscp][net.version].append(str(net)); `true` is version 4.
unfoldable pub append_net : String → Bool → String → ByClass → ByClass
append_net dscp version net [] = []
append_net dscp version net ((d, f) ∷ rest) =
    if d == dscp
    then (d, add_net version net f) ∷ rest
    else (d, f) ∷ append_net dscp version net rest

-- One entry of the replay: what does not validate is skipped.
unfoldable pub classify_entry : Host → DscpEntry → ByClass → ByClass
unfolding append_net
classify_entry host entry by_class =
    if is_classify_class entry.dscp
    then (elim (host.ip_network entry.cidr) [
      | none ↦ by_class
      | some (version, net) ↦ append_net entry.dscp version net by_class
    ])
    else by_class

unfoldable pub dscp_classify_by_class : Host → List DscpEntry → ByClass → ByClass
dscp_classify_by_class host [] by_class = by_class
dscp_classify_by_class host (entry ∷ entries) by_class =
    dscp_classify_by_class host entries (classify_entry host entry by_class)

unfoldable pub refresh_sets : Host → ByClass → Exec World Unit
refresh_sets host [] = pure tt
refresh_sets host ((dscp, f) ∷ rest) = do
  nft_refresh_dscp_set host dscp "4" f.v4
  nft_refresh_dscp_set host dscp "6" f.v6
  refresh_sets host rest

unfoldable pub nft_apply_dscp_classify : Host → ByClass → Exec World Unit
nft_apply_dscp_classify host by_class = do
  nft_ensure_dscp_sets host
  refresh_sets host by_class
  nft_sync_dscp_mark host
  pure tt

abbrev pub entries_in : Option Param → List DscpEntry
entries_in (some (classify entries)) = entries
entries_in _ = []

unfoldable pub nft_resync_dscp_classify : Host → Exec World Unit
nft_resync_dscp_classify host = do
  c ← read_omr_config
  let entries = if is_truthy c then entries_in (lookup "dscp_classify" c.globals) else []
  nft_apply_dscp_classify host (dscp_classify_by_class host entries no_entries)

-- The strict validation of the endpoint: the first entry that is not valid is an error.
unfoldable pub classify_strict : Host → List DscpEntry → ByClass → Option ByClass
classify_strict host [] by_class = some by_class
classify_strict host (entry ∷ entries) by_class =
    if is_classify_class entry.dscp
    then (elim (host.ip_network entry.cidr) [
      | none ↦ none
      | some (version, net) ↦
          classify_strict host entries (append_net entry.dscp version net by_class)
    ])
    else none

unfoldable pub dscp_classify : Host → User → List DscpEntry → Exec World Reply
dscp_classify host current_user entries = unless_read_only current_user (
    if not host.nft_present
    then pure (reply "warning" "nft not installed")
    else elim (classify_strict host entries no_entries) [
      | none ↦ pure (reply "error" "Invalid entry")
      | some by_class ↦ (do
        set_global_param "dscp_classify" (classify entries)
        nft_apply_dscp_classify host by_class
        pure changes_applied)
    ])
