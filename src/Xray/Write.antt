-- ===== src/Xray/Write.antt =====
-- _xray_rpf_write: test the candidate, replace the file, restart, and put the old text back if XRay does
-- not restart.
use openmptcprouter_vps.Exec.{Exec, gets, modify, pure, ◌>>=◌, ◌>>◌}
use openmptcprouter_vps.Firewall.Nft.{nft_flush_chain}
use openmptcprouter_vps.Host.{Host, World}
use openmptcprouter_vps.Host.Reply.{Reply, reply}
use openmptcprouter_vps.Prelude.{
  Bool, List, Option, String, [], fmt, holds, if◌then◌else◌, leb, ltb, map, none, not, some, str,
  suc, true, ℕ, ◌&&◌, ◌==ℕ◌, ◌==◌, ◌∷◌,
}
use openmptcprouter_vps.Xray.Changes.{inbounds_of, rpf_listener, starts_with}
use openmptcprouter_vps.Xray.Data.{Inbound, XrayData, XrayData_discrete, XrayText}

-- The public ports that keep XRay's sockets on the VPS: 1 <= port <= 64999 of a tunnel with such a tag.
unfoldable pub bypass_port : Inbound → Option ℕ
bypass_port i = elim i.port [
  | none ↦ none
  | some p ↦ elim i.tag [
    | none ↦ none
    | some t ↦ elim i.protocol [
      | none ↦ none
      | some protocol ↦
          if starts_with "omr-rpf-" t
            && not (t == rpf_listener)
            && (protocol == "tunnel")
            && leb 1 p
            && leb p 64999
          then some p
          else none
    ]
  ]
]

-- sorted({…}): each port once, in order.
unfoldable pub insert_once : ℕ → List ℕ → List ℕ
insert_once x [] = x ∷ []
insert_once x (y ∷ ys) =
    if x ==ℕ y then y ∷ ys else if ltb x y then x ∷ y ∷ ys else y ∷ insert_once x ys

unfoldable pub bypass_ports : List Inbound → List ℕ
bypass_ports [] = []
bypass_ports (i ∷ inbounds) =
    let rest = bypass_ports inbounds in
    elim (bypass_port i) [ none ↦ rest | some p ↦ insert_once p rest ]

unfoldable pub bypass_line : ℕ → String
bypass_line p = fmt (
    "meta nfproto ipv4 tcp dport "
    ∷ str p
    ∷ " accept comment \"OMR XRay RPF bypass "
    ∷ str p
    ∷ "\""
    ∷ [])

unfoldable pub render_xray_rpf_bypass : XrayData → List String
render_xray_rpf_bypass d = map bypass_line (bypass_ports (inbounds_of d))

-- _nft_sync_xray_rpf, given the data.
unfoldable pub nft_sync_xray_rpf : Host → XrayData → Exec World Bool
nft_sync_xray_rpf host d = nft_flush_chain host "rpf_dnat_bypass" (render_xray_rpf_bypass d)

abbrev restart_xray : World → World
restart_xray w = record w { commands = ("systemctl" ∷ "-q" ∷ "restart" ∷ "xray" ∷ []) ∷ w.commands }

count_commands : List (List String) → ℕ
count_commands [] = 0
count_commands (c ∷ cs) = suc (count_commands cs)

abbrev pub put_xray : XrayText → World → World
put_xray text w = record w { xray = some text }

-- The text of json.dumps(data, indent=4)
abbrev pub dumped : XrayData → XrayText
dumped d = record { content = d; is_dump = true }

abbrev pub same_text : XrayText → XrayText → Bool
same_text a b = holds (XrayData_discrete a.content b.content) && a.is_dump && b.is_dump

-- Whether the result is 'done', with the reason.
pub data Outcome : Type 0 where
  finished failed_with : String → Outcome

abbrev pub reply_of : Outcome → Reply
reply_of (finished reason) = reply "done" reason
reply_of (failed_with reason) = reply "error" reason

unfoldable pub xray_rpf_write : Host → XrayData → XrayText → Exec World Outcome
unfolding count_commands
xray_rpf_write host d before =
    if same_text (dumped d) before
    then pure (finished "no changes")
    else if not (host.xray_accepts d)
    then pure (failed_with "XRay generated config is invalid")
    else do
      modify (put_xray (dumped d))
      works ← gets (λ w. host.xray_restarts (count_commands w.commands))
      modify restart_xray
      if not works
          then (do
            modify (put_xray before)
            modify restart_xray
            pure (failed_with "XRay restart failed; config restored"))
          else (do nft_sync_xray_rpf host d; pure (finished "changes applied"))
