-- ===== src/Host/Reply.antt =====
-- What the endpoints answer, and who asks.
use openmptcprouter_vps.Exec.{Exec, pure}
use openmptcprouter_vps.Prelude.{List, Option, String, if◌then◌else◌, ℕ, ◌==◌}

-- {'result': …, 'reason': …}, and the lists of texts of the list endpoints. The `route`, which names
-- the endpoint, is left out.
pub data Reply : Type 0 where
  reply : String → String → Reply
  listing : List String → Reply

-- The fields of the authenticated user that the endpoints read.
pub record User : Type 0 where
  pub username : String
  pub permissions : String
  pub userid : Option ℕ

abbrev pub changes_applied : Reply
changes_applied = reply "done" "changes applied"

abbrev pub read_only_user : Reply
read_only_user = reply "permission" "Read only user"

abbrev pub need_admin : Reply
need_admin = reply "permission" "Need admin user"

-- if current_user.permissions == "ro": return …
abbrev pub unless_read_only : {S : Type 0} → User → Exec S Reply → Exec S Reply
unless_read_only u m = if u.permissions == "ro" then pure read_only_user else m

-- if not current_user.permissions == "admin": return …
abbrev pub admin_only : {S : Type 0} → User → Exec S Reply → Exec S Reply
admin_only u m = if u.permissions == "admin" then m else pure need_admin
