-- ===== src/Server/Admin.antt =====
-- internal/server/admin.go: what an administrator's page does to the accounts. `unlinkable` says that
-- a file cannot be removed; `join` is filepath.Join.
pub mod Safety
use minmaxmusic3_web.Prelude.{
  ℕ, Bool, true, false, ◌&&◌, not, Option, none, some, List, [], ◌++◌, if◌then◌else◌, Text, codes,
  text_eq, is_empty, select, any_row,
}
use minmaxmusic3_web.Store.Rows.{
  User, Db, status_pending, status_approved, status_disabled, err_last_admin, err_no_rows, Result,
  ok, err,
}
use minmaxmusic3_web.Store.Users.{list_users, update_user_status, delete_user}
use minmaxmusic3_web.Server.Http.{
  Request, Packages, Reply, plain_error, hx_redirect, see_other, deny, is_htmx,
}
use minmaxmusic3_web.Server.Access.{UserContext}
use minmaxmusic3_web.Server.Auth.{config_admin_user_id}

pub data AdminOp : Type 0 where
  approve disable delete : AdminOp

abbrev pub admin_notice_approved : Text
admin_notice_approved = codes "approved"

abbrev pub admin_notice_disabled : Text
admin_notice_disabled = codes "disabled"

abbrev pub admin_notice_deleted : Text
admin_notice_deleted = codes "deleted"

abbrev pub admin_notice_deleted_part : Text
admin_notice_deleted_part = codes "deleted-partial"

abbrev pub admin_notice_gone : Text
admin_notice_gone = codes "gone"

abbrev pub admin_notice_last_admin : Text
admin_notice_last_admin = codes "last-admin"

abbrev pub admin_notice_self : Text
admin_notice_self = codes "self"

abbrev pub admin_notice_config_admin : Text
admin_notice_config_admin = codes "config-admin"

unfoldable pub admin_notice_for : Text → Text
unfolding text_eq
admin_notice_for key =
    if text_eq key admin_notice_approved
    then codes "Account approved."
    else if text_eq key admin_notice_disabled
    then codes "User disabled. Their active sessions have been ended."
    else if text_eq key admin_notice_deleted
    then codes "Account deleted, along with its songs."
    else if text_eq key admin_notice_deleted_part
    then codes "Account deleted; some audio files could not be removed."
    else if text_eq key admin_notice_gone
    then codes "That account no longer exists."
    else if text_eq key admin_notice_last_admin
    then codes "That is the only administrator account left — promote another before removing it."
    else if text_eq key admin_notice_self
    then codes "You cannot do that to your own account."
    else if text_eq key admin_notice_config_admin
    then codes "The configured administrator is not a database account and cannot be changed here."
    else []

-- The caller, if they are an administrator.
unfoldable pub require_admin : Option UserContext → Option UserContext
require_admin none = none
require_admin (some uc) = if uc.is_admin then some uc else none

abbrev pub forbidden : Request → Reply
forbidden r = deny r 403 (codes "forbidden") (codes "Administrator access is required.") []

-- Pending accounts, and the others, in the order of ListUsers.
unfoldable pub dashboard : Db → List User × List User
unfolding list_users text_eq
dashboard d = (
  select (λ u. text_eq u.status status_pending) (list_users d),
  select (λ u. not (text_eq u.status status_pending)) (list_users d),
)

abbrev allows_self : AdminOp → Bool
allows_self approve = true
allows_self _ = false

abbrev noticed : Text → Db × Result (Unit {0}) → Db × Result Text
noticed notice (d, ok u) = (d, ok notice)
noticed notice (d, err e) = (d, err e)

module _ (pk : Packages) (join : Text → Text → Text) (unlinkable : Text → Bool) where
  unfoldable pub admin_redirect : Request → (notice : Text) → Reply
  unfolding is_htmx
  admin_redirect r notice =
      let dest =
        (if is_empty notice
          then codes "/admin"
          else codes "/admin?notice=" ++ pk.query_escape notice) in
      if is_htmx r then hx_redirect 200 dest else see_other dest

  abbrev deleted_files : Db × Result (List Text) → Db × Result Text
  deleted_files (d, ok paths) =
      (d, ok (if any_row unlinkable paths then admin_notice_deleted_part else admin_notice_deleted))
  deleted_files (d, err e) = (d, err e)

  -- The `act` of the three handlers.
  unfoldable pub act : AdminOp → Db → (now : ℕ) → (id : Text) → Db × Result Text
  unfolding update_user_status delete_user
  act approve d now id = noticed admin_notice_approved (update_user_status d now id status_approved)
  act disable d now id = noticed admin_notice_disabled (update_user_status d now id status_disabled)
  act delete d now id = deleted_files (delete_user join d id)

  abbrev reported : Request → Db × Result Text → Db × Reply
  reported r (d, ok notice) = (d, admin_redirect r notice)
  reported r (d, err err_no_rows) = (d, admin_redirect r admin_notice_gone)
  reported r (d, err err_last_admin) = (d, admin_redirect r admin_notice_last_admin)
  reported r (d, err e) = (d, plain_error 500 (codes "Could not complete that action."))

  abbrev permitted : AdminOp → Db → (now : ℕ) → Request → UserContext → Db × Reply
  permitted op d now r uc =
      if is_empty r.path_id
      then (d, plain_error 400 (codes "No user specified."))
      else if text_eq r.path_id config_admin_user_id
      then (d, admin_redirect r admin_notice_config_admin)
      else if not (allows_self op) && text_eq r.path_id uc.user_id
      then (d, admin_redirect r admin_notice_self)
      else reported r (act op d now r.path_id)

  abbrev required : AdminOp → Db → (now : ℕ) → Request → Option UserContext → Db × Reply
  required op d now r none = (d, forbidden r)
  required op d now r (some uc) = permitted op d now r uc

  -- handleApproveUser, handleDisableUser and handleDeleteUser.
  unfoldable pub admin_action : AdminOp → Db → (now : ℕ) → Option UserContext → Request → Db × Reply
  unfolding act admin_redirect require_admin text_eq
  admin_action op d now uc r = required op d now r (require_admin uc)
