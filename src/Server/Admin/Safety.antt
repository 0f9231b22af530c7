-- ===== src/Server/Admin/Safety.antt =====
-- internal/server/admin.go, adminAction: what no administrator's request can do.
use minmaxmusic3_web.Prelude.{ℕ, ◌≡◌, Bool, true, false, ◌||◌, not, Option, some, Text, text_eq}
use minmaxmusic3_web.Store.Rows.{Db}
use minmaxmusic3_web.Server.Http.{Request, Packages}
use minmaxmusic3_web.Server.Access.{UserContext}
use minmaxmusic3_web.Server.Auth.{config_admin_user_id}
use minmaxmusic3_web.Server.Admin.{AdminOp, act, allows_self}

module _ (pk : Packages) (join : Text → Text → Text) (unlinkable : Text → Bool) where
  -- An administrator who acts on another account, by what the store then does.
  abbrev pub Acts : AdminOp → Db → (now : ℕ) → Option UserContext → Request → Db → Type 0
  Acts op d now uc r d' =
      (who : UserContext) × (uc ≡ some who)
      × (who.is_admin ≡ true)
      × ((allows_self op || not (text_eq r.path_id who.user_id)) ≡ true)
      × (text_eq r.path_id config_admin_user_id ≡ false)
      × (d' ≡ (act pk join unlinkable op d now r.path_id).0)
