-- ===== src/Store/Rows.antt =====
-- internal/store/store.go: the rows, the database, who is asking, and how a statement answers.
-- Times are instants in nanoseconds. A float64 or an int64 that the store only carries (a
-- duration, a seed, a guidance scale) is its bit pattern.
use minmaxmusic3_web.Prelude.{
  ℕ, Bool, true, false, ◌||◌, Option, List, [], Text, codes, text_eq, is_empty, if◌then◌else◌, ◌==◌,
}

pub data JobState : Type 0 where
  queued submitting submitted running succeeded failed cancelled : JobState

abbrev pub rank : JobState → ℕ
rank queued = 0
rank submitting = 1
rank submitted = 2
rank running = 3
rank succeeded = 4
rank failed = 5
rank cancelled = 6

abbrev pub state_eq : JobState → JobState → Bool
state_eq a b = rank a == rank b

-- state IN ('succeeded','failed','cancelled')
abbrev pub is_terminal : JobState → Bool
is_terminal succeeded = true
is_terminal failed = true
is_terminal cancelled = true
is_terminal _ = false

abbrev pub status_pending : Text
status_pending = codes "pending"

abbrev pub status_approved : Text
status_approved = codes "approved"

abbrev pub status_disabled : Text
status_disabled = codes "disabled"

abbrev pub role_user : Text
role_user = codes "user"

abbrev pub role_admin : Text
role_admin = codes "admin"

abbrev pub legacy_user_id : Text
legacy_user_id = codes "legacy"

abbrev pub engine_minimax : Text
engine_minimax = codes "minimax"

abbrev pub engine_yue2 : Text
engine_yue2 = codes "yue2"

abbrev pub mode_create : Text
mode_create = codes "create"

abbrev pub mode_cover : Text
mode_cover = codes "cover"

abbrev pub mode_edit : Text
mode_edit = codes "edit"

pub record Job : Type 0 where
  pub id : Text
  pub state : JobState
  pub runpod_id : Text
  pub user_id : Text
  pub lyrics : Text
  pub caption : Text
  pub engine : Text
  pub mode : Text
  pub cot : Text
  pub abc : Text
  pub source_audio : Text
  pub source_song_id : Text
  pub instrumental : Bool
  pub cfg_scale : Option ℕ
  pub idea : Text
  pub title : Text
  pub duration : ℕ
  pub seed : Option ℕ
  pub error : Text
  pub retries : ℕ
  pub created_at : ℕ
  pub started_at : Option ℕ
  pub updated_at : ℕ

pub record Song : Type 0 where
  pub id : Text
  pub job_id : Text
  pub user_id : Text
  pub is_public : Bool
  pub lyrics : Text
  pub caption : Text
  pub idea : Text
  pub duration : ℕ
  pub seed : Option ℕ
  pub engine : Text
  pub delivery : Text
  pub audio_path : Text
  pub title : Text
  pub mode : Text
  pub cot : Text
  pub score_abc : Text
  pub source_song_id : Text
  pub truncated : Bool
  pub created_at : ℕ

pub record User : Type 0 where
  pub id : Text
  pub username : Text
  pub password_hash : Text
  pub status : Text
  pub role : Text
  pub created_at : ℕ
  pub updated_at : ℕ

-- A row of the sessions table.
pub record SessionRow : Type 0 where
  pub token_hash : Text
  pub user_id : Text
  pub username : Text
  pub config_admin : Bool
  pub created_at : ℕ
  pub expires_at : ℕ

pub record CoverLink : Type 0 where
  pub token_hash : Text
  pub kind : Text
  pub ref : Text
  pub created_at : ℕ
  pub expires_at : ℕ

pub record CoverUpload : Type 0 where
  pub name : Text
  pub user_id : Text
  pub created_at : ℕ

pub record Db : Type 0 where
  pub jobs : List Job
  pub songs : List Song
  pub users : List User
  pub sessions : List SessionRow
  pub cover_links : List CoverLink
  pub cover_uploads : List CoverUpload

-- The errors that the store's own code returns, and a constraint that a row breaks.
pub data Error : Type 0 where
  err_transition err_username_taken err_last_admin err_no_rows : Error
  err_constraint err_unknown_kind err_needs_ref err_needs_ttl err_needs_name : Error
  err_unknown_status err_short_token err_needs_expiry : Error

pub data Result {ℓ} (A : Type ℓ) : Type ℓ where
  ok : A → Result A
  err : Error → Result A

pub record Access : Type 0 where
  pub user_id : Text
  pub admin : Bool

unfoldable pub user_access : Text → Access
user_access id = record { user_id = id; admin = false }

unfoldable pub admin_access : Text → Access
admin_access id = record { user_id = id; admin = true }

abbrev pub zero_access : Access
zero_access = record { user_id = []; admin = false }

-- (user_id = ? OR ?)
abbrev pub owned_by : Access → Text → Bool
owned_by a owner = text_eq owner a.user_id || a.admin

unfoldable pub engine_or : Text → Text
engine_or v = if is_empty v then engine_minimax else v

unfoldable pub mode_or : Text → Text
mode_or v = if is_empty v then mode_create else v

unfoldable pub owner : Text → Text
owner user_id = if is_empty user_id then legacy_user_id else user_id

-- A write that must change at least one row; the count is the rows that its WHERE test meets.
abbrev pub exec_affecting : ℕ → Db → Db → Db × Result (Unit {0})
exec_affecting n before after = if n == 0 then (before, err err_no_rows) else (after, ok tt)

-- Commits only when the body succeeds.
abbrev pub with_tx {ℓ} : {A : Type ℓ} → (Db → Db × Result A) → Db → Db × Result A
with_tx body d = let (d', r) = body d in elim r [ ok a ↦ (d', ok a) | err e ↦ (d, err e) ]
