-- ===== src/Config.antt =====
-- internal/config/config.go: the configuration, as Load reads it from the environment.
use minmaxmusic3_web.Prelude.{
  ◌≡◌, refl, sym, ap, ◌∙◌, subst, inl, inr, Bool, false, ◌&&◌, ◌||◌, not, Option, none, some, [],
  ◌∷◌, arith, if◌then◌else◌, Bool-cases, Text, codes, is_empty, ℤ, pos, ◌≤ℤ◌, ltb_ℤ, or_text, atoi,
}

pub record Config : Type 0 where
  pub addr : Text
  pub public_url : Text
  pub client_ip_header : Text
  pub web_dir : Text
  pub db_path : Text
  pub audio_dir : Text
  pub max_in_flight : ℤ
  pub runpod_endpoint : Text
  pub runpod_api_key : Text
  pub yue2_endpoint : Text
  pub acoustid_api_key : Text
  pub yue2_api_key : Text
  pub llm_base_url : Text
  pub llm_api_key : Text
  pub llm_model_id : Text
  pub llm_thinking : Text
  pub llm_reasoning_effort : Text
  pub admin_user : Text
  pub admin_password : Text

unfoldable pub admin_login_enabled : Config → Bool
admin_login_enabled c = not (is_empty c.admin_user) && not (is_empty c.admin_password)

unfoldable pub yue2_key : Config → Text
yue2_key c = or_text c.yue2_api_key c.runpod_api_key

unfoldable pub yue2_enabled : Config → Bool
unfolding yue2_key
yue2_enabled c = not (is_empty c.yue2_endpoint) && not (is_empty (yue2_key c))

-- `getenv` is os.Getenv.
abbrev pub env : (getenv : Text → Text) → Text → Text → Text
env getenv key def = or_text (getenv key) def

abbrev from_env : (Text → Text) → Config
from_env e = record {
  addr = env e (codes "MM3_ADDR") (codes ":8080");
  public_url = env e (codes "MM3_PUBLIC_URL") [];
  client_ip_header = e (codes "MM3_CLIENT_IP_HEADER");
  web_dir = env e (codes "MM3_WEB_DIR") (codes "/app/web");
  db_path = env e (codes "MM3_DB_PATH") (codes "/data/mm3.db");
  audio_dir = env e (codes "MM3_AUDIO_DIR") (codes "/data/audio");
  max_in_flight = pos 2;
  runpod_endpoint = e (codes "RUNPOD_ENDPOINT");
  runpod_api_key = e (codes "RUNPOD_API_KEY");
  yue2_endpoint = e (codes "YUE2_RUNPOD_ENDPOINT");
  acoustid_api_key = e (codes "MM3_ACOUSTID_API_KEY");
  yue2_api_key = e (codes "YUE2_RUNPOD_API_KEY");
  llm_base_url = e (codes "LLM_BASE_URL");
  llm_api_key = e (codes "LLM_API_KEY");
  llm_model_id = e (codes "LLM_MODEL_ID");
  llm_thinking = env e (codes "LLM_THINKING") (codes "disabled");
  llm_reasoning_effort = env e (codes "LLM_REASONING_EFFORT") (codes "none");
  admin_user = e (codes "ADMIN_USER");
  admin_password = e (codes "ADMIN_PASSWORD");
}

abbrev at_least_one : Config → Option ℤ → Option Config
at_least_one c none = none
at_least_one c (some n) = if ltb_ℤ n (pos 1) then none else some (record c { max_in_flight = n })

abbrev with_in_flight : Config → Text → Option Config
with_in_flight c v = if is_empty v then some c else at_least_one c (atoi v)

-- The four that must not be empty.
abbrev complete_or_none : Option Config → Option Config
complete_or_none none = none
complete_or_none (some c) =
    if is_empty c.addr || is_empty c.web_dir || is_empty c.db_path || is_empty c.audio_dir
    then none
    else some c

-- none is an error, whose text is not modelled.
unfoldable pub load : (getenv : Text → Text) → Option Config
unfolding atoi
load e = complete_or_none (with_in_flight (from_env e) (e (codes "MM3_MAX_IN_FLIGHT")))

with_in_flight-some :
    (c : Config) (v : Text) (o : Config)
    → pos 1 ≤ℤ c.max_in_flight
    → with_in_flight c v ≡ some o
    → (n : ℤ) × (o ≡ record c { max_in_flight = n }) × (pos 1 ≤ℤ n)
with_in_flight-some c [] o low e = (c.max_in_flight, ground arith, low)
with_in_flight-some c (b ∷ v) o low e = of_number (atoi (b ∷ v)) e
  where
    of_number :
        (a : Option ℤ)
        → at_least_one c a ≡ some o
        → (n : ℤ) × (o ≡ record c { max_in_flight = n }) × (pos 1 ≤ℤ n)
    of_number none h = cc
    of_number (some n) h = (n, ground arith, ground arith)

-- What a loaded configuration promises of the environment `e`.
abbrev pub Loaded : (getenv : Text → Text) → Config → Type 0
Loaded e c =
    (pos 1 ≤ℤ c.max_in_flight)
    × ((is_empty c.addr || is_empty c.web_dir || is_empty c.db_path || is_empty c.audio_dir)
        ≡ false)
    × (c.admin_user ≡ e (codes "ADMIN_USER"))
    × (c.admin_password ≡ e (codes "ADMIN_PASSWORD"))

completed :
    (d c : Config)
    → complete_or_none (some d) ≡ some c
    → (d ≡ c)
      × ((is_empty c.addr || is_empty c.web_dir || is_empty c.db_path || is_empty c.audio_dir)
          ≡ false)
completed d c h =
    elim (Bool-cases
      (is_empty d.addr || is_empty d.web_dir || is_empty d.db_path || is_empty d.audio_dir)) [
        | inl t ↦ absurd (none_not (rw t at h))
        | inr f ↦
            let same = inside (rw f at h) in
            (
              same,
              ap
                    (λ (x : Config).
                      is_empty x.addr
                      || is_empty x.web_dir
                      || is_empty x.db_path
                      || is_empty x.audio_dir)
                    (sym same)
                  ∙ f,
            )
      ]
  where
    none_not : {x : Config} → none ≡ some x → ⊥
    none_not w = cc

    inside : {x y : Config} → some x ≡ some y → x ≡ y
    inside w = cc

flying-Loaded :
    (e : Text → Text) (o : Option Config) (c : Config)
    → with_in_flight (from_env e) (e (codes "MM3_MAX_IN_FLIGHT")) ≡ o
    → complete_or_none o ≡ some c
    → Loaded e c
flying-Loaded e none c same w = cc
flying-Loaded e (some d) c same w =
    let (n, made, low) =
      with_in_flight-some (from_env e) (e (codes "MM3_MAX_IN_FLIGHT")) d (omega arith) same in
    let (whole, named) = completed d c w in
    let from = sym whole ∙ made in
    (
      subst (λ (x : Config). pos 1 ≤ℤ x.max_in_flight) (sym from) low,
      named,
      ap (λ (x : Config). x.admin_user) from,
      ap (λ (x : Config). x.admin_password) from,
    )

-- A configuration that loads allows at least one job in flight, names its address and folders, and
-- has no administrator but the one that the environment gives: without both halves of that
-- credential the static administrator cannot sign in.
pub load-Loaded :
    (e : Text → Text) (c : Config)
    → load e ≡ some c
    → Loaded e c
      × (admin_login_enabled c ≡ (
          not (is_empty (e (codes "ADMIN_USER"))) && not (is_empty (e (codes "ADMIN_PASSWORD")))))
unfolding load admin_login_enabled
load-Loaded e c h =
    let loaded =
      flying-Loaded e (with_in_flight (from_env e) (e (codes "MM3_MAX_IN_FLIGHT"))) c refl h in
    let (low, named, user, password) = loaded in
    (loaded, λ i. not (is_empty (user i)) && not (is_empty (password i)))
