-- ===== src/Server/Site.antt =====
-- internal/server/server.go: what the server keeps between requests.
use minmaxmusic3_web.Store.Rows.{Db}
use minmaxmusic3_web.Server.RateLimit.{Limiter}

pub record Site : Type 0 where
  pub db : Db
  pub login_limiter : Limiter
  pub register_limiter : Limiter
  pub gen_limiter : Limiter
  pub assist_limiter : Limiter
  pub lyrics_limiter : Limiter
