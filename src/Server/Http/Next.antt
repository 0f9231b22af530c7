-- ===== src/Server/Http/Next.antt =====
-- internal/server/access.go, safeNext: a sign-in never leads off the site.
use minmaxmusic3_web.Prelude.{
  ℕ, ◌≡◌, ◌⊎◌, true, false, some, [], ◌∷◌, ◌==◌, Text, codes, has_prefix,
}
use minmaxmusic3_web.Server.Http.{Url, Packages}

-- A path of this site: after its first slash comes neither a slash nor a backslash.
abbrev pub IsLocal : Text → Type 0
IsLocal t =
    (rest : Text) × (t ≡ 47 ∷ rest)
    × (has_prefix rest (codes "/") ≡ false)
    × (has_prefix rest (codes "\\") ≡ false)

-- What net/url says of EscapedPath: it decodes to Path, and decoding leaves a byte that is no
-- percent sign as it is; of a target that begins with a slash, an absolute path has an absolute
-- escaped form.
pub record Decodes (pk : Packages) : Type 0 where
  pub unescape : Text → Text
  pub decoded : (t : Text) (u : Url) → pk.parse_url t ≡ some u → unescape u.escaped_path ≡ u.path
  pub plain_byte : (c : ℕ) (s : Text) → (c == 37) ≡ false → unescape (c ∷ s) ≡ c ∷ unescape s
  pub rooted :
      (t : Text) (u : Url)
      → pk.parse_url t ≡ some u
      → has_prefix t (codes "/") ≡ true
      → has_prefix u.path (codes "/") ≡ true
      → (rest : Text) × (u.escaped_path ≡ 47 ∷ rest)

-- No target at all, or a path of this site.
abbrev pub OffOr : Text → Type 0
OffOr t = (t ≡ []) ⊎ IsLocal t
