-- ===== src/Server/RateLimit.antt =====
-- internal/server/ratelimit.go: the fixed-window limit of requests by client. The mutex makes each
-- call one step; times are nanoseconds.
use minmaxmusic3_web.Prelude.{
  ℕ, suc, ◌+◌, ◌-◌, ◌≤◌, min, ◌≡◌, refl, ap, inl, inr, Bool, true, false, ◌&&◌, List, [], ◌∷◌,
  arith, ltb, leb, if◌then◌else◌, Bool-cases, All, Text, text_eq, text_eq_sound, count_rows,
}

-- A missing key counts 0.
pub record Limiter : Type 0 where
  pub window : ℕ
  pub limit : ℕ
  pub counts : Text → ℕ
  pub reset_at : ℕ

-- The zero time is before every clock.
unfoldable pub new_limiter : (limit window : ℕ) → Limiter
new_limiter limit window = record { window = window; limit = limit; counts = λ k. 0; reset_at = 0 }

unfoldable pub renewed : Limiter → (now : ℕ) → Limiter
renewed l now =
    if ltb l.reset_at now then record l { counts = λ k. 0; reset_at = now + l.window } else l

abbrev pub counted : Text → (Text → ℕ) → Text → ℕ
counted key counts k = if text_eq k key then suc (counts k) else counts k

abbrev pub admit : Limiter → Text → Limiter × Bool
admit l key =
    if leb l.limit (l.counts key)
    then (l, false)
    else (record l { counts = counted key l.counts }, true)

unfoldable pub allow : Limiter → (now : ℕ) → (key : Text) → Limiter × Bool
unfolding renewed text_eq
allow l now key = admit (renewed l now) key

-- How many requests of `key` a run of calls lets through.
unfoldable pub allowed_for : (key : Text) → Limiter → List (ℕ × Text) → ℕ
unfolding text_eq allow
allowed_for key l [] = 0
allowed_for key l ((now, k) ∷ calls) =
    (if text_eq key k && (allow l now k).1 then 1 else 0) + allowed_for key (allow l now k).0 calls

in_window : (l : Limiter) (now : ℕ) → now ≤ l.reset_at → renewed l now ≡ l
unfolding renewed
in_window l now h = rw ltb-false refl
  where
    ltb-false : ltb l.reset_at now ≡ false
    ltb-false = ground arith

abbrev requests : Text → List (ℕ × Text) → ℕ
requests key calls = count_rows (λ (c : ℕ × Text). text_eq key c.1) calls

-- A step whose client has used up its limit, and one whose client has not.
full_step :
    (key k : Text) (l : Limiter) (asked rest : ℕ)
    → leb l.limit (l.counts k) ≡ true
    → rest ≡ min asked (l.limit - l.counts key)
    → (if text_eq key k && false then 1 else 0) + rest
      ≡ min (if text_eq key k then suc asked else asked) (l.limit - l.counts key)
full_step key k l asked rest t ih = elim (Bool-cases (text_eq key k)) [
  | inl same ↦ let equal = ap l.counts (text_eq_sound key k same) in ground arith
  | inr other ↦ ground arith
]

room_step :
    (key k : Text) (l : Limiter) (asked rest : ℕ)
    → leb l.limit (l.counts k) ≡ false
    → rest ≡ min asked (l.limit - counted k l.counts key)
    → (if text_eq key k && true then 1 else 0) + rest
      ≡ min (if text_eq key k then suc asked else asked) (l.limit - l.counts key)
room_step key k l asked rest f ih = elim (Bool-cases (text_eq key k)) [
  | inl same ↦ let equal = ap l.counts (text_eq_sound key k same) in ground arith
  | inr other ↦ ground arith
]

-- Within one window exactly the first requests of a client pass, up to what is left of its limit,
-- whatever other clients ask in between.
pub allowed_for_exact :
    (key : Text) (l : Limiter) (calls : List (ℕ × Text))
    → All (λ (c : ℕ × Text). c.0 ≤ l.reset_at) calls
    → allowed_for key l calls ≡ min (requests key calls) (l.limit - l.counts key)
unfolding allowed_for count_rows allow
allowed_for_exact key l [] h = ground arith
allowed_for_exact key l ((now, k) ∷ calls) h =
    rw (in_window l now h.0) (elim (Bool-cases (leb l.limit (l.counts k))) [
      | inl t ↦ rw t (full_step key k l _ _ t (allowed_for_exact key l calls h.1))
      | inr f ↦ rw f (
          room_step key k l _ _ f
            (allowed_for_exact key (record l { counts = counted k l.counts }) calls h.1))
    ])
