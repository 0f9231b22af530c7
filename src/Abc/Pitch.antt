-- ===== src/Abc/Pitch.antt =====
-- internal/abc/transpose.go: the arithmetic of pitches, with Go's truncating division.
use minmaxmusic3_web.Prelude.{
  ℕ, suc, ◌+◌, ◌*◌, ◌/◌, ◌%◌, ◌<◌, ◌≡◌, ◌&&◌, not, arith, if◌then◌else◌, ℤ, pos, negsuc, pos_part,
  neg_part, sub_ℕ, ◌+ℤ◌, ◌-ℤ◌, ltb_ℤ, eq_ℤ,
}

-- -n
abbrev pub neg : ℕ → ℤ
neg n = sub_ℕ 0 n

-- Go's a / m and a % m round toward zero.
unfoldable pub go_quot : ℤ → (m : ℕ) → ℤ
go_quot (pos n) m = pos (n / m)
go_quot (negsuc n) m = neg (suc n / m)

unfoldable pub go_rem : ℤ → (m : ℕ) → ℤ
go_rem (pos n) m = pos (n % m)
go_rem (negsuc n) m = neg (suc n % m)

-- ((a % m) + m) % m
unfoldable pub mod_floor : ℤ → (m : ℕ) → ℤ
unfolding go_rem ◌+ℤ◌
mod_floor a m = go_rem (go_rem a m +ℤ pos m) m

unfoldable pub floor_div : ℤ → (m : ℕ) → ℤ
unfolding go_rem go_quot ◌-ℤ◌
floor_div a m =
    if ltb_ℤ a (pos 0) && not (eq_ℤ (go_rem a m) (pos 0)) then go_quot a m -ℤ pos 1 else go_quot a m

unfoldable pub wrap_alt : ℤ → ℤ
unfolding mod_floor ◌-ℤ◌
wrap_alt a = let r = mod_floor a 12 in if ltb_ℤ (pos 5) r then r -ℤ pos 12 else r

-- A position is seven times the octave that `floor_div` finds and the letter that `mod_floor`
-- finds, which is one of the seven, also below octave zero.
pub floor_div-mod :
    (a : ℤ)
    → (pos_part (mod_floor a 7) < 7)
      × (neg_part (mod_floor a 7) ≡ 0)
      × (pos_part a + 7 * neg_part (floor_div a 7)
          ≡ 7 * pos_part (floor_div a 7) + pos_part (mod_floor a 7) + neg_part a)
unfolding floor_div mod_floor go_quot go_rem ◌+ℤ◌ ◌-ℤ◌
floor_div-mod (pos n) = (ground arith, ground arith, ground arith)
floor_div-mod (negsuc n) = (ground arith, ground arith, ground arith)
