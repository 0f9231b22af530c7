-- ===== src/Prelude/Bytes.antt =====
-- Go strings as lists of bytes, their equality and the pieces of package strings that are used.
use Prim.Native.Nat.{ℕ, zero, suc, ◌+◌, ◌/◌, ◌%◌}
use Prim.Native.Char.{code}
use Prim.Native.String.{String}
use mathlib.Core.Path.{◌≡◌, refl}
use mathlib.Core.Bool.{Bool, true, false, ◌&&◌, ◌||◌}
use mathlib.Core.Logic.{◌≢◌}
use mathlib.Core.List.{List, [], ◌∷◌, map}
use native.Mathlib.Omega.{arith}
use minmaxmusic3_web.Prelude.Tests.{◌==◌, leb, if◌then◌else◌}

abbrev pub Text : Type 0
Text = List ℕ

-- A literal.
abbrev pub codes : String → Text
codes String.[] = []
codes (String.◌∷◌ c s) = code c ∷ codes s

unfoldable pub text_eq : Text → Text → Bool
text_eq [] [] = true
text_eq (a ∷ s) (b ∷ t) = (a == b) && text_eq s t
text_eq _ _ = false

pub text_eq_sound : (s t : Text) → text_eq s t ≡ true → s ≡ t
unfolding text_eq
text_eq_sound [] [] h = refl
text_eq_sound [] (b ∷ t) h = cc
text_eq_sound (a ∷ s) [] h = cc
text_eq_sound (a ∷ s) (b ∷ t) h = ground (arith, text_eq_sound s t)

pub text_eq_refl : (s : Text) → text_eq s s ≡ true
unfolding text_eq
text_eq_refl [] = refl
text_eq_refl (a ∷ s) = ground (arith, text_eq_refl s)

pub text_eq_complete : (s t : Text) → s ≡ t → text_eq s t ≡ true
text_eq_complete s t e = rw e (text_eq_refl t)

-- s == ""
pub text_eq-false : (s t : Text) → s ≢ t → text_eq s t ≡ false
text_eq-false s t apart = decided (text_eq s t) refl
  where
    decided : (b : Bool) → text_eq s t ≡ b → text_eq s t ≡ false
    decided true e = absurd (apart (text_eq_sound s t e))
    decided false e = e

abbrev pub is_empty : Text → Bool
is_empty [] = true
is_empty (a ∷ s) = false

pub is_empty-false : (s : Text) → s ≢ [] → is_empty s ≡ false
is_empty-false [] full = absurd (full refl)
is_empty-false (c ∷ s) full = refl

-- ASCII folding, as SQLite's NOCASE collation does it.
unfoldable pub fold_byte : ℕ → ℕ
fold_byte c = if leb 65 c && leb c 90 then c + 32 else c

abbrev pub fold_case : Text → Text
fold_case = map fold_byte

-- unicode.IsSpace on a byte: tab, newline, vertical tab, form feed, return, blank.
abbrev pub is_space : ℕ → Bool
is_space c = (leb 9 c && leb c 13) || c == 32

unfoldable pub trim_left : (ℕ → Bool) → Text → Text
trim_left p [] = []
trim_left p (c ∷ s) = if p c then trim_left p s else c ∷ s

-- A tail that is all cut bytes goes.
unfoldable pub trim_right : (ℕ → Bool) → Text → Text
trim_right p [] = []
trim_right p (c ∷ s) = let rest = trim_right p s in if is_empty rest && p c then [] else c ∷ rest

-- strings.TrimSpace, where all white space is ASCII.
unfoldable pub trim_space : Text → Text
unfolding trim_left trim_right
trim_space s = trim_right is_space (trim_left is_space s)

unfoldable pub has_prefix : Text → Text → Bool
has_prefix s [] = true
has_prefix [] (p ∷ ps) = false
has_prefix (c ∷ s) (p ∷ ps) = (c == p) && has_prefix s ps

-- %d of a number: its decimal digits, with as much fuel as the number.
unfoldable pub decimal_from : (fuel : ℕ) → ℕ → Text → Text
decimal_from zero n out = out
decimal_from (suc f) n out =
    let rest = decimal_from f (n / 10) ((48 + n % 10) ∷ out) in
    if leb n 9 then (48 + n) ∷ out else rest

unfoldable pub decimal : ℕ → Text
unfolding decimal_from
decimal n = decimal_from (suc n) n []
