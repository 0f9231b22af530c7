-- ===== src/Prelude/Strings.antt =====
-- The pieces of packages strings and strconv that the server uses, on byte lists.
use Prim.Native.Nat.{ℕ, zero, suc, ◌+◌, ◌*◌, ◌-◌, ◌^◌}
use mathlib.Core.Bool.{Bool, true, false, ◌&&◌, ◌||◌}
use mathlib.Core.Option.{Option, none, some}
use mathlib.Core.List.{List, [], ◌∷◌, ◌++◌}
use minmaxmusic3_web.Prelude.Tests.{◌==◌, ltb, leb, if◌then◌else◌}
use minmaxmusic3_web.Prelude.Lists.{length, drop}
use minmaxmusic3_web.Prelude.Int.{ℤ, pos, sub_ℕ}
use minmaxmusic3_web.Prelude.Bytes.{Text, is_empty, has_prefix, text_eq, fold_case, trim_right}

-- strings.Contains
unfoldable pub contains : Text → Text → Bool
unfolding has_prefix
contains [] p = is_empty p
contains (c ∷ s) p = has_prefix (c ∷ s) p || contains s p

unfoldable pub has_byte : ℕ → Text → Bool
has_byte c [] = false
has_byte c (b ∷ s) = (b == c) || has_byte c s

-- strings.ContainsAny
unfoldable pub contains_any : Text → (chars : Text) → Bool
unfolding has_byte
contains_any [] chars = false
contains_any (c ∷ s) chars = has_byte c chars || contains_any s chars

-- strings.HasSuffix
unfoldable pub has_suffix : Text → Text → Bool
unfolding text_eq
has_suffix s p = leb (length p) (length s) && text_eq (drop (length s - length p) s) p

-- strings.EqualFold, of ASCII texts.
unfoldable pub equal_fold : Text → Text → Bool
unfolding text_eq
equal_fold s t = text_eq (fold_case s) (fold_case t)

-- cmp.Or
abbrev pub or_text : Text → Text → Text
or_text s t = if is_empty s then t else s

-- strings.Trim of a cutset of one byte, and TrimRight.
unfoldable pub trim_right_byte : ℕ → Text → Text
unfolding trim_right
trim_right_byte c s = trim_right (λ b. b == c) s

abbrev pub is_digit : ℕ → Bool
is_digit c = leb 48 c && leb c 57

-- The digits of a number that is not empty.
unfoldable pub digits : ℕ → Text → Option ℕ
digits n [] = some n
digits n (c ∷ s) = let rest = digits (n * 10 + (c - 48)) s in if is_digit c then rest else none

abbrev in_range : ℕ → (up : ℕ) → (ℕ → ℤ) → Option ℤ
in_range n up sign = if ltb n up then some (sign n) else none

abbrev ranged : (up : ℕ) → (ℕ → ℤ) → Option ℕ → Option ℤ
ranged up sign none = none
ranged up sign (some n) = in_range n up sign

abbrev unsigned : (up : ℕ) → (ℕ → ℤ) → Text → Option ℤ
unsigned up sign s = if is_empty s then none else ranged up sign (digits 0 s)

-- strconv.Atoi and ParseInt of base ten at 64 bits; none is any error.
unfoldable pub atoi : Text → Option ℤ
unfolding digits
atoi [] = none
atoi (c ∷ s) =
    if c == 45
    then unsigned (2 ^ 63 + 1) (λ n. sub_ℕ 0 n) s
    else if c == 43
    then unsigned (2 ^ 63) pos s
    else unsigned (2 ^ 63) pos (c ∷ s)

-- strings.Split by one byte: the first piece, and the others.
abbrev pub joined : ℕ → Text × List Text → Text × List Text
joined c (piece, pieces) = (c ∷ piece, pieces)

abbrev pub cut_here : Text × List Text → Text × List Text
cut_here (piece, pieces) = ([], piece ∷ pieces)

unfoldable pub split_byte : ℕ → Text → Text × List Text
split_byte c [] = ([], [])
split_byte c (b ∷ s) = let rest = split_byte c s in if b == c then cut_here rest else joined b rest

-- strings.Join of them.
unfoldable pub join_byte : ℕ → Text × List Text → Text
join_byte c (piece, []) = piece
join_byte c (piece, p ∷ ps) = piece ++ c ∷ join_byte c (p, ps)

-- strings.Cut at one byte, with its `found`.
abbrev cut_after : ℕ → Text × Text × Bool → Text × Text × Bool
cut_after b (before, after, found) = (b ∷ before, after, found)

unfoldable pub cut_byte : ℕ → Text → Text × Text × Bool
cut_byte c [] = ([], [], false)
cut_byte c (b ∷ s) = let rest = cut_byte c s in if b == c then ([], s, true) else cut_after b rest

-- Whether a byte is from `lo` to `hi`.
abbrev within : (lo hi : ℕ) → ℕ → Bool
within lo hi b = leb lo b && leb b hi

-- Whether a text begins with so many bytes that continue a UTF-8 sequence.
abbrev continues : ℕ → Text → Bool
continues zero s = true
continues (suc n) [] = false
continues (suc n) (b ∷ s) = within 128 191 b && continues n s

abbrev next_within : (lo hi : ℕ) → (more : ℕ) → Text → Bool
next_within lo hi more [] = false
next_within lo hi more (b ∷ s) = within lo hi b && continues more s

-- How many further bytes belong to the rune that begins with the byte `b`; an invalid byte stands
-- for a rune of its own.
abbrev rune_tail : (b : ℕ) → Text → ℕ
rune_tail b s =
    if within 194 223 b
    then (if continues 1 s then 1 else 0)
    else if within 224 239 b
    then (if next_within (if b == 224 then 160 else 128) (if b == 237 then 159 else 191) 1 s
        then 2
        else 0)
    else if within 240 244 b
    then (if next_within (if b == 240 then 144 else 128) (if b == 244 then 143 else 191) 2 s
        then 3
        else 0)
    else 0

-- The runes of a text after the `skip` bytes that a rune has left.
abbrev runes_after : (skip : ℕ) → Text → ℕ
runes_after skip [] = 0
runes_after zero (b ∷ s) = suc (runes_after (rune_tail b s) s)
runes_after (suc n) (b ∷ s) = runes_after n s

-- len([]rune(s))
unfoldable pub rune_count : Text → ℕ
rune_count s = runes_after 0 s
