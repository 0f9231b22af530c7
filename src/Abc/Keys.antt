-- ===== src/Abc/Keys.antt =====
-- internal/abc/transpose.go: the accepted keys, their names and signatures, and the choice of the
-- key that a transposition lands in. An index into `letters` is a number, an array of seven a
-- function of the index.
pub mod Choice
pub mod Landing
use minmaxmusic3_web.Prelude.{
  ℕ, zero, suc, ◌+◌, Bool, true, ◌&&◌, ◌||◌, Option, none, some, List, [], ◌∷◌, ◌++◌, ltb, ◌==◌,
  if◌then◌else◌, Text, codes, text_eq, trim_space, ℤ, pos, negsuc, pos_part, neg_part, ◌+ℤ◌, ◌-ℤ◌,
  ◌*ℤ◌, ltb_ℤ, leb_ℤ, has_prefix, eq_ℤ, drop,
}
use minmaxmusic3_web.Abc.Pitch.{neg, mod_floor, wrap_alt}

abbrev pub letters : Text
letters = codes "CDEFGAB"

-- strings.IndexByte, of a byte that is there.
unfoldable pub index_byte : Text → ℕ → ℕ
index_byte [] c = 0
index_byte (b ∷ s) c = let rest = index_byte s c in if b == c then 0 else suc rest

-- s[l : l+1]
unfoldable pub letter_at : Text → ℕ → Text
letter_at [] l = []
letter_at (b ∷ s) zero = b ∷ []
letter_at (b ∷ s) (suc l) = letter_at s l

-- naturalPC[l]
unfoldable pub natural_pc : ℕ → ℤ
natural_pc l =
    if l == 0
    then pos 0
    else if l == 1
    then pos 2
    else if l == 2
    then pos 4
    else if l == 3
    then pos 5
    else if l == 4
    then pos 7
    else if l == 5
    then pos 9
    else pos 11

abbrev pub key_signatures : List (Text × ℤ)
key_signatures =
    (codes "Cb", neg 7)
    ∷ (codes "Gb", neg 6)
    ∷ (codes "Db", neg 5)
    ∷ (codes "Ab", neg 4)
    ∷ (codes "Eb", neg 3)
    ∷ (codes "Bb", neg 2)
    ∷ (codes "F", neg 1)
    ∷ (codes "C", pos 0)
    ∷ (codes "G", pos 1)
    ∷ (codes "D", pos 2)
    ∷ (codes "A", pos 3)
    ∷ (codes "E", pos 4)
    ∷ (codes "B", pos 5)
    ∷ (codes "F#", pos 6)
    ∷ (codes "C#", pos 7)
    ∷ (codes "Abm", neg 7)
    ∷ (codes "Ebm", neg 6)
    ∷ (codes "Bbm", neg 5)
    ∷ (codes "Fm", neg 4)
    ∷ (codes "Cm", neg 3)
    ∷ (codes "Gm", neg 2)
    ∷ (codes "Dm", neg 1)
    ∷ (codes "Am", pos 0)
    ∷ (codes "Em", pos 1)
    ∷ (codes "Bm", pos 2)
    ∷ (codes "F#m", pos 3)
    ∷ (codes "C#m", pos 4)
    ∷ (codes "G#m", pos 5)
    ∷ (codes "D#m", pos 6)
    ∷ (codes "A#m", pos 7)
    ∷ []

-- key_signatures[s], with its `ok`.
unfoldable pub signature_of : List (Text × ℤ) → Text → Option ℤ
unfolding text_eq
signature_of [] s = none
signature_of ((name, n) ∷ table) s =
    let rest = signature_of table s in if text_eq name s then some n else rest

-- `alt` is -1, 0 or 1.
pub record Key : Type 0 where
  pub letter : ℕ
  pub alt : ℤ
  pub minor : Bool

-- ErrUnsupportedKey, a note or a chord that cannot be spelled, an interval out of bounds, a score
-- without a key. The texts are not modelled.
pub data Refusal : Type 0 where
  unsupported_key unspelled_note unspelled_chord out_of_bounds no_key_field : Refusal

pub data Answer {ℓ} (A : Type ℓ) : Type ℓ where
  answer : A → Answer A
  refused : Refusal → Answer A

-- The two cases of the switch, on what follows the letter.
abbrev pub key_of : ℕ → ℤ → Bool → Key
key_of l a m = record { letter = l; alt = a; minor = m }

abbrev key_tail : ℕ → Text → Key
key_tail l rest =
    if has_prefix rest (codes "#")
    then key_of l (pos 1) (text_eq (drop 1 rest) (codes "m"))
    else if has_prefix rest (codes "b")
    then key_of l (negsuc 0) (text_eq (drop 1 rest) (codes "m"))
    else key_of l (pos 0) (text_eq rest (codes "m"))

abbrev key_named : Text → Option ℤ → Answer Key
key_named (c ∷ rest) (some n) = answer (key_tail (index_byte letters c) rest)
key_named _ _ = refused unsupported_key

unfoldable pub parse_key : Text → Answer Key
unfolding trim_space has_prefix text_eq signature_of index_byte
parse_key s = key_named (trim_space s) (signature_of key_signatures (trim_space s))

abbrev pub alt_text : ℤ → Text
alt_text a = if eq_ℤ a (pos 1) then codes "#" else if eq_ℤ a (negsuc 0) then codes "b" else []

-- The String method.
unfoldable pub key_text : Key → Text
unfolding letter_at
key_text k = letter_at letters k.letter ++ alt_text k.alt ++ (if k.minor then codes "m" else [])

-- keySignatures[k.String()], 0 where the table has no such key.
unfoldable pub signature_count : Key → ℤ
unfolding key_text signature_of
signature_count k = elim (signature_of key_signatures (key_text k)) [ some n ↦ n | none ↦ pos 0 ]

-- One of the two loops: sig[...] = alt for the first n letters of an order.
unfoldable pub altered : (order : Text) → (alt : ℤ) → (n : ℕ) → (ℕ → ℤ) → ℕ → ℤ
altered order alt zero sig l = sig l
altered [] alt (suc n) sig l = sig l
altered (c ∷ order) alt (suc n) sig l =
    altered order alt n (λ i. if i == index_byte letters c then alt else sig i) l

unfoldable pub signature : Key → ℕ → ℤ
unfolding signature_count altered
signature k =
    let n = signature_count k in
    altered (codes "BEADGCF") (negsuc 0) (neg_part n)
      (altered (codes "FCGDAEB") (pos 1) (pos_part n) (λ l. pos 0))

abbrev pub abs : ℤ → ℕ
abs n = pos_part n + neg_part n

pub record Interval : Type 0 where
  pub semitones : ℤ
  pub steps : ℤ

abbrev is_single : ℤ → Bool
is_single a = leb_ℤ (negsuc 0) a && leb_ℤ a (pos 1)

-- Whether the candidate replaces the best so far.
abbrev pub is_better : ℤ → Option (Key × ℤ) → Bool
is_better n none = true
is_better n (some (k, m)) = ltb (abs n) (abs m) || ((abs n == abs m) && ltb_ℤ n (pos 0))

abbrev considered : Key → Option ℤ → Option (Key × ℤ) → Option (Key × ℤ)
considered cand none best = best
considered cand (some n) best = if is_better n best then some (cand, n) else best

-- One turn of the loop over the letters.
unfoldable pub consider : (pc : ℤ) → (minor : Bool) → (l : ℕ) → Option (Key × ℤ) → Option (Key × ℤ)
unfolding wrap_alt natural_pc ◌-ℤ◌ key_text signature_of
consider pc minor l best =
    let alt = wrap_alt (pc -ℤ natural_pc l) in
    let cand = key_of l alt minor in
    if is_single alt
    then considered cand (signature_of key_signatures (key_text cand)) best
    else best

unfoldable pub best_key : (pc : ℤ) → (minor : Bool) → Option (Key × ℤ)
unfolding consider
best_key pc minor = consider pc minor 6 (
    consider pc minor 5 (
      consider pc minor 4 (
        consider pc minor 3
          (consider pc minor 2 (consider pc minor 1 (consider pc minor 0 none))))))

-- One turn of the loop over d - 7 and d + 7.
abbrev pub closer : (semitones : ℤ) → (s steps : ℤ) → ℤ
closer semitones s steps =
    if ltb (abs (pos 12 *ℤ s -ℤ pos 7 *ℤ semitones)) (abs (pos 12 *ℤ steps -ℤ pos 7 *ℤ semitones))
    then s
    else steps

unfoldable pub steps_between : (from to : ℕ) → (semitones : ℤ) → ℤ
unfolding mod_floor ◌-ℤ◌ ◌+ℤ◌ ◌*ℤ◌
steps_between from to semitones =
    let d = mod_floor (pos to -ℤ pos from) 7 in
    closer semitones (d +ℤ pos 7) (closer semitones (d -ℤ pos 7) d)

abbrev landed : Key → ℤ → Option (Key × ℤ) → Answer (Key × Interval)
landed from semitones none = refused unsupported_key
landed from semitones (some (best, n)) = answer (
  best,
  record { semitones = semitones; steps = steps_between from.letter best.letter semitones },
)

unfoldable pub target_key : (from : Key) → (semitones : ℤ) → Answer (Key × Interval)
unfolding best_key steps_between mod_floor natural_pc ◌+ℤ◌
target_key from semitones =
    landed from semitones
      (best_key (mod_floor (natural_pc from.letter +ℤ from.alt +ℤ semitones) 12) from.minor)

abbrev accepted : Key → Option ℤ → Answer Key
accepted moved none = refused unsupported_key
accepted moved (some n) = answer moved

unfoldable pub move_key : Key → Interval → Answer Key
unfolding mod_floor wrap_alt natural_pc ◌+ℤ◌ ◌-ℤ◌ key_text signature_of
move_key k iv =
    let l = pos_part (mod_floor (pos k.letter +ℤ iv.steps) 7) in
    let alt = wrap_alt (natural_pc k.letter +ℤ k.alt +ℤ iv.semitones -ℤ natural_pc l) in
    let moved = key_of l alt k.minor in
    if is_single alt
    then accepted moved (signature_of key_signatures (key_text moved))
    else refused unsupported_key

abbrev transposed_key : ℤ → Answer Key → Answer Text
transposed_key semitones (refused e) = refused e
transposed_key semitones (answer from) = elim (target_key from semitones) [
  | refused e ↦ refused e
  | answer (to, iv) ↦ answer (key_text to)
]

unfoldable pub transpose_key : Text → (semitones : ℤ) → Answer Text
unfolding parse_key target_key key_text
transpose_key k semitones = transposed_key semitones (parse_key k)
