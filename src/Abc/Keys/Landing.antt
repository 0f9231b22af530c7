-- ===== src/Abc/Keys/Landing.antt =====
-- internal/abc/transpose.go: every accepted key lands in an accepted key.
use minmaxmusic3_web.Prelude.{
  ℕ, zero, suc, ◌≤◌, ◌<◌, ◌≡◌, refl, sym, ap, subst, inl, inr, Bool, true, false, ◌&&◌, not, Option,
  none, some, List, [], ◌∷◌, arith, ◌==◌, ==_iff, Bool-cases, Text, text_eq, text_eq_sound, ℤ, pos,
  negsuc, pos_part, neg_part, ◌+ℤ◌, eq_ℤ,
}
use minmaxmusic3_web.Abc.Pitch.{mod_floor, wrap_alt}
use minmaxmusic3_web.Abc.Keys.{
  Key, Interval, Answer, answer, refused, parse_key, target_key, move_key, key_text, signature_of,
  key_signatures, natural_pc, best_key, consider, steps_between,
}

-- The pitch class of the key's tonic, moved.
unfoldable pub tonic : Key → ℤ → ℤ
unfolding mod_floor natural_pc ◌+ℤ◌
tonic k semitones = mod_floor (natural_pc k.letter +ℤ k.alt +ℤ semitones) 12

abbrev is_name : Option ℤ → Bool
is_name none = false
is_name (some n) = true

abbrev pub same_bool : Bool → Bool → Bool
same_bool true b = b
same_bool false b = not b

abbrev same_key : Key → Key → Bool
same_key a b = (a.letter == b.letter) && eq_ℤ a.alt b.alt && same_bool a.minor b.minor

abbrev moved_to : Key → Answer Key → Bool
moved_to to (answer k) = same_key k to
moved_to to (refused e) = false

abbrev landed_well : Text → Key → ℤ → Answer (Key × Interval) → Bool
landed_well name from semitones (answer (to, iv)) =
    text_eq (key_text from) name
    && is_name (signature_of key_signatures (key_text to))
    && eq_ℤ (tonic to (pos 0)) (tonic from semitones)
    && same_bool from.minor to.minor
    && eq_ℤ iv.semitones semitones
    && moved_to to (move_key from iv)
landed_well name from semitones (refused e) = false

abbrev parsed_well : Text → ℤ → Answer Key → Bool
parsed_well name semitones (answer from) =
    landed_well name from semitones (target_key from semitones)
parsed_well name semitones (refused e) = false

abbrev well : Text → ℤ → Bool
well name semitones = parsed_well name semitones (parse_key name)

unfoldable pub every_name : (Text → Bool) → List (Text × ℤ) → Bool
every_name p [] = true
every_name p ((name, n) ∷ table) = p name && every_name p table

unfoldable pub every_below : ℕ → (ℕ → Bool) → Bool
every_below zero p = true
every_below (suc n) p = p n && every_below n p

pub every_name-holds :
    (p : Text → Bool) (table : List (Text × ℤ)) (name : Text) (n : ℤ)
    → every_name p table ≡ true
    → signature_of table name ≡ some n
    → p name ≡ true
unfolding every_name signature_of
every_name-holds p [] name n all found = cc
every_name-holds p ((m, k) ∷ table) name n all found = elim (Bool-cases (text_eq m name)) [
  | inl t ↦ subst (λ x. p x ≡ true) (text_eq_sound m name t) (ground arith)
  | inr f ↦ every_name-holds p table name n (ground arith) (ground arith)
]

pub every_below-holds : (n : ℕ) (p : ℕ → Bool) (i : ℕ) → every_below n p ≡ true → i < n → p i ≡ true
unfolding every_below
every_below-holds zero p i all below = absurd (omega arith)
every_below-holds (suc n) p i all below = elim (Bool-cases (n == i)) [
  | inl t ↦ subst (λ x. p x ≡ true) ((==_iff n i).0 t) (ground arith)
  | inr f ↦ every_below-holds n p i (ground arith) (ground arith)
]

up_well : every_below 12 (λ i. every_name (λ name. well name (pos i)) key_signatures) ≡ true
unfolding parse_key target_key best_key consider wrap_alt mod_floor steps_between natural_pc
    key_text signature_of text_eq move_key every_name every_below tonic
up_well = refl

down_well : every_below 11 (λ i. every_name (λ name. well name (negsuc i)) key_signatures) ≡ true
unfolding parse_key target_key best_key consider wrap_alt mod_floor steps_between natural_pc
    key_text signature_of text_eq move_key every_name every_below tonic
down_well = refl

-- What the tests above say of one key and one distance.
abbrev pub Lands : Text → ℤ → Type 0
Lands name semitones =
    (from : Key) × (to : Key) × (iv : Interval) × (n : ℤ) × (parse_key name ≡ answer from)
    × (key_text from ≡ name)
    × (target_key from semitones ≡ answer (to, iv))
    × (signature_of key_signatures (key_text to) ≡ some n)
    × (tonic to (pos 0) ≡ tonic from semitones)
    × (to.minor ≡ from.minor)
    × (iv.semitones ≡ semitones)
    × (move_key from iv ≡ answer to)

pub eq_ℤ-sound : (a b : ℤ) → eq_ℤ a b ≡ true → a ≡ b
eq_ℤ-sound a b h = ground arith

pub same_bool_sound : (a b : Bool) → same_bool a b ≡ true → b ≡ a
same_bool_sound true b h = h
same_bool_sound false true h = sym h
same_bool_sound false false h = refl

key-path : (a b : Key) → a.letter ≡ b.letter → a.alt ≡ b.alt → b.minor ≡ a.minor → a ≡ b
key-path a b l t m = λ i. record { letter = l i; alt = t i; minor = sym m i }

same_key_sound : (a b : Key) → same_key a b ≡ true → a ≡ b
same_key_sound a b h =
    key-path a b ((==_iff a.letter b.letter).0 (ground arith))
      (eq_ℤ-sound a.alt b.alt (ground arith)) (same_bool_sound a.minor b.minor (ground arith))

is_name-some : (o : Option ℤ) → is_name o ≡ true → (n : ℤ) × (o ≡ some n)
is_name-some none h = cc
is_name-some (some n) h = (n, refl)

moved_to_sound : (to : Key) (a : Answer Key) → moved_to to a ≡ true → a ≡ answer to
moved_to_sound to (answer k) h = ap answer (same_key_sound k to h)
moved_to_sound to (refused e) h = cc

well-Lands :
    (name : Text) (semitones : ℤ) (a : Answer Key)
    → parse_key name ≡ a
    → parsed_well name semitones a ≡ true
    → Lands name semitones
well-Lands name semitones (refused e) parsed h = cc
well-Lands name semitones (answer from) parsed h = of_target (target_key from semitones) refl h
  where
    of_target :
        (t : Answer (Key × Interval))
        → target_key from semitones ≡ t
        → landed_well name from semitones t ≡ true
        → Lands name semitones
    of_target (refused e) same w = cc
    of_target (answer (to, iv)) same w =
        let named = is_name-some (signature_of key_signatures (key_text to)) (ground arith) in
        (
          from,
          to,
          iv,
          named.0,
          parsed,
          text_eq_sound (key_text from) name (ground arith),
          same,
          named.1,
          eq_ℤ-sound (tonic to (pos 0)) (tonic from semitones) (ground arith),
          same_bool_sound from.minor to.minor (ground arith),
          eq_ℤ-sound iv.semitones semitones (ground arith),
          moved_to_sound to (move_key from iv) (ground arith),
        )

-- Every accepted key is read back as written and, moved by at most eleven semitones, lands in an
-- accepted key of the same mode whose tonic is that many semitones away, and the interval that is
-- fixed for the later keys of the score takes the key itself to where it landed.
pub accepted_key-Lands :
    (name : Text) (n : ℤ) (semitones : ℤ)
    → signature_of key_signatures name ≡ some n
    → pos_part semitones ≤ 11
    → neg_part semitones ≤ 11
    → Lands name semitones
accepted_key-Lands name n (pos i) named up down = well-Lands name (pos i) (parse_key name) refl (
    every_name-holds (λ m. well m (pos i)) key_signatures name n
      (every_below-holds 12 (λ j. every_name (λ m. well m (pos j)) key_signatures) i up_well
        (omega arith))
      named)
accepted_key-Lands name n (negsuc i) named up down =
    well-Lands name (negsuc i) (parse_key name) refl (
      every_name-holds (λ m. well m (negsuc i)) key_signatures name n
        (every_below-holds 11 (λ j. every_name (λ m. well m (negsuc j)) key_signatures) i down_well
          (omega arith))
        named)
