-- ===== src/Abc/Keys/Choice.antt =====
-- internal/abc/transpose.go: the choice among the spellings of one tonic.
use minmaxmusic3_web.Prelude.{
  ℕ, ◌<◌, ◌≡◌, refl, ap, subst, ◌⊎◌, Bool, true, false, ◌&&◌, ◌||◌, not, Option, none, some, arith,
  ltb, ◌==◌, Text, text_eq, ℤ, pos, ◌≤ℤ◌, leb_ℤ, eq_ℤ,
}
use minmaxmusic3_web.Abc.Pitch.{mod_floor, wrap_alt}
use minmaxmusic3_web.Abc.Keys.{
  Key, Answer, answer, parse_key, key_text, signature_of, abs, key_signatures, natural_pc, best_key,
  consider,
}
use minmaxmusic3_web.Abc.Keys.Landing.{
  tonic, same_bool, same_bool_sound, every_name, every_below, every_name-holds, every_below-holds,
  eq_ℤ-sound,
}

-- No accepted key `k` of the same tonic and mode with signature `m` beats `n`.
abbrev no_better : ℤ → Bool → ℤ → Answer Key → Option ℤ → Bool
no_better pc minor n (answer k) (some m) =
    not (eq_ℤ (tonic k (pos 0)) pc)
    || not (same_bool minor k.minor)
    || ltb (abs n) (abs m)
    || ((abs n == abs m) && leb_ℤ n m)
no_better pc minor n _ _ = true

abbrev no_better_name : ℤ → Bool → ℤ → Text → Bool
no_better_name pc minor n name =
    no_better pc minor n (parse_key name) (signature_of key_signatures name)

abbrev is_count : ℤ → Option ℤ → Bool
is_count n none = false
is_count n (some m) = eq_ℤ m n

abbrev chosen_well : ℤ → Bool → Option (Key × ℤ) → Bool
chosen_well pc minor (some (to, n)) =
    is_count n (signature_of key_signatures (key_text to))
    && eq_ℤ (tonic to (pos 0)) pc
    && same_bool minor to.minor
    && every_name (no_better_name pc minor n) key_signatures
chosen_well pc minor none = false

major_well : every_below 12 (λ i. chosen_well (pos i) false (best_key (pos i) false)) ≡ true
unfolding parse_key best_key consider wrap_alt mod_floor natural_pc key_text signature_of text_eq
    every_name every_below tonic
major_well = refl

minor_well : every_below 12 (λ i. chosen_well (pos i) true (best_key (pos i) true)) ≡ true
unfolding parse_key best_key consider wrap_alt mod_floor natural_pc key_text signature_of text_eq
    every_name every_below tonic
minor_well = refl

mode_well :
    (pc : ℕ) (minor : Bool) → pc < 12 → chosen_well (pos pc) minor (best_key (pos pc) minor) ≡ true
mode_well pc false below =
    every_below-holds 12 (λ i. chosen_well (pos i) false (best_key (pos i) false)) pc major_well
      below
mode_well pc true below =
    every_below-holds 12 (λ i. chosen_well (pos i) true (best_key (pos i) true)) pc minor_well below

-- An accepted key of the tonic has more accidentals, or as many and no more sharps.
abbrev pub Beaten : ℤ → Bool → ℤ → Type 0
Beaten pc minor n =
    (name : Text) (k : Key) (m : ℤ)
    → parse_key name ≡ answer k
    → signature_of key_signatures name ≡ some m
    → tonic k (pos 0) ≡ pc
    → k.minor ≡ minor
    → (abs n < abs m) ⊎ ((abs n ≡ abs m) × (n ≤ℤ m))

eq_ℤ-complete : (a b : ℤ) → a ≡ b → eq_ℤ a b ≡ true
eq_ℤ-complete a b e = rw e (ground arith)

same_bool_complete : (a b : Bool) → b ≡ a → same_bool a b ≡ true
same_bool_complete true b e = e
same_bool_complete false b e = rw e refl

beaten_by :
    (pc : ℤ) (minor : Bool) (n : ℤ) (k : Key) (m : ℤ)
    → no_better pc minor n (answer k) (some m) ≡ true
    → tonic k (pos 0) ≡ pc
    → k.minor ≡ minor
    → (abs n < abs m) ⊎ ((abs n ≡ abs m) × (n ≤ℤ m))
beaten_by pc minor n k m h same mode =
    let tonics = eq_ℤ-complete (tonic k (pos 0)) pc same in
    let modes = same_bool_complete minor k.minor mode in ground arith

is_count-some : (n : ℤ) (o : Option ℤ) → is_count n o ≡ true → o ≡ some n
is_count-some n none h = cc
is_count-some n (some m) h = ap some (eq_ℤ-sound m n h)

-- For each of the twelve tonics in either mode a key is chosen; it is accepted, has the tonic and
-- the mode, and no accepted key of that tonic and mode has fewer accidentals, nor as many with a
-- lower signature: of Gb and F# it is Gb.
pub fewest_accidentals :
    (pc : ℕ) (minor : Bool)
    → pc < 12
    → (to : Key) × (n : ℤ) × (best_key (pos pc) minor ≡ some (to, n))
      × (signature_of key_signatures (key_text to) ≡ some n)
      × (tonic to (pos 0) ≡ pos pc)
      × (to.minor ≡ minor)
      × Beaten (pos pc) minor n
fewest_accidentals pc minor below =
    of_best (best_key (pos pc) minor) refl (mode_well pc minor below)
  where
    of_best :
        (o : Option (Key × ℤ))
        → best_key (pos pc) minor ≡ o
        → chosen_well (pos pc) minor o ≡ true
        → (to : Key) × (n : ℤ) × (best_key (pos pc) minor ≡ some (to, n))
          × (signature_of key_signatures (key_text to) ≡ some n)
          × (tonic to (pos 0) ≡ pos pc)
          × (to.minor ≡ minor)
          × Beaten (pos pc) minor n
    of_best none same w = cc
    of_best (some (to, n)) same w = (
      to,
      n,
      same,
      is_count-some n (signature_of key_signatures (key_text to)) (ground arith),
      eq_ℤ-sound (tonic to (pos 0)) (pos pc) (ground arith),
      same_bool_sound minor to.minor (ground arith),
      λ name k m parsed named. beaten_by (pos pc) minor n k m (
          subst (λ a. no_better (pos pc) minor n a (some m) ≡ true) parsed
            (subst (λ o. no_better (pos pc) minor n (parse_key name) o ≡ true) named
              (every_name-holds (no_better_name (pos pc) minor n) key_signatures name m
                (ground arith) named))),
    )
