-- ===== src/Runpod/Json.antt =====
-- encoding/json, as internal/runpod/runpod.go uses it: a value that was read, and the decoding of
-- one into a field of a Go struct. A key names a field up to ASCII case, a null leaves the field as
-- it is, a value of another kind is an error, and of several keys the last one stands.
use minmaxmusic3_web.Prelude.{ℕ, Bool, Option, none, some, Text, text_eq, fold_case, ℤ}

-- A number literal: one that is an int64, or another one by its bits as a float64.
mutual
  pub data Json : Type 0 where
    null : Json
    bool : Bool → Json
    int : ℤ → Json
    frac : ℕ → Json
    str : Text → Json
    arr : Items → Json
    obj : Fields → Json

  pub data Items : Type 0 where
    nil : Items
    cons : Json → Items → Items

  pub data Fields : Type 0 where
    end : Fields
    field : Text → Json → Fields → Fields

-- A float64 field.
pub data Number : Type 0 where
  of_int : ℤ → Number
  of_bits : ℕ → Number

-- Each decoder takes what the field holds.
abbrev pub into_text : Text → Json → Option Text
into_text old null = some old
into_text old (str s) = some s
into_text old _ = none

abbrev pub into_int : ℤ → Json → Option ℤ
into_int old null = some old
into_int old (int n) = some n
into_int old _ = none

abbrev pub into_bool : Bool → Json → Option Bool
into_bool old null = some old
into_bool old (bool b) = some b
into_bool old _ = none

abbrev pub into_number : Number → Json → Option Number
into_number old null = some old
into_number old (int n) = some (of_int n)
into_number old (frac b) = some (of_bits b)
into_number old _ = none

abbrev pub names : Text → Text → Bool
names key name = text_eq (fold_case key) name

-- Decoding an object into a struct: `set` stores a key's value, or fails on its kind.
unfoldable pub decode_fields {ℓ} :
    {S : Type ℓ} → (Text → Json → S → Option S) → Fields → S → Option S
decode_fields set end s = some s
decode_fields set (field k v fs) s = elim (set k v s) [
  | none ↦ none
  | some s' ↦ decode_fields set fs s'
]

-- json.Unmarshal into a struct; none is an error.
unfoldable pub decode {ℓ} : {S : Type ℓ} → (Text → Json → S → Option S) → Json → S → Option S
unfolding decode_fields
decode set null s = some s
decode set (obj fs) s = decode_fields set fs s
decode set _ s = none
