-- ===== src/Prelude/Splitting.antt =====
-- Splitting a text at a byte and joining the pieces undo each other.
use Prim.Native.Nat.{ℕ}
use mathlib.Core.Path.{◌≡◌, refl, sym, ap, ◌∙◌}
use mathlib.Core.Bool.{false}
use mathlib.Core.List.{List, [], ◌∷◌, ◌++◌}
use minmaxmusic3_web.Prelude.Tests.{◌==◌, if_cases, ==_iff}
use native.Mathlib.Omega.{arith}
use minmaxmusic3_web.Prelude.Lists.{All}
use minmaxmusic3_web.Prelude.Bytes.{Text}
use minmaxmusic3_web.Prelude.Strings.{split_byte, join_byte, has_byte, joined, cut_here}

join-cut_here : (c : ℕ) (p : Text × List Text) → join_byte c (cut_here p) ≡ c ∷ join_byte c p
unfolding join_byte
join-cut_here c (piece, pieces) = refl

join-joined : (c b : ℕ) (p : Text × List Text) → join_byte c (joined b p) ≡ b ∷ join_byte c p
unfolding join_byte
join-joined c b (piece, []) = refl
join-joined c b (piece, x ∷ xs) = refl

pub join-split : (c : ℕ) (s : Text) → join_byte c (split_byte c s) ≡ s
unfolding split_byte join_byte
join-split c [] = refl
join-split c (b ∷ s) =
    if_cases (λ p. join_byte c p ≡ b ∷ s) (b == c) _ _
      (λ t.
        join-cut_here c (split_byte c s)
        ∙ ap (λ x. c ∷ x) (join-split c s)
        ∙ ap (λ x. x ∷ s) (sym ((==_iff b c).0 t)))
      (λ f. join-joined c b (split_byte c s) ∙ ap (λ x. b ∷ x) (join-split c s))

-- A text without the byte.
abbrev pub Free : ℕ → Text → Type 0
Free c s = has_byte c s ≡ false

split-append :
    (c : ℕ) (s t : Text)
    → Free c s
    → split_byte c (s ++ t) ≡ (s ++ (split_byte c t).0, (split_byte c t).1)
unfolding split_byte has_byte
split-append c [] t h = refl
split-append c (b ∷ s) t h =
    if_cases (λ p. p ≡ (b ∷ s ++ (split_byte c t).0, (split_byte c t).1)) (b == c) _ _
      (λ e. absurd (ground arith)) (λ f. ap (joined b) (split-append c s t (ground arith)))

pub split-join :
    (c : ℕ) (piece : Text) (pieces : List Text)
    → Free c piece
    → All (Free c) pieces
    → split_byte c (join_byte c (piece, pieces)) ≡ (piece, pieces)
unfolding join_byte split_byte has_byte
split-join c [] [] h hs = refl
split-join c (b ∷ piece) [] h hs =
    if_cases (λ p. p ≡ (b ∷ piece, [])) (b == c) _ _ (λ t. absurd (ground arith))
      (λ f. ap (joined b) (split-join c piece [] (ground arith) tt))
split-join c piece (p ∷ ps) h (hp, hps) =
    split-append c piece (c ∷ join_byte c (p, ps)) h
    ∙ if_cases
        (λ (x : Text × List Text). ◌≡◌ {A = Text × List Text} (piece ++ x.0, x.1) (piece, p ∷ ps))
        (c == c) _ _
        (λ t. λ i. (
          append_nil piece i,
          (ap (λ (x : Text × List Text). x.0 ∷ x.1) (split-join c p ps hp hps)) i,
        ))
        (λ f. absurd (ground arith))
  where
    append_nil : (t : Text) → t ++ [] ≡ t
    append_nil [] = refl
    append_nil (x ∷ t) = ap (λ y. x ∷ y) (append_nil t)

pub split_byte-Free :
    (c : ℕ) (s : Text) → Free c (split_byte c s).0 × All (Free c) (split_byte c s).1
unfolding split_byte has_byte
split_byte-Free c [] = (refl, tt)
split_byte-Free c (b ∷ s) =
    let (h, hs) = split_byte-Free c s in
    if_cases (λ (p : Text × List Text). Free c p.0 × All (Free c) p.1) (b == c) _ _
      (λ t. (refl, (h, hs))) (λ f. (ground arith, hs))
