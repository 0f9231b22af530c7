-- ===== src/Abc/Scores/Lines.antt =====
-- internal/abc/transpose.go: what a transposition does to the lines that are no music.
use minmaxmusic3_web.Prelude.{
  ◌≡◌, refl, sym, ap, ◌∙◌, subst, inl, inr, Bool, true, false, ◌&&◌, ◌||◌, not, List, [], ◌∷◌,
  arith, Bool-cases, if_cases, All, Text, codes, trim_space, has_prefix, is_empty, ℤ, pos, negsuc,
  ltb_ℤ, eq_ℤ, split_byte, split_byte-Free,
}
use minmaxmusic3_web.Abc.OneLine.{OneLine}
use minmaxmusic3_web.Abc.Scores.Breaks.{OneLines, rewrite_lines-OneLines, lines_of-joined_lines}
use minmaxmusic3_web.Abc.Notes.{Rewriter}
use minmaxmusic3_web.Abc.Scores.{
  Run, done, failed, panicked, spent, prepended, line, is_kept, is_field, rewrite_lines, lined,
  scored, transpose, rewrite, new_rewriter, max_semitones, joined_lines, lines_of, Refusal,
}

abbrev is_key_line : Text → Bool
is_key_line l = has_prefix (trim_space l) (codes "K:")

-- Blank lines, comments and the fields that are no key.
abbrev pub is_quiet : Text → Bool
is_quiet l =
    not (is_key_line l)
    && (is_empty (trim_space l) || has_prefix (trim_space l) (codes "%") || is_field (trim_space l))

-- Line by line: a key field for a key field, and a quiet line as it was.
abbrev pub KeepsLines : (before after : List Text) → Type 0
KeepsLines [] [] = Unit {0}
KeepsLines (l ∷ ls) (o ∷ os) =
    (is_key_line l ≡ true → has_prefix o (codes "K:") ≡ true)
    × (is_quiet l ≡ true → o ≡ l)
    × KeepsLines ls os
KeepsLines _ _ = ⊥

abbrev KeepsLine : Text → Text → Type 0
KeepsLine l o =
    (is_key_line l ≡ true → has_prefix o (codes "K:") ≡ true) × (is_quiet l ≡ true → o ≡ l)

done_inj : {A : Type 0} {x y : A} → done x ≡ done y → x ≡ y
done_inj h = cc

prefixed_key :
    (t : Run (Text × Rewriter)) (o : Text) (r : Rewriter)
    → prepended (codes "K:") t ≡ done (o, r)
    → has_prefix o (codes "K:") ≡ true
unfolding has_prefix
prefixed_key (done (k, r')) o r h =
    subst (λ (x : Text). has_prefix x (codes "K:") ≡ true)
      (ap (λ (p : Text × Rewriter). p.0) (done_inj h)) refl
prefixed_key (failed e) o r h = cc
prefixed_key panicked o r h = cc
prefixed_key spent o r h = cc

line-KeepsLine : (r r' : Rewriter) (l o : Text) (n : ℤ) → line r l n ≡ done (o, r') → KeepsLine l o
unfolding line
line-KeepsLine r r' l o n h = elim (Bool-cases (is_key_line l)) [
  | inl t ↦ (λ k. prefixed_key _ o r' (rw t at h), λ q. absurd (ground arith))
  | inr f ↦ (
    λ k. absurd (ground arith),
    λ q. sym (ap (λ (p : Text × Rewriter). p.0) (done_inj (rw (quiet-kept q) at (rw f at h)))),
  )
]
  where
    quiet-kept : is_quiet l ≡ true → is_kept r (trim_space l) ≡ true
    quiet-kept q = ground arith

lined-KeepsLines :
    (r : Rewriter) (l o : Text) (ls os : List Text) (t : Run (List Text × Rewriter))
    → KeepsLine l o
    → ((ks : List Text) (k : Rewriter) → t ≡ done (ks, k) → KeepsLines ls ks)
    → lined o t ≡ done (os, r)
    → KeepsLines (l ∷ ls) os
lined-KeepsLines r l o ls os (done (ks, k)) here rest h =
    subst (KeepsLines (l ∷ ls)) (ap (λ (p : List Text × Rewriter). p.0) (done_inj h))
      (here.0, here.1, rest ks k refl)
lined-KeepsLines r l o ls os (failed e) here rest h = cc
lined-KeepsLines r l o ls os panicked here rest h = cc
lined-KeepsLines r l o ls os spent here rest h = cc

rewrite_lines-KeepsLines :
    (r r' : Rewriter) (n : ℤ) (ls os : List Text)
    → rewrite_lines r n ls ≡ done (os, r')
    → KeepsLines ls os
unfolding rewrite_lines
rewrite_lines-KeepsLines r r' n [] os h =
    subst (KeepsLines []) (ap (λ (p : List Text × Rewriter). p.0) (done_inj h)) tt
rewrite_lines-KeepsLines r r' n (l ∷ ls) os h =
    of_line (λ k m ks. rewrite_lines-KeepsLines k m n ls ks) (line r l n) refl h
  where
    of_line :
        ((k m : Rewriter) (ks : List Text) → rewrite_lines k n ls ≡ done (ks, m) → KeepsLines ls ks)
        → (t : Run (Text × Rewriter)) → line r l n ≡ t
        → elim t as (λ x. Run (List Text × Rewriter)) [
          | done (out, k) ↦ lined out (rewrite_lines k n ls)
          | failed e ↦ failed e
          | panicked ↦ panicked
          | spent ↦ spent
        ]
          ≡ done (os, r')
        → KeepsLines (l ∷ ls) os
    of_line ih (done (o, k)) same h =
        lined-KeepsLines r' l o ls os (rewrite_lines k n ls) (line-KeepsLine r k l o n same)
          (λ ks m. ih k m ks) h
    of_line ih (failed e) same h = cc
    of_line ih panicked same h = cc
    of_line ih spent same h = cc

scored-done :
    (t : Run (List Text × Rewriter)) (out : Text)
    → scored t ≡ done out
    → (os : List Text) × (r : Rewriter) × (t ≡ done (os, r))
      × (out ≡ joined_lines os)
      × (r.keyed ≡ true)
scored-done (done (os, r)) out h =
    if_cases
      (λ (x : Run Text).
        x ≡ done out
        → (ps : List Text) × (q : Rewriter) × (◌≡◌ {A = Run (List Text × Rewriter)} (done (os, r))
            (done (ps, q)))
          × (out ≡ joined_lines ps)
          × (q.keyed ≡ true))
      r.keyed _ _ (λ t e. (os, r, refl, sym (done_inj e), t)) (λ f e. cc) h
scored-done (failed e) out h = cc
scored-done panicked out h = cc
scored-done spent out h = cc

-- A list of lines that holds none of the joints is what the joined text splits into.
rejoined :
    (l : Text) (ls os : List Text)
    → KeepsLines (l ∷ ls) os
    → All OneLine os
    → lines_of (joined_lines os) ≡ os
rejoined l ls [] keeps clean = absurd keeps
rejoined l ls (o ∷ os) keeps clean = lines_of-joined_lines o os clean

unbroken :
    (r k : Rewriter) (n : ℤ) (ls os : List Text)
    → All OneLine ls
    → rewrite_lines r n ls ≡ done (os, k)
    → All OneLine os
unbroken r k n ls os clean e = subst OneLines e (rewrite_lines-OneLines r n ls clean)

-- A score that is transposed by some semitones, not 0, has as many lines as before: a line that is
-- blank, a comment or a field other than the key is as it was, and a key field is written for each
-- key field.
pub transpose-KeepsLines :
    (score out : Text) (n : ℤ)
    → eq_ℤ n (pos 0) ≡ false
    → transpose score n ≡ done out
    → KeepsLines (lines_of score) (lines_of out)
unfolding transpose rewrite
transpose-KeepsLines score out n moved h =
    let low = ltb_ℤ n (negsuc 10) || ltb_ℤ (pos max_semitones) n in
    elim (Bool-cases low) [
      | inl t ↦ absurd (failed-not-done (rw t at h))
      | inr f ↦
          let (os, r, e, joined, keyed) =
            scored-done (rewrite_lines new_rewriter n (lines_of score)) out
              (rw moved at (rw f at h)) in
          let keeps = rewrite_lines-KeepsLines new_rewriter r n (lines_of score) os e in
          let clean = unbroken new_rewriter r n (lines_of score) os (split_byte-Free 10 score) e in
          subst (KeepsLines (lines_of score))
            (sym (
              ap lines_of joined
              ∙ rejoined (split_byte 10 score).0 (split_byte 10 score).1 os keeps clean))
            keeps
    ]
  where
    failed-not-done : {e : Refusal} {x : Text} → failed e ≡ done x → ⊥
    failed-not-done w = cc
