-- ===== src/Server/Scores/Tempo.antt =====
-- internal/server/handlers.go, rewriteTempo: the tempo that an edit writes is the one that is shown.
use minmaxmusic3_web.Server.Generate.{pieces_of}
use minmaxmusic3_web.Prelude.{
  ℕ, zero, suc, ◌+◌, ◌/◌, ◌%◌, ◌≤◌, ◌≡◌, refl, sym, ap, subst, inl, inr, Bool, true, false, ◌&&◌,
  Option, none, some, List, [], ◌∷◌, arith, leb, if◌then◌else◌, Bool-cases, if_cases, drop, All,
  Text, codes, is_space, trim_left, trim_right, trim_space, has_prefix, decimal, is_empty, has_byte,
  split_byte, join_byte, cut_byte, Free, split_byte-Free, decimal_from, split-join,
}
use minmaxmusic3_web.Server.Scores.{
  ScoreMeta, first_header, read_header, read_headers, tempo_line, tempo_lines, score_meta_of,
  rewrite_tempo, joined_pieces, then_line, no_meta,
}

-- A text without white space.
abbrev IsSolid : Text → Type 0
IsSolid s = All (λ c. is_space c ≡ false) s

trim_right-IsSolid : (s : Text) → IsSolid s → trim_right is_space s ≡ s
unfolding trim_right
trim_right-IsSolid [] h = refl
trim_right-IsSolid (c ∷ s) (h, hs) = rw (trim_right-IsSolid s hs) (kept s)
  where
    kept : (t : Text) → (if is_empty t && is_space c then [] else c ∷ t) ≡ c ∷ t
    kept [] = rw h refl
    kept (b ∷ t) = refl

trim_space-IsSolid : (s : Text) → IsSolid s → trim_space s ≡ s
unfolding trim_space trim_left
trim_space-IsSolid [] h = refl
trim_space-IsSolid (c ∷ s) (h, hs) = rw h (trim_right-IsSolid (c ∷ s) (h, hs))

solid-Free : (s : Text) → IsSolid s → Free 10 s
unfolding has_byte
solid-Free [] h = refl
solid-Free (c ∷ s) (h, hs) = ground (arith, solid-Free s hs)

digit-IsSolid : (n : ℕ) → n ≤ 9 → is_space (48 + n) ≡ false
digit-IsSolid n h = ground arith

abbrev IsNumeral : Text → Type 0
IsNumeral s = IsSolid s × (is_empty s ≡ false)

decimal_from-IsSolid : (f n : ℕ) (out : Text) → IsSolid out → IsSolid (decimal_from f n out)
unfolding decimal_from
decimal_from-IsSolid zero n out h = h
decimal_from-IsSolid (suc f) n out h =
    if_cases IsSolid (leb n 9) _ _ (λ t. (digit-IsSolid n (ground arith), h))
      (λ g.
        decimal_from-IsSolid f (n / 10) ((48 + n % 10) ∷ out)
          (digit-IsSolid (n % 10) (omega arith), h))

decimal_from-some :
    (f n : ℕ) (out : Text) → is_empty out ≡ false → is_empty (decimal_from f n out) ≡ false
unfolding decimal_from
decimal_from-some zero n out h = h
decimal_from-some (suc f) n out h =
    if_cases (λ (t : Text). is_empty t ≡ false) (leb n 9) _ _ (λ t. refl)
      (λ g. decimal_from-some f (n / 10) ((48 + n % 10) ∷ out) refl)

decimal-IsNumeral : (n : ℕ) → IsNumeral (decimal n)
unfolding decimal decimal_from
decimal-IsNumeral n = (
  decimal_from-IsSolid (suc n) n [] tt,
  if_cases (λ (t : Text). is_empty t ≡ false) (leb n 9) _ _ (λ t. refl)
      (λ g. decimal_from-some n (n / 10) ((48 + n % 10) ∷ []) refl),
)

tempo_line-IsSolid : (n : ℕ) → IsSolid (tempo_line n)
tempo_line-IsSolid n = (refl, (refl, (refl, (refl, (refl, (refl, (decimal-IsNumeral n).0))))))

-- Two readings that agree but for the tempo, of which the second has one.
abbrev Retimed : (t : Text) → ScoreMeta → ScoreMeta → Type 0
Retimed t m k = (k.key ≡ m.key) × (k.meter ≡ m.meter) × (k.tempo ≡ t)

read_header-Retimed :
    (t l : Text) (m k : ScoreMeta)
    → is_empty t ≡ false
    → Retimed t m k
    → Retimed t (read_header m l) (read_header k l)
unfolding read_header
read_header-Retimed t l m k some_text (a, b, c) =
    let line = trim_space l in
    elim (Bool-cases (has_prefix line (codes "K:"))) [
      | inl h ↦ rw h (ap (λ x. first_header x (drop 2 line)) a, b, c)
      | inr h ↦ rw h (elim (Bool-cases (has_prefix line (codes "M:"))) [
        | inl g ↦ rw g (a, ap (λ x. first_header x (drop 2 line)) b, c)
        | inr g ↦ rw g (elim (Bool-cases (has_prefix line (codes "Q:"))) [
          | inl q ↦ rw q (a, b, stays)
          | inr q ↦ rw q (a, b, c)
        ])
      ])
    ]
  where
    stays : first_header k.tempo (cut_byte 61 (trim_space l)).1 ≡ t
    stays = rw c (rw some_text refl)

read_headers-Retimed :
    (t : Text) (ls : List Text) (m k : ScoreMeta)
    → is_empty t ≡ false
    → Retimed t m k
    → Retimed t (read_headers m ls) (read_headers k ls)
unfolding read_headers
read_headers-Retimed t [] m k some_text h = h
read_headers-Retimed t (l ∷ ls) m k some_text h =
    read_headers-Retimed t ls (read_header m l) (read_header k l) some_text
      (read_header-Retimed t l m k some_text h)

tempo_prefix :
    (s : Text)
    → has_prefix s (codes "Q:") ≡ true
    → (has_prefix s (codes "K:") ≡ false) × (has_prefix s (codes "M:") ≡ false)
unfolding has_prefix
tempo_prefix [] h = cc
tempo_prefix (c ∷ s) h = (ground arith, ground arith)

read_tempo :
    (l : Text) (m : ScoreMeta)
    → has_prefix (trim_space l) (codes "Q:") ≡ true
    → read_header m l ≡ record m { tempo = first_header m.tempo (cut_byte 61 (trim_space l)).1 }
unfolding read_header
read_tempo l m q =
    let (no_key, no_meter) = tempo_prefix (trim_space l) q in rw (no_key, no_meter, q) refl

-- The new line sets the tempo; the old one was a tempo line too.
at_tempo_line :
    (n : ℕ) (l : Text) (m : ScoreMeta)
    → has_prefix (trim_space l) (codes "Q:") ≡ true
    → is_empty m.tempo ≡ true
    → Retimed (decimal n) (read_header m l) (read_header m (tempo_line n))
unfolding read_header has_prefix cut_byte
at_tempo_line n l m q clear = rw (trim_space-IsSolid (tempo_line n) (tempo_line-IsSolid n)) (
  ap (λ (x : ScoreMeta). x.key) (sym (read_tempo l m q)),
  ap (λ (x : ScoreMeta). x.meter) (sym (read_tempo l m q)),
  rw clear (trim_space-IsSolid (decimal n) (decimal-IsNumeral n).0),
)

read_other :
    (l : Text) (m : ScoreMeta)
    → has_prefix (trim_space l) (codes "Q:") ≡ false
    → (read_header m l).tempo ≡ m.tempo
unfolding read_header
read_other l m f =
    if_cases (λ (x : ScoreMeta). x.tempo ≡ m.tempo) (has_prefix (trim_space l) (codes "K:")) _ _
      (λ t. refl)
      (λ g.
        if_cases (λ (x : ScoreMeta). x.tempo ≡ m.tempo) (has_prefix (trim_space l) (codes "M:")) _ _
          (λ t. refl) (λ h. rw f refl))

some_inj : {a b : List Text} → some a ≡ some b → a ≡ b
some_inj h = cc

tempo_lines-Retimed :
    (n : ℕ) (ls os : List Text) (m : ScoreMeta)
    → is_empty m.tempo ≡ true
    → tempo_lines n ls ≡ some os
    → Retimed (decimal n) (read_headers m ls) (read_headers m os)
unfolding read_headers tempo_lines
tempo_lines-Retimed n [] os m clear h = cc
tempo_lines-Retimed n (l ∷ ls) os m clear h =
    elim (Bool-cases (has_prefix (trim_space l) (codes "Q:"))) [
      | inl q ↦
          subst (λ x. Retimed (decimal n) (read_headers (read_header m l) ls) (read_headers m x))
            (some_inj (rw q at h))
            (read_headers-Retimed (decimal n) ls (read_header m l) (read_header m (tempo_line n))
              (decimal-IsNumeral n).1 (at_tempo_line n l m q clear))
      | inr f ↦
          later
            (λ ks.
              tempo_lines-Retimed n ls ks (read_header m l)
                (subst (λ x. is_empty x ≡ true) (sym (read_other l m f)) clear))
            (tempo_lines n ls) refl (rw f at h)
    ]
  where
    later :
        ((ks : List Text)
          → tempo_lines n ls ≡ some ks
          → Retimed
              (decimal n)
              (read_headers (read_header m l) ls)
              (read_headers (read_header m l) ks))
        → (o : Option (List Text)) → tempo_lines n ls ≡ o
        → then_line l o ≡ some os
        → Retimed (decimal n) (read_headers (read_header m l) ls) (read_headers m os)
    later ih none same e = cc
    later ih (some ks) same e =
        subst (λ x. Retimed (decimal n) (read_headers (read_header m l) ls) (read_headers m x))
          (some_inj e) (ih ks same)

-- No line gets a line break.
tempo_lines-Free :
    (n : ℕ) (ls os : List Text) → All (Free 10) ls → tempo_lines n ls ≡ some os → All (Free 10) os
unfolding tempo_lines
tempo_lines-Free n [] os clean h = cc
tempo_lines-Free n (l ∷ ls) os (here, clean) h =
    elim (Bool-cases (has_prefix (trim_space l) (codes "Q:"))) [
      | inl q ↦
          subst (All (Free 10)) (some_inj (rw q at h))
            (solid-Free (tempo_line n) (tempo_line-IsSolid n), clean)
      | inr f ↦ later (λ ks. tempo_lines-Free n ls ks clean) (tempo_lines n ls) refl (rw f at h)
    ]
  where
    later :
        ((ks : List Text) → tempo_lines n ls ≡ some ks → All (Free 10) ks)
        → (o : Option (List Text)) → tempo_lines n ls ≡ o
        → then_line l o ≡ some os
        → All (Free 10) os
    later ih none same e = cc
    later ih (some ks) same e = subst (All (Free 10)) (some_inj e) (here, ih ks same)

abbrev is_some_line : List Text → Bool
is_some_line [] = false
is_some_line (l ∷ ls) = true

tempo_lines-some : (n : ℕ) (ls os : List Text) → tempo_lines n ls ≡ some os → is_some_line os ≡ true
unfolding tempo_lines
tempo_lines-some n [] os h = cc
tempo_lines-some n (l ∷ ls) os h =
    if_cases (λ (x : Option (List Text)). x ≡ some os → is_some_line os ≡ true)
      (has_prefix (trim_space l) (codes "Q:")) _ _
      (λ t e. subst (λ x. is_some_line x ≡ true) (some_inj e) refl) (λ f. later (tempo_lines n ls))
      h
  where
    later : (o : Option (List Text)) → then_line l o ≡ some os → is_some_line os ≡ true
    later none e = cc
    later (some ks) e = subst (λ x. is_some_line x ≡ true) (some_inj e) refl

rejoined :
    (os : List Text) (out : Text)
    → All (Free 10) os
    → is_some_line os ≡ true
    → joined_pieces (some os) ≡ some out
    → pieces_of out ≡ os
unfolding split_byte join_byte
rejoined [] out clean some_line h = cc
rejoined (l ∷ ls) out (here, clean) some_line h =
    subst (λ x. pieces_of x ≡ l ∷ ls) (text_inj h)
      (ap (λ (p : Text × List Text). p.0 ∷ p.1) (split-join 10 l ls here clean))
  where
    text_inj : {a b : Text} → some a ≡ some b → a ≡ b
    text_inj e = cc

-- A score that gets a tempo then shows that tempo, in decimal, and the key and the meter that it
-- showed before.
pub rewrite_tempo-score_meta_of :
    (abc out : Text) (bpm : ℕ)
    → rewrite_tempo abc bpm ≡ some out
    → ((score_meta_of out).tempo ≡ decimal bpm)
      × ((score_meta_of out).key ≡ (score_meta_of abc).key)
      × ((score_meta_of out).meter ≡ (score_meta_of abc).meter)
unfolding rewrite_tempo score_meta_of
rewrite_tempo-score_meta_of abc out bpm h = of_lines (tempo_lines bpm (pieces_of abc)) refl h
  where
    of_lines :
        (o : Option (List Text))
        → tempo_lines bpm (pieces_of abc) ≡ o
        → joined_pieces o ≡ some out
        → ((score_meta_of out).tempo ≡ decimal bpm)
          × ((score_meta_of out).key ≡ (score_meta_of abc).key)
          × ((score_meta_of out).meter ≡ (score_meta_of abc).meter)
    of_lines none same e = cc
    of_lines (some os) same e =
        let (key, meter, tempo) =
          subst
            (λ ls.
              Retimed (decimal bpm) (read_headers no_meta (pieces_of abc))
                (read_headers no_meta ls))
            (sym (
              rejoined os out
                (tempo_lines-Free bpm (pieces_of abc) os (split_byte-Free 10 abc) same)
                (tempo_lines-some bpm (pieces_of abc) os same) e))
            (tempo_lines-Retimed bpm (pieces_of abc) os no_meta refl same) in
        (tempo, key, meter)
