-- ===== src/Server/Edits/Asked.antt =====
-- internal/server/handlers.go, handleEditSong: the key, the tempo and the words that a form asks for.
use minmaxmusic3_web.Prelude.{
  ℕ, ◌≤◌, ◌≡◌, refl, sym, ap, ◌∙◌, subst, ◌≢◌, ◌⊎◌, inl, inr, true, false, ◌||◌, Option, none, some,
  [], ◌∷◌, arith, ltb, Bool-cases, Text, codes, text_eq, text_eq_sound, text_eq_complete,
  trim_space, is_empty, ℤ, pos, negsuc, ltb_ℤ, or_text, atoi,
}
use minmaxmusic3_web.Store.Rows.{Song}
use minmaxmusic3_web.Server.Http.{Request}
use minmaxmusic3_web.Server.Scores.{
  edited, with_tempo, at_tempo, edit_tempo, moved_then, by_shift, rewrite_tempo, edit_score_of,
  edit_words_of,
}
use minmaxmusic3_web.Abc.Scores.{Run, done, failed, panicked, spent, transpose}

-- The score in the key asked for: the source's where none or 0 is, and else the transposer's by a
-- whole number of semitones from -6 to 6.
abbrev pub InKey : Request → (abc base : Text) → Type 0
InKey r abc base =
    let v = trim_space (r.form (codes "transpose")) in
    (((v ≡ []) ⊎ (v ≡ codes "0")) × (base ≡ abc))
    ⊎ ((v ≢ [])
        × (v ≢ codes "0")
        × ((n : ℤ) × (atoi v ≡ some n)
            × (ltb_ℤ n (negsuc 5) ≡ false)
            × (ltb_ℤ (pos 6) n ≡ false)
            × (transpose abc n ≡ done base)))

-- That score at the tempo asked for: unchanged where none is, and else with the tempo, from 20 to
-- 400, written into it.
abbrev pub AtTempo : Request → (base score : Text) → Type 0
AtTempo r base score =
    let v = trim_space (r.form (codes "tempo")) in
    ((v ≡ []) × (score ≡ base))
    ⊎ ((v ≢ [])
        × ((n : ℕ) × (atoi v ≡ some (pos n))
            × (20 ≤ n)
            × (n ≤ 400)
            × (rewrite_tempo base n ≡ some score)))

-- A text that a form asks for, or the source's where it asks for none; never empty.
abbrev pub Worded : (asked source text : Text) → Type 0
Worded asked source text =
    (is_empty text ≡ false) × ((asked ≢ [] → text ≡ asked) × (asked ≡ [] → text ≡ source))

edited_inj : {a b : Text} → edited a ≡ edited b → a ≡ b
edited_inj h = cc

empty_text : (t : Text) → is_empty t ≡ true → t ≡ []
empty_text [] e = refl
empty_text (x ∷ t) e = cc

full_text : (t : Text) → is_empty t ≡ false → t ≢ []
full_text t e same = cc (e, ap is_empty same)

retimed :
    (base score v : Text) (n : ℕ) (m : Option Text)
    → with_tempo m ≡ edited score
    → rewrite_tempo base n ≡ m
    → rewrite_tempo base n ≡ some score
retimed base score v n none e h = cc
retimed base score v n (some t) e h = h ∙ ap some (edited_inj e)

at_tempo-Asked :
    (base score : Text) (o : Option ℤ)
    → at_tempo base o ≡ edited score
    → (n : ℕ) × (o ≡ some (pos n)) × (20 ≤ n) × (n ≤ 400) × (rewrite_tempo base n ≡ some score)
at_tempo-Asked base score none e = cc
at_tempo-Asked base score (some (negsuc n)) e = cc
at_tempo-Asked base score (some (pos n)) e = elim (Bool-cases (ltb n 20 || ltb 400 n)) [
  | inl t ↦ cc (rw t at e)
  | inr f ↦ (
    n,
    refl,
    ground arith,
    ground arith,
    retimed base score [] n (rewrite_tempo base n) (rw f at e) refl,
  )
]

edit_tempo-AtTempo :
    (r : Request) (base score : Text) → edit_tempo r base ≡ edited score → AtTempo r base score
unfolding edit_tempo
edit_tempo-AtTempo r base score e =
    elim (Bool-cases (is_empty (trim_space (r.form (codes "tempo"))))) [
      | inl t ↦
          inl (empty_text (trim_space (r.form (codes "tempo"))) t, sym (edited_inj (rw t at e)))
      | inr f ↦ inr (
        full_text (trim_space (r.form (codes "tempo"))) f,
        at_tempo-Asked base score (atoi (trim_space (r.form (codes "tempo")))) (rw f at e),
      )
    ]

-- The edited score: in the key asked for, and then at the tempo asked for.
abbrev pub Scored : Request → (abc score : Text) → Type 0
Scored r abc score = (base : Text) × InKey r abc base × AtTempo r base score

moved_then-Moved :
    (r : Request) (score : Text) (m : Run Text)
    → moved_then r m ≡ edited score
    → (base : Text) × (m ≡ done base) × AtTempo r base score
moved_then-Moved r score (done base) e = (base, refl, edit_tempo-AtTempo r base score e)
moved_then-Moved r score panicked e = cc
moved_then-Moved r score spent e = cc
moved_then-Moved r score (failed x) e = cc

by_shift-Moved :
    (r : Request) (abc score : Text) (o : Option ℤ)
    → by_shift r abc o ≡ edited score
    → (n : ℤ) × (base : Text) × (o ≡ some n)
      × (ltb_ℤ n (negsuc 5) ≡ false)
      × (ltb_ℤ (pos 6) n ≡ false)
      × (transpose abc n ≡ done base)
      × AtTempo r base score
by_shift-Moved r abc score none e = cc
by_shift-Moved r abc score (some n) e = elim (Bool-cases (ltb_ℤ n (negsuc 5) || ltb_ℤ (pos 6) n)) [
  | inl t ↦ cc (rw t at e)
  | inr f ↦
      let (base, moved, timed) = moved_then-Moved r score (transpose abc n) (rw f at e) in
      (n, base, refl, ground arith, ground arith, moved, timed)
]

pub edit_score_of-Scored :
    (r : Request) (abc score : Text) → edit_score_of r abc ≡ edited score → Scored r abc score
unfolding edit_score_of
edit_score_of-Scored r abc score e =
    elim (Bool-cases (is_empty (trim_space (r.form (codes "transpose"))))) [
      | inl t ↦ (
        abc,
        inl (inl (empty_text (trim_space (r.form (codes "transpose"))) t), refl),
        edit_tempo-AtTempo r abc score (rw t at e),
      )
      | inr f ↦ elim (Bool-cases (text_eq (trim_space (r.form (codes "transpose"))) (codes "0"))) [
        | inl t ↦ (
          abc,
          inl (inr (text_eq_sound (trim_space (r.form (codes "transpose"))) (codes "0") t), refl),
          edit_tempo-AtTempo r abc score (rw t at (rw f at e)),
        )
        | inr g ↦
            let (n, base, number, low, high, moved, timed) =
              by_shift-Moved r abc score (atoi (trim_space (r.form (codes "transpose"))))
                (rw g at (rw f at e)) in
            (
              base,
              inr (
                full_text (trim_space (r.form (codes "transpose"))) f,
                λ same. cc (
                  g,
                  text_eq_complete (trim_space (r.form (codes "transpose"))) (codes "0") same,
                ),
                (n, number, low, high, moved),
              ),
              timed,
            )
      ]
    ]

or_text-Worded :
    (asked source : Text)
    → is_empty (or_text asked source) ≡ false
    → Worded asked source (or_text asked source)
or_text-Worded [] source full = (full, ((λ h. absurd (h refl)), λ h. refl))
or_text-Worded (c ∷ asked) source full = (full, ((λ h. refl), λ h. cc))

pub edit_words_of-Worded :
    (r : Request) (src : Song) (style lyrics : Text)
    → edit_words_of r src ≡ inl (style, lyrics)
    → Worded (trim_space (r.form (codes "instructions"))) src.caption style
      × Worded (trim_space (r.form (codes "input"))) src.lyrics lyrics
unfolding edit_words_of
edit_words_of-Worded r src style lyrics e =
    let style' = or_text (trim_space (r.form (codes "instructions"))) src.caption in
    let lyrics' = or_text (trim_space (r.form (codes "input"))) src.lyrics in
    elim (Bool-cases (is_empty style')) [
      | inl t ↦ absurd (inr-not-inl _ _ (style, lyrics) refl (rw t at e))
      | inr f ↦ elim (Bool-cases (is_empty lyrics')) [
        | inl t ↦ absurd (inr-not-inl _ _ (style, lyrics) refl (rw t at (rw f at e)))
        | inr g ↦
            let same = inl_pair _ style' lyrics' style lyrics refl (rw g at (rw f at e)) in
            (
              subst (Worded (trim_space (r.form (codes "instructions"))) src.caption) same.0
                  (or_text-Worded (trim_space (r.form (codes "instructions"))) src.caption f),
              subst (Worded (trim_space (r.form (codes "input"))) src.lyrics) same.1
                  (or_text-Worded (trim_space (r.form (codes "input"))) src.lyrics g),
            )
      ]
    ]
  where
    inr-not-inl :
        (w : (Text × Text) ⊎ Text) (m : Text) (x : Text × Text) → w ≡ inr m → w ≡ inl x → ⊥
    inr-not-inl w m x g h = cc

    inl_pair :
        (w : (Text × Text) ⊎ Text) (a b c d : Text)
        → w ≡ inl (a, b)
        → w ≡ inl (c, d)
        → (a ≡ c) × (b ≡ d)
    inl_pair w a b c d g h = (cc, cc)
