-- ===== src/Abc/Notes/Spelling.antt =====
-- internal/abc/transpose.go: what the rewriter writes sounds as it means. A reader of a score is
-- described on its own: it keeps the accidentals of the bar by letter and octave.
use minmaxmusic3_web.Prelude.{
  ℕ, ◌+◌, ◌*◌, ◌<◌, ◌≡◌, refl, sym, ap, ◌∙◌, subst, inl, inr, Bool, true, false, ◌&&◌, ◌||◌, Option,
  none, some, ◌++◌, arith, ◌==◌, if◌then◌else◌, Bool-cases, Text, ℤ, pos, negsuc, pos_part,
  neg_part, ◌+ℤ◌, ◌-ℤ◌, ◌*ℤ◌, ltb_ℤ, eq_ℤ, int_laws,
}
use mathlib.Core.List.{append_assoc}
use minmaxmusic3_web.Abc.Pitch.{mod_floor, floor_div, floor_div-mod}
use minmaxmusic3_web.Abc.Keys.{answer, refused, unspelled_note, natural_pc, index_byte}
use minmaxmusic3_web.Abc.Keys.Landing.{eq_ℤ-sound}
use minmaxmusic3_web.Abc.Notes.{
  Rewriter, Head, touch, noted, read_head, note_letter, pitch_at, or_else, note_src, position,
  spell, spelled, written, is_written, accidental_text, note_text,
}
use minmaxmusic3_web.Abc.Notes.Printing.{no_mark, plain-Reads, sharpened-Reads}

abbrev pub Bar : Type 0
Bar = ℕ → ℤ → Option ℤ

-- An accidental holds for its letter at its octave or, to a loose reader, at every octave.
abbrev pub heard : (loose : Bool) → Option ℤ → ℕ → ℤ → Bar → Bar
heard loose none l o bar = bar
heard loose (some a) l o bar = λ i q. if (i == l) && (loose || eq_ℤ q o) then some a else bar i q

abbrev pub heard_head : (loose : Bool) → (ℕ → ℤ) → Bar → Option Head → Option (ℤ × Bar × Text)
heard_head loose sig bar none = none
heard_head loose sig bar (some h) = some (
  pitch_at h.letter h.octave (or_else h.explicit (or_else (bar h.letter h.octave) (sig h.letter))),
  heard loose h.explicit h.letter h.octave bar,
  h.rest,
)

-- The pitch of the note that a text begins with, in a key and a bar.
unfoldable pub read_pitch : (loose : Bool) → (ℕ → ℤ) → Bar → Text → Option (ℤ × Bar × Text)
unfolding pitch_at read_head
read_pitch loose sig bar s = heard_head loose sig bar (read_head s)

-- The rewriter's bar is the reader's.
abbrev pub SrcAgrees : Rewriter → Bar → Type 0
SrcAgrees r bar = (l : ℕ) (o : ℤ) → l < 7 → r.src_bar (position l o) ≡ bar l o

-- A letter that is not touched carries no accidental in the bar.
abbrev pub DstAgrees : Rewriter → Bar → Type 0
DstAgrees r bar = (l : ℕ) (o : ℤ) → r.dst_touched l ≡ false → bar l o ≡ none

pub note_letter-bound : (c : ℕ) (l : ℕ) (o : ℤ) → note_letter c ≡ some (l, o) → l < 7
unfolding note_letter index_byte
note_letter-bound c l o h = ground arith

position_parts :
    (l : ℕ) (o : ℤ)
    → pos_part (position l o) + 7 * neg_part o ≡ neg_part (position l o) + l + 7 * pos_part o
unfolding ◌+ℤ◌ ◌*ℤ◌
position_parts l o = ground arith

position_eq :
    (l i : ℕ) (o q : ℤ)
    → l < 7
    → i < 7
    → eq_ℤ (position i q) (position l o) ≡ ((i == l) && (false || eq_ℤ q o))
position_eq l i o q hl hi =
    let here = position_parts l o in let there = position_parts i q in ground arith

pub heard-Src :
    (r : Rewriter) (bar : Bar) (h : Head)
    → h.letter < 7
    → SrcAgrees r bar
    → SrcAgrees (note_src r h) (heard false h.explicit h.letter h.octave bar)
unfolding note_src
heard-Src r bar h below agrees = by_mark h.explicit
  where
    by_mark :
        (e : Option ℤ) (l : ℕ) (o : ℤ)
        → l < 7
        → noted (position h.letter h.octave) e r.src_bar (position l o)
          ≡ heard false e h.letter h.octave bar l o
    by_mark none l o hl = agrees l o hl
    by_mark (some a) l o hl = rw (position_eq h.letter l h.octave o below hl) (
        ap (λ x. if (l == h.letter) && (false || eq_ℤ o h.octave) then some a else x)
          (agrees l o hl))

sum_back_at : (n t dst : ℤ) → n +ℤ t +ℤ (dst -ℤ (n +ℤ t +ℤ pos 0)) ≡ dst
sum_back_at n t dst = grind int_laws

sum_back : (l : ℕ) (o dst : ℤ) → pitch_at l o (dst -ℤ pitch_at l o (pos 0)) ≡ dst
unfolding pitch_at
sum_back l o dst = sum_back_at (natural_pc l) (pos 12 *ℤ o) dst

-- What a reader of the text hears, and what the rewriter then still agrees on.
abbrev pub Sounds :
    (loose : Bool) → Rewriter → Bar → (pitch : ℤ) → (tail : Text) → Text × Rewriter → Type 0
Sounds loose r bar pitch tail w =
    (bar' : Bar) × (read_pitch loose r.dst_sig bar (w.0 ++ tail) ≡ some (pitch, bar', tail))
    × DstAgrees w.1 bar'
    × (w.1.src_bar ≡ r.src_bar)

touched-DstAgrees :
    (loose : Bool) (r : Rewriter) (bar : Bar) (l : ℕ) (o alt : ℤ)
    → DstAgrees r bar
    → DstAgrees (record r { dst_touched = touch l r.dst_touched }) (heard loose (some alt) l o bar)
touched-DstAgrees loose r bar l o alt agrees i q untouched = elim (Bool-cases (i == l)) [
  | inl t ↦ absurd (ground arith)
  | inr f ↦ rw f (agrees i q (ground arith))
]

written-Sounds :
    (loose : Bool) (r : Rewriter) (bar : Bar) (l : ℕ) (o alt : ℤ) (tail : Text)
    → l < 7
    → DstAgrees r bar
    → no_mark tail ≡ true
    → ltb_ℤ alt (negsuc 1) ≡ false
    → ltb_ℤ (pos 2) alt ≡ false
    → Sounds loose r bar (pitch_at l o alt) tail (written r l o alt)
unfolding read_pitch
written-Sounds loose r bar l o alt tail below agrees clean low high =
    by_test (is_written r l alt) refl
  where
    by_test :
        (b : Bool)
        → is_written r l alt ≡ b
        → Sounds loose r bar (pitch_at l o alt) tail (
            if b
            then (
              accidental_text alt ++ note_text l o,
              record r { dst_touched = touch l r.dst_touched },
            )
            else (note_text l o, r))
    by_test true t = (
      heard loose (some alt) l o bar,
      ap (read_pitch loose r.dst_sig bar) (append_assoc (accidental_text alt) (note_text l o) tail)
          ∙ ap (heard_head loose r.dst_sig bar) (sharpened-Reads alt l o tail below clean low high),
      touched-DstAgrees loose r bar l o alt agrees,
      refl,
    )
    by_test false f = (
      bar,
      ap (heard_head loose r.dst_sig bar) (plain-Reads l o tail below clean)
          ∙ ap (λ a. some (pitch_at l o a, bar, tail))
              (ap (λ b. or_else b (r.dst_sig l)) (agrees l o (ground arith))
                ∙ sym (eq_ℤ-sound alt (r.dst_sig l) (ground arith))),
      agrees,
      refl,
    )

spelled-Sounds :
    (loose : Bool) (r : Rewriter) (bar : Bar) (l : ℕ) (o alt : ℤ) (tail : Text)
    (w : Text × Rewriter)
    → l < 7
    → DstAgrees r bar
    → no_mark tail ≡ true
    → spelled r l o alt ≡ answer w
    → Sounds loose r bar (pitch_at l o alt) tail w
spelled-Sounds loose r bar l o alt tail w below agrees clean e =
    elim (Bool-cases (ltb_ℤ alt (negsuc 1) || ltb_ℤ (pos 2) alt)) [
      | inl t ↦ absurd (refused_not (rw t at e))
      | inr f ↦
          subst (Sounds loose r bar (pitch_at l o alt) tail) (answer_inj (rw f at e)) (
            written-Sounds loose r bar l o alt tail below agrees clean (ground arith)
              (ground arith))
    ]
  where
    refused_not : refused unspelled_note ≡ answer w → ⊥
    refused_not h = cc

    answer_inj : {v : Text × Rewriter} → answer v ≡ answer w → v ≡ w
    answer_inj h = cc

pub spell-Sounds :
    (loose : Bool) (r : Rewriter) (bar : Bar) (dst p : ℤ) (tail : Text) (w : Text × Rewriter)
    → DstAgrees r bar
    → no_mark tail ≡ true
    → spell r dst p ≡ answer w
    → Sounds loose r bar dst tail w
unfolding spell
spell-Sounds loose r bar dst p tail w agrees clean e =
    let l = pos_part (mod_floor p 7) in
    let o = floor_div p 7 in
    subst (λ x. Sounds loose r bar x tail w) (sum_back l o dst)
      (spelled-Sounds loose r bar l o (dst -ℤ pitch_at l o (pos 0)) tail w (floor_div-mod p).0
        agrees clean e)
