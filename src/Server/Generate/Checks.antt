-- ===== src/Server/Generate/Checks.antt =====
-- internal/server/handlers.go: what passes the generate form.
use minmaxmusic3_web.Server.Http.{Request}
use minmaxmusic3_web.Config.{Config}
use minmaxmusic3_web.Server.Access.{UserContext, caller}
use minmaxmusic3_web.Store.Jobs.{new_row}
use minmaxmusic3_web.Prelude.{
  ℕ, ◌≡◌, refl, ◌⊎◌, inl, inr, Bool, true, false, ◌&&◌, ◌||◌, not, Option, List, [], ◌∷◌, ◌++◌,
  arith, leb, ◌==◌, if◌then◌else◌, Bool-cases, length, Text, text_eq, trim_space, has_prefix,
  is_empty, fold_case, any_row, cut_byte, rune_count,
}
use minmaxmusic3_web.Store.Rows.{engine_yue2, Job, Db, queued}
use minmaxmusic3_web.Server.Generate.{
  JobForm, validate, lyrics_problem, bad_tag_line, is_bad_line, tag_words, pieces_of, float_less,
  float_10, float_300, max_title, max_caption, job_form_of, job_of_form, JobReply, job_card,
}

-- The words that fit the engine: some, or none for an instrumental, which only YuE2 makes.
abbrev words_fit : JobForm → Bool
words_fit f =
    if is_empty f.lyrics then text_eq f.engine engine_yue2 && f.instrumental else not f.instrumental

-- What stands behind the first closing bracket.
unfoldable pub after_bracket : Text → Text
after_bracket [] = []
after_bracket (c ∷ s) = let rest = after_bracket s in if c == 93 then s else rest

-- The line begins with a section tag, in any case, and has text behind the tag's bracket.
abbrev pub tag_shares_line : Text → Bool
tag_shares_line line =
    let trim = trim_space (fold_case line) in
    any_row (has_prefix trim) tag_words && not (is_empty (trim_space (after_bracket trim)))

cut-after_bracket :
    (s : Text)
    → ((cut_byte 93 s).1 ≡ after_bracket s) × ((cut_byte 93 s).2 ≡ false → after_bracket s ≡ [])
unfolding cut_byte after_bracket
cut-after_bracket [] = (refl, λ none_left. refl)
cut-after_bracket (c ∷ s) = elim (Bool-cases (c == 93)) [
  | inl t ↦ rw t (refl, λ none_left. cc)
  | inr f ↦ rw f (cut-after_bracket s)
]

trim_space-nil : trim_space [] ≡ []
unfolding trim_space
trim_space-nil = refl

is_bad_line-shares : (line : Text) → is_bad_line line ≡ tag_shares_line line
unfolding is_bad_line
is_bad_line-shares line =
    let trim = trim_space (fold_case line) in
    let (after, none_left) = cut-after_bracket trim in
    elim (Bool-cases (cut_byte 93 trim).2) [
      | inl t ↦ ground (arith, after)
      | inr f ↦ rw (none_left f) (rw trim_space-nil (ground arith))
    ]

any_row-ext :
    {A : Type 0} (p q : A → Bool) (xs : List A)
    → ((x : A) → p x ≡ q x)
    → any_row p xs ≡ any_row q xs
unfolding any_row
any_row-ext p q [] same = refl
any_row-ext p q (x ∷ xs) same = rw (same x) (rw (any_row-ext p q xs same) refl)

pub bad_tag_line-shares :
    (lyrics : Text) → bad_tag_line lyrics ≡ any_row tag_shares_line (pieces_of lyrics)
unfolding bad_tag_line
bad_tag_line-shares lyrics =
    any_row-ext is_bad_line tag_shares_line (pieces_of lyrics) is_bad_line-shares

abbrev length_fits : JobForm → Bool
length_fits f =
    text_eq f.engine engine_yue2
    || (not (float_less f.duration float_10) && not (float_less float_300 f.duration))

-- Everything that a form must meet.
abbrev pub acceptable_form : JobForm → Bool
acceptable_form f =
    words_fit f
    && not (any_row tag_shares_line (pieces_of f.lyrics))
    && not (is_empty f.caption)
    && length_fits f
    && leb (rune_count f.title) max_title
    && leb (length f.caption) max_caption

lyrics_problem-exact :
    (f : JobForm) → is_empty (lyrics_problem f) ≡ (words_fit f && not (bad_tag_line f.lyrics))
unfolding lyrics_problem
lyrics_problem-exact f = ground arith

-- A form is accepted exactly if its words fit the engine, no line that begins with a section tag has
-- text behind the tag's bracket, it has a caption of at most 20000 bytes and a title of at most 120
-- runes, and on every engine but YuE2 its length is neither below 10 nor above 300 seconds, as the
-- comparisons of Go have it, which a NaN passes.
pub validate-exact : (f : JobForm) → is_empty (validate f) ≡ acceptable_form f
unfolding validate
validate-exact f = ground (arith, lyrics_problem-exact f, bad_tag_line-shares f.lyrics)

module _ (c : Config) (parse_float : Text → Option ℕ) (engines : List Text) (d : Db) (now : ℕ)
    (id : Text) (uc : Option UserContext) (r : Request) where
  abbrev pub asked_form : JobForm
  asked_form = job_form_of parse_float engines r

  -- The job of the form, for the caller.
  abbrev pub asked_job : Job
  asked_job = record (job_of_form asked_form) {
    id = id;
    state = queued;
    user_id = (caller uc).user_id;
    created_at = now;
  }

  -- Nothing changes, or the caller's job is added, of a form that may pass.
  abbrev pub Queues : Db × JobReply → Type 0
  Queues p =
      (p.0 ≡ d)
      ⊎ ((acceptable_form asked_form ≡ true)
          × (p.0 ≡ record d { jobs = d.jobs ++ new_row asked_job ∷ [] })
          × (p.1 ≡ job_card asked_job))
