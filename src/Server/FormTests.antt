-- ===== src/Server/FormTests.antt =====
-- internal/server/handlers.go: concrete forms.
use minmaxmusic3_web.Abc.Keys.{transpose_key}
use minmaxmusic3_web.Server.KeyPicker.{KeyOption, key_options, key_name}
use minmaxmusic3_web.Config.{Config}
use minmaxmusic3_web.Server.CoverJobs.Queued.{Covers}
use minmaxmusic3_web.Server.CoverJobs.{cover_song}
use minmaxmusic3_web.Server.Covers.{Files}
use minmaxmusic3_web.Prelude.{
  ℕ, ◌≡◌, refl, true, false, Option, none, some, [], ◌∷◌, ◌++◌, map, if◌then◌else◌, length, take,
  Text, codes, text_eq, decimal, is_empty, fold_byte, first, any_row, has_suffix,
}
use minmaxmusic3_web.Store.Rows.{engine_minimax}
use minmaxmusic3_web.Server.Http.{Request}
use minmaxmusic3_web.Server.Tests.{site_db, config, asked, as_bob, packages, fresh_token}
use minmaxmusic3_web.Server.Generate.{JobForm, validate, float_30, is_bad_line}
use minmaxmusic3_web.Server.Generate.Checks.{acceptable_form, validate-exact}
use minmaxmusic3_web.Server.Scores.{score_meta_of, rewrite_tempo}
use minmaxmusic3_web.Server.Scores.Tempo.{rewrite_tempo-score_meta_of}
use minmaxmusic3_web.Server.Edits.{edit_song}
use minmaxmusic3_web.Server.Edits.Sources.{Edits}

abbrev ballad : JobForm
ballad = record {
  lyrics = codes "[Verse]\nla la";
  caption = codes "slow pop";
  title = codes "Ballad";
  idea = [];
  duration = float_30;
  seed = none;
  engine = engine_minimax;
  cot = [];
  instrumental = false;
}

ballad_passes : validate ballad ≡ []
unfolding validate any_row fold_byte
ballad_passes = refl

validate_example : is_empty (validate ballad) ≡ acceptable_form ballad
validate_example = validate-exact ballad

tag_with_words : is_bad_line (codes "[Verse] la la") ≡ true
unfolding is_bad_line any_row fold_byte
tag_with_words = refl

abbrev typed : Text → Text
typed k =
    if text_eq k (codes "input")
    then codes "la la"
    else if text_eq k (codes "instructions")
    then codes "pop"
    else []

abbrev generate : Request
generate = asked (codes "/jobs") [] [] typed

abbrev no_floats : Text → Option ℕ
no_floats v = none

abbrev waltz : Text
waltz = codes "M:3/4\nQ:1/4=90\nK:G\nGAB"

abbrev fast_waltz : Text
fast_waltz = codes "M:3/4\nQ:1/4=145\nK:G\nGAB"

rewrite_tempo_example :
    ((score_meta_of fast_waltz).tempo ≡ decimal 145)
    × ((score_meta_of fast_waltz).key ≡ (score_meta_of waltz).key)
    × ((score_meta_of fast_waltz).meter ≡ (score_meta_of waltz).meter)
unfolding rewrite_tempo
rewrite_tempo_example = rewrite_tempo-score_meta_of waltz fast_waltz 145 refl

abbrev folders : Files
folders = record {
  join = λ a b. a ++ 47 ∷ b;
  dir = λ t. codes "/data";
  base = λ t. t;
  error_text = λ e. codes "store";
  openable = λ t. true;
}

-- A deployment that has YuE2.
abbrev yue2_config : Config
yue2_config = record config {
  yue2_endpoint = codes "e2";
  yue2_api_key = codes "key";
  public_url = codes "https://music.example/";
}

abbrev cover_asked : Request
cover_asked = asked (codes "/songs/s1/cover") (codes "s1") [] typed

cover_is_queued :
    length
      (cover_song packages folders yue2_config site_db 20
        (codes "j9")
        fresh_token
        fresh_token
        7
        (some as_bob)
        cover_asked
        none
        false).0.jobs
    ≡ 1
unfolding cover_song first any_row fold_byte
cover_is_queued = refl

edit_is_queued :
    length
      (edit_song site_db 20
        (codes "j9")
        7
        (some as_bob)
        (asked (codes "/songs/s1/edit") (codes "s1") [] typed)
        false).0.jobs
    ≡ 1
unfolding edit_song first any_row
edit_is_queued = refl

d_minor_up :
    map
      (λ (o : KeyOption). o.label)
      (take 1 (key_options (record { key = codes "Dm"; meter = []; tempo = [] })))
    ≡ codes "G♯ minor — 6 semitones up" ∷ []
unfolding key_options transpose_key key_name has_suffix
d_minor_up = refl
