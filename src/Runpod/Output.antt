-- ===== src/Runpod/Output.antt =====
-- internal/runpod/runpod.go, OutputOf: the completion payload in its two shapes and for both engines.
pub mod Reading
use minmaxmusic3_web.Prelude.{
  Bool, false, ◌&&◌, not, Option, none, some, [], if◌then◌else◌, Text, codes, is_empty, ℤ, pos,
  eq_ℤ,
}
use minmaxmusic3_web.Runpod.Json.{
  Json, Number, of_int, decode, names, into_text, into_int, into_bool, into_number,
}
use minmaxmusic3_web.Runpod.Errors.{CallError, decode_error, worker_error}
use minmaxmusic3_web.Runpod.Client.{Outcome, done, failed_with, StatusResponse}

pub record Output : Type 0 where
  pub delivery : Text
  pub audio_url : Text
  pub format : Text
  pub sampling_rate : ℤ
  pub sample_rate : ℤ
  pub channels : ℤ
  pub duration : Number
  pub num_frames : ℤ
  pub seed : ℤ
  pub model : Text
  pub engine : Text
  pub audio_b64 : Text
  pub audio : Text
  pub score_abc_url : Text
  pub mode : Text
  pub cot : Text
  pub truncated : Bool

abbrev pub zero_output : Output
zero_output = record {
  delivery = [];
  audio_url = [];
  format = [];
  sampling_rate = pos 0;
  sample_rate = pos 0;
  channels = pos 0;
  duration = of_int (pos 0);
  num_frames = pos 0;
  seed = pos 0;
  model = [];
  engine = [];
  audio_b64 = [];
  audio = [];
  score_abc_url = [];
  mode = [];
  cot = [];
  truncated = false;
}

abbrev pub delivery_s3 : Text
delivery_s3 = codes "s3"

abbrev pub delivery_base64 : Text
delivery_base64 = codes "base64"

unfoldable pub inline_b64 : Output → Text
inline_b64 o = if is_empty o.audio_b64 then o.audio else o.audio_b64

abbrev store {ℓ κ} : {A : Type ℓ} {S : Type κ} → Option A → (A → S) → Option S
store none f = none
store (some a) f = some (f a)

set_texts : Text → Json → Output → Option Output
set_texts key v o =
    if names key (codes "delivery")
    then store (into_text o.delivery v) (λ t. record o { delivery = t })
    else if names key (codes "audio_url")
    then store (into_text o.audio_url v) (λ t. record o { audio_url = t })
    else if names key (codes "format")
    then store (into_text o.format v) (λ t. record o { format = t })
    else if names key (codes "model")
    then store (into_text o.model v) (λ t. record o { model = t })
    else if names key (codes "engine")
    then store (into_text o.engine v) (λ t. record o { engine = t })
    else if names key (codes "audio_base64")
    then store (into_text o.audio_b64 v) (λ t. record o { audio_b64 = t })
    else if names key (codes "audio")
    then store (into_text o.audio v) (λ t. record o { audio = t })
    else if names key (codes "score_abc_url")
    then store (into_text o.score_abc_url v) (λ t. record o { score_abc_url = t })
    else if names key (codes "mode")
    then store (into_text o.mode v) (λ t. record o { mode = t })
    else if names key (codes "cot")
    then store (into_text o.cot v) (λ t. record o { cot = t })
    else some o

-- A key names at most one field, so the order of the tests is of no account.
unfoldable pub set_output : Text → Json → Output → Option Output
unfolding set_texts
set_output key v o =
    if names key (codes "sampling_rate")
    then store (into_int o.sampling_rate v) (λ n. record o { sampling_rate = n })
    else if names key (codes "sample_rate")
    then store (into_int o.sample_rate v) (λ n. record o { sample_rate = n })
    else if names key (codes "channels")
    then store (into_int o.channels v) (λ n. record o { channels = n })
    else if names key (codes "num_frames")
    then store (into_int o.num_frames v) (λ n. record o { num_frames = n })
    else if names key (codes "seed")
    then store (into_int o.seed v) (λ n. record o { seed = n })
    else if names key (codes "duration")
    then store (into_number o.duration v) (λ n. record o { duration = n })
    else if names key (codes "truncated")
    then store (into_bool o.truncated v) (λ b. record o { truncated = b })
    else set_texts key v o

abbrev set_probe : Text → Json → Text → Option Text
set_probe key v old = if names key (codes "error") then into_text old v else some old

abbrev reported : Option Text → Option CallError
reported none = none
reported (some t) = if is_empty t then none else some (worker_error t)

-- An in-band failure message.
unfoldable pub in_band_error : Json → Option CallError
in_band_error raw = reported (decode set_probe raw [])

-- The handler's envelope, {"status": …, "output": …}.
pub record Wrapper : Type 0 where
  pub status : Text
  pub output : Option Json

abbrev set_wrapper : Text → Json → Wrapper → Option Wrapper
set_wrapper key v w =
    if names key (codes "status")
    then store (into_text w.status v) (λ t. record w { status = t })
    else if names key (codes "output")
    then some (record w { output = some v })
    else some w

abbrev inner_of : Option Wrapper → Option Json
inner_of none = none
inner_of (some w) = w.output

unfoldable pub wrapped : Json → Option Json
wrapped raw = inner_of (decode set_wrapper raw (record { status = []; output = none }))

unfoldable pub recognised : Output → Bool
unfolding inline_b64
recognised o = not (is_empty o.delivery && is_empty o.audio_url && is_empty (inline_b64 o))

abbrev merged : Text → Option Output → Outcome Output
merged path none = failed_with (decode_error path [])
merged path (some o) = done o

abbrev enveloped : Output → Option Json → Outcome Output
enveloped o none = done o
enveloped o (some inner) = elim (in_band_error inner) [
  | some e ↦ failed_with e
  | none ↦ merged (codes "output.output") (decode set_output inner o)
]

-- The payload itself, or what its envelope holds.
unfoldable pub unwrap : Json → Output → Outcome Output
unwrap raw o = if recognised o then done o else enveloped o (wrapped raw)

unfoldable pub infer_delivery : Output → Output
unfolding inline_b64
infer_delivery o =
    if not (is_empty o.delivery)
    then o
    else if not (is_empty o.audio_url)
    then record o { delivery = delivery_s3 }
    else if not (is_empty (inline_b64 o))
    then record o { delivery = delivery_base64 }
    else o

unfoldable pub settle : Output → Output
settle o = if eq_ℤ o.sampling_rate (pos 0) then record o { sampling_rate = o.sample_rate } else o

abbrev finished : Output → Outcome Output
finished o =
    if is_empty o.delivery
    then failed_with (decode_error (codes "output") (codes "no delivery field in completed output"))
    else done (settle o)

abbrev then_finish : Outcome Output → Outcome Output
then_finish (failed_with e) = failed_with e
then_finish (done o) = finished (infer_delivery o)

abbrev first_read : Json → Outcome Output → Outcome Output
first_read raw (failed_with e) = failed_with e
first_read raw (done o) = then_finish (unwrap raw o)

unfoldable pub read_payload : Json → Outcome Output
read_payload raw = elim (in_band_error raw) [
  | some e ↦ failed_with e
  | none ↦ first_read raw (merged (codes "output") (decode set_output raw zero_output))
]

unfoldable pub output_of : StatusResponse → Outcome Output
output_of sr = elim sr.output [
  | none ↦ failed_with (decode_error (codes "output") (codes "empty output"))
  | some raw ↦ read_payload raw
]
