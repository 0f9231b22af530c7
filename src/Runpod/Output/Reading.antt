-- ===== src/Runpod/Output/Reading.antt =====
-- internal/runpod/runpod.go, OutputOf: what a completed job's payload is read as.
use minmaxmusic3_web.Prelude.{
  ◌≡◌, refl, sym, ap, ◌∙◌, ◌≢◌, ◌⊎◌, inl, inr, true, false, none, some, [], arith, Text, codes,
  text_eq, is_empty, fold_byte, pos, eq_ℤ, is_empty-false,
}
use minmaxmusic3_web.Runpod.Json.{Json, str, obj, end, field, decode, decode_fields}
use minmaxmusic3_web.Runpod.Errors.{CallError}
use minmaxmusic3_web.Runpod.Client.{done, failed_with}
use minmaxmusic3_web.Runpod.Output.{
  Output, zero_output, inline_b64, set_output, set_texts, in_band_error, wrapped, recognised,
  unwrap, infer_delivery, settle, read_payload, then_finish, enveloped,
}

-- {"status": s, "output": x}
abbrev pub envelope : Text → Json → Json
envelope s x = obj (field (codes "status") (str s) (field (codes "output") x end))

read_recognised :
    (raw : Json) (o : Output)
    → in_band_error raw ≡ none
    → decode set_output raw zero_output ≡ some o
    → recognised o ≡ true
    → read_payload raw ≡ done (settle (infer_delivery o))
unfolding read_payload unwrap infer_delivery recognised
read_recognised raw o quiet decoded known =
    rw (quiet, read_payload) (rw decoded (rw (known, unwrap) (ground arith)))

finish_recognised :
    (o : Output) → recognised o ≡ true → then_finish (done o) ≡ done (settle (infer_delivery o))
unfolding infer_delivery recognised
finish_recognised o known = ground arith

read_loud :
    (raw : Json) (e : CallError) → in_band_error raw ≡ some e → read_payload raw ≡ failed_with e
unfolding read_payload
read_loud raw e h = rw (h, read_payload) refl

-- The payload `o` as it is accepted: the delivery is the stated one, else "s3" beside a link and
-- "base64" beside inline audio; the sampling rate is the canonical spelling's unless that is zero,
-- then the other's; and every other field is the payload's.
pub record Accepted (o o' : Output) : Type 0 where
  pub stated : o.delivery ≢ [] → o'.delivery ≡ o.delivery
  pub linked : o.delivery ≡ [] → o.audio_url ≢ [] → o'.delivery ≡ codes "s3"
  pub inlined : o.delivery ≡ [] → o.audio_url ≡ [] → o'.delivery ≡ codes "base64"
  pub canonical : eq_ℤ o.sampling_rate (pos 0) ≡ false → o'.sampling_rate ≡ o.sampling_rate
  pub other_rate : eq_ℤ o.sampling_rate (pos 0) ≡ true → o'.sampling_rate ≡ o.sample_rate
  pub kept : o' ≡ record o { delivery = o'.delivery; sampling_rate = o'.sampling_rate }

settle-Accepted : (o : Output) → recognised o ≡ true → Accepted o (settle (infer_delivery o))
unfolding infer_delivery recognised settle
settle-Accepted o known = record {
  stated = λ some_delivery. ground (arith, is_empty-false o.delivery some_delivery);
  linked =
      λ no_delivery link. ground (arith, ap is_empty no_delivery, is_empty-false o.audio_url link);
  inlined = λ no_delivery no_link. ground (arith, ap is_empty no_delivery, ap is_empty no_link);
  canonical = λ rate. ground arith;
  other_rate = λ no_rate. ground arith;
  kept = ground arith;
}

-- A payload that decodes, reports no error in band and names its audio by a delivery, a link or
-- inline audio is accepted. The delivery read is the one that it states, else "s3" for a link and
-- "base64" for inline audio; the sampling rate is `sampling_rate`, or `sample_rate` where that is
-- zero; every other field is read as it is.
pub payload_delivery :
    (raw : Json) (o : Output)
    → in_band_error raw ≡ none
    → decode set_output raw zero_output ≡ some o
    → recognised o ≡ true
    → (o' : Output) × (read_payload raw ≡ done o') × Accepted o o'
payload_delivery raw o quiet decoded known =
    (settle (infer_delivery o), read_recognised raw o quiet decoded known, settle-Accepted o known)

envelope_reads :
    (s : Text) (x : Json)
    → read_payload (envelope s x) ≡ then_finish (enveloped zero_output (some x))
unfolding read_payload in_band_error decode decode_fields text_eq fold_byte set_output set_texts
    unwrap wrapped recognised inline_b64
envelope_reads s x = refl

-- The handler's envelope makes no difference: a payload inside it is read as the payload alone,
-- where that reports an error in band or names its audio.
pub envelope_transparent :
    (s : Text) (x : Json) (o : Output)
    → ((e : CallError) × (in_band_error x ≡ some e))
      ⊎ ((in_band_error x ≡ none)
          × (decode set_output x zero_output ≡ some o)
          × (recognised o ≡ true))
    → read_payload (envelope s x) ≡ read_payload x
envelope_transparent s x o (inl (e, h)) =
    rw (envelope_reads s x) (rw (h, enveloped) (sym (read_loud x e h)))
envelope_transparent s x o (inr (quiet, decoded, known)) = rw (envelope_reads s x) (
    rw (quiet, enveloped)
      (rw decoded (finish_recognised o known ∙ sym (read_recognised x o quiet decoded known))))
