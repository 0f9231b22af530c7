-- ===== src/Runpod/Tests.antt =====
-- The payload reader at concrete payloads of both engines.
use minmaxmusic3_web.Prelude.{◌≡◌, refl, inr, codes, text_eq, fold_byte}
use minmaxmusic3_web.Runpod.Json.{Json, str, obj, end, field, decode, decode_fields}
use minmaxmusic3_web.Runpod.Client.{done}
use minmaxmusic3_web.Runpod.Output.{
  Output, zero_output, set_output, in_band_error, recognised, read_payload,
}
use minmaxmusic3_web.Runpod.Output.Reading.{
  envelope, payload_delivery, Accepted, envelope_transparent,
}

-- {"audio_url": "u"}, as YuE2 answers.
abbrev yue2_payload : Json
yue2_payload = obj (field (codes "audio_url") (str (codes "u")) end)

abbrev yue2_output : Output
yue2_output = record zero_output { audio_url = codes "u" }

payload_delivery_example :
    (o' : Output) × (read_payload yue2_payload ≡ done o') × Accepted yue2_output o'
unfolding in_band_error decode decode_fields set_output recognised text_eq fold_byte
payload_delivery_example = payload_delivery yue2_payload yue2_output refl refl refl

envelope_example :
    read_payload (envelope (codes "success") yue2_payload) ≡ read_payload yue2_payload
unfolding in_band_error decode decode_fields set_output recognised text_eq fold_byte
envelope_example =
    envelope_transparent (codes "success") yue2_payload yue2_output (inr (refl, refl, refl))
