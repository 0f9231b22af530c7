-- ===== src/Runpod/Client.antt =====
-- internal/runpod/runpod.go: the client, with the network as an argument of each call.
use minmaxmusic3_web.Prelude.{
  ℕ, Bool, Option, none, some, [], ◌++◌, ◌==◌, if◌then◌else◌, Text, codes, trim_right, is_empty,
}
use minmaxmusic3_web.Runpod.Json.{Json, null, decode, names, into_text}
use minmaxmusic3_web.Runpod.Errors.{
  CallError, no_endpoint, no_api_key, no_job_id, api, decode_error, transport, truncate,
}

pub record Client : Type 0 where
  pub endpoint : Text
  pub api_key : Text

abbrev is_slash : ℕ → Bool
is_slash c = c == 47

-- strings.TrimRight(c.Endpoint, "/")
unfoldable pub base : Client → Text
base c = trim_right is_slash c.endpoint

-- How a call goes on the wire: no answer, or a status, a body, and the value that the body is the
-- text of, if it is JSON.
pub data Wire : Type 0 where
  no_answer : (cause : Text) → Wire
  answer : (status_code : ℕ) → (body : Text) → (value : Option Json) → Wire

pub data Outcome {ℓ} (A : Type ℓ) : Type ℓ where
  done : A → Outcome A
  failed_with : CallError → Outcome A

unfoldable pub check : Client → Outcome (Unit {0})
check c =
    if is_empty (base c)
    then failed_with no_endpoint
    else if is_empty c.api_key
    then failed_with no_api_key
    else done tt

-- The method do. `net` answers the address that is called; an answer that is no 200 is an error.
abbrev received : Wire → Outcome (Option Json)
received (no_answer cause) = failed_with (transport cause)
received (answer code body value) =
    if code == 200 then done value else failed_with (api code (truncate body))

unfoldable pub call : Client → (net : Text → Wire) → (path : Text) → Outcome (Option Json)
call c net path = elim (check c) [
  | failed_with e ↦ failed_with e
  | done u ↦ received (net (base c ++ path))
]

-- The body decodes into submitResponse.
pub record SubmitResponse : Type 0 where
  pub id : Text
  pub status : Text

abbrev set_submit : Text → Json → SubmitResponse → Option SubmitResponse
set_submit key v s =
    if names key (codes "id")
    then elim (into_text s.id v) [ none ↦ none | some t ↦ some (record s { id = t }) ]
    else if names key (codes "status")
    then elim (into_text s.status v) [ none ↦ none | some t ↦ some (record s { status = t }) ]
    else some s

abbrev decode_whole {ℓ} : {S : Type ℓ} → (Text → Json → S → Option S) → Option Json → S → Option S
decode_whole set none s = none
decode_whole set (some v) s = decode set v s

abbrev accepted : Option SubmitResponse → Outcome Text
accepted none = failed_with (decode_error (codes "/run") [])
accepted (some r) = if is_empty r.id then failed_with no_job_id else done r.id

unfoldable pub submit : Client → (net : Text → Wire) → Outcome Text
submit c net = elim (call c net (codes "/run")) [
  | failed_with e ↦ failed_with e
  | done value ↦ accepted (decode_whole set_submit value (record { id = []; status = [] }))
]

-- One poll result. `output` is none where the field is absent.
pub record StatusResponse : Type 0 where
  pub id : Text
  pub status : Text
  pub output : Option Json
  pub error : Json

abbrev set_status_field : Text → Json → StatusResponse → Option StatusResponse
set_status_field key v s =
    if names key (codes "id")
    then elim (into_text s.id v) [ none ↦ none | some t ↦ some (record s { id = t }) ]
    else if names key (codes "status")
    then elim (into_text s.status v) [ none ↦ none | some t ↦ some (record s { status = t }) ]
    else if names key (codes "output")
    then some (record s { output = some v })
    else if names key (codes "error")
    then some (record s { error = v })
    else some s

abbrev polled : Option StatusResponse → Outcome StatusResponse
polled none = failed_with (decode_error (codes "/status") [])
polled (some r) = done r

unfoldable pub status : Client → (net : Text → Wire) → (id : Text) → Outcome StatusResponse
status c net id = elim (call c net (codes "/status/" ++ id)) [
  | failed_with e ↦ failed_with e
  | done value ↦ polled (
      decode_whole set_status_field value
        (record { id = []; status = []; output = none; error = null }))
]
