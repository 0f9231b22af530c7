-- ===== src/Runpod/Errors.antt =====
-- internal/runpod/runpod.go: the errors of a call, and how the worker's retry decisions read them.
use minmaxmusic3_web.Prelude.{
  ℕ, ◌≡◌, refl, Bool, true, false, ◌||◌, ◌++◌, arith, ltb, ◌==◌, if◌then◌else◌, length, take, Text,
  codes, decimal, is_empty,
}

pub data CallError : Type 0 where
  no_endpoint no_api_key no_job_id : CallError
  -- Error: a non-2xx response.
  api : (status_code : ℕ) → (body : Text) → CallError
  -- DecodeError and WorkerError. The cause is empty where encoding/json words it.
  decode_error : (path cause : Text) → CallError
  worker_error : (message : Text) → CallError
  -- Whatever net/http or encoding/json reported besides.
  transport : (cause : Text) → CallError

-- The Error methods.
unfoldable pub error_message : CallError → Text
error_message no_endpoint = codes "runpod: no endpoint configured (set RUNPOD_ENDPOINT)"
error_message no_api_key = codes "runpod: no API key configured (set RUNPOD_API_KEY)"
error_message no_job_id = codes "runpod: /run returned no job id"
error_message (api code body) =
    if is_empty body
    then codes "runpod: HTTP " ++ decimal code
    else codes "runpod: HTTP " ++ decimal code ++ codes ": " ++ body
error_message (decode_error path cause) = codes "runpod: decode " ++ path ++ codes ": " ++ cause
error_message (worker_error message) = codes "worker: " ++ message
error_message (transport cause) = cause

-- The method Permanent: 400, 401, 403 and 404.
unfoldable pub permanent : ℕ → Bool
permanent code = (code == 400) || (code == 401) || (code == 403) || (code == 404)

-- 429, 503 and 409.
unfoldable pub is_retryable_submit : CallError → Bool
is_retryable_submit no_job_id = true
is_retryable_submit (api code body) = (code == 429) || (code == 503) || (code == 409)
is_retryable_submit _ = false

unfoldable pub is_permanent : CallError → Bool
unfolding permanent
is_permanent no_endpoint = true
is_permanent no_api_key = true
is_permanent (api code body) = permanent code
is_permanent (worker_error message) = true
is_permanent (decode_error path cause) = true
is_permanent _ = false

-- No error is both: what may be posted again is never what is pointless to retry. A transport
-- error is neither, so it fails as ambiguous.
pub retryable_not_permanent :
    (e : CallError)
    → (is_retryable_submit e ≡ true → is_permanent e ≡ false)
      × ((cause : Text)
          → e ≡ transport cause
          → (is_retryable_submit e ≡ false) × (is_permanent e ≡ false))
unfolding is_retryable_submit is_permanent
retryable_not_permanent e = (λ h. disjoint e h, λ cause same. ambiguous cause same)
  where
    disjoint : (x : CallError) → is_retryable_submit x ≡ true → is_permanent x ≡ false
    disjoint no_job_id h = refl
    disjoint (api code body) h = ground arith
    disjoint _ h = cc

    ambiguous :
        (cause : Text)
        → e ≡ transport cause
        → (is_retryable_submit e ≡ false) × (is_permanent e ≡ false)
    ambiguous cause same = rw same (refl, refl)

abbrev pub max_error_body : ℕ
max_error_body = 2048

unfoldable pub truncate : Text → Text
truncate s = if ltb max_error_body (length s) then take max_error_body s else s
