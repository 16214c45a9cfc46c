-- ===== src/Wallet/Http.antt =====
-- pkg/util/http_helpers.go: what the wallet makes of an HTTP answer. An answer is a status and a
-- body, or the error of the transport.
use digital_identity_system.Prelude.{ℕ, ◌/◌, String, not, eqb, if◌then◌else◌, Result, ok, err}
use digital_identity_system.Presentation.Verify.{◌⧺◌}

abbrev pub Answer : Type 0
Answer = Result String (ℕ × String)

-- `httpStatusErr.Error`, with `http.StatusText` for the text of a status.
unfoldable pub status_error : (status_text : ℕ → String) → (url : String) → ℕ → String
status_error status_text url code = "HTTP " ⧺ status_text code ⧺ " for " ⧺ url

-- `HttpGetJSON`, `HttpPostJSON` and `HttpPostAuthJSON` after the call.
unfoldable pub json_answer {ℓ} :
    {A : Type ℓ}
    → (status_text : ℕ → String) → (decode : String → Result String A) → (url : String) → Answer
    → Result String A
unfolding status_error
json_answer status_text decode url (err e) = err e
json_answer status_text decode url (ok (code, body)) =
    if not (eqb (code / 100) 2) then err (status_error status_text url code) else decode body
