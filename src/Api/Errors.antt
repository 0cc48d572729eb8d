-- ===== src/Api/Errors.antt =====
-- internal/api/errors.go. A context is the list of its values, the last one first, under the names of
-- the key's types with their packages.
use web_mail.Base.{String, ◌≡◌, refl, List, [], ◌∷◌, Text, is_empty, if◌then◌else◌, ℕ}
use web_mail.Http.{Writer, Value, string, header_get, write_json}

-- ErrorResponse, as its JSON object with `omitempty`
unfoldable pub error_response : Text → Text → List (String × Value)
error_response message request_id =
    if is_empty request_id
    then ("error", string message) ∷ []
    else ("error", string message) ∷ (("request_id", string request_id) ∷ [])

unfoldable pub write_error : Writer → ℕ → Text → Text → Writer
unfolding error_response write_json
write_error w status message request_id = write_json status (error_response message request_id) w

abbrev pub Context : Type 0
Context = List (String × Text)

unfoldable pub with_request_id : Context → Text → Context
with_request_id ctx id = ("api.requestIDKey", id) ∷ ctx

-- "" if there is none
unfoldable pub request_id_from_context : Context → Text
unfolding header_get
request_id_from_context ctx = header_get "api.requestIDKey" ctx

pub request_id_from_context-with_request_id :
    (ctx : Context) (id : Text) → request_id_from_context (with_request_id ctx id) ≡ id
unfolding request_id_from_context with_request_id
request_id_from_context-with_request_id ctx id = refl
