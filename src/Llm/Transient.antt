-- ===== src/Llm/Transient.antt =====
-- `_classify_transient` of src/llm/router.py: which errors of a provider may be tried elsewhere.
use ai_ops_runner.Base.{
  if◌then◌else◌, any, String, ◌≡◌, refl, Bool, true, false, not, ◌||◌, List, [], ◌∷◌, arith,
}
use ai_ops_runner.Base.Text.{Text, codes, lower, text_contains, lower_code}
use ai_ops_runner.Llm.Types.{
  Transient, transient_quota, transient_server, transient_network, non_transient,
}

-- the needles of the loop over (500, 502, 503, 504)
abbrev pub server_needles : List String
server_needles = "http 500" ∷ "http 502" ∷ "http 503" ∷ "http 504" ∷ []

abbrev pub network_needles : List String
network_needles = "timeout" ∷ "unreachable" ∷ "timed out" ∷ []

-- one of the texts occurs in the message
unfoldable pub mentions : Text → List String → Bool
mentions msg needles = any (λ n. text_contains msg (codes n)) needles

classify_lower : Text → Transient
classify_lower msg =
    if mentions msg ("http 429" ∷ [])
    then transient_quota
    else if mentions msg server_needles
    then transient_server
    else if mentions msg network_needles
    then transient_network
    else non_transient

unfoldable pub classify_transient : Text → Transient
unfolding classify_lower
classify_transient exc = classify_lower (lower exc)

abbrev pub is_non_transient : Transient → Bool
is_non_transient non_transient = true
is_non_transient transient_quota = false
is_non_transient transient_server = false
is_non_transient transient_network = false

unfoldable pub is_transient_error : Text → Bool
unfolding classify_transient
is_transient_error exc = not (is_non_transient (classify_transient exc))

-- An error is transient exactly when its message, in lower case, mentions HTTP 429, one of the
-- four server codes, or a timeout or unreachable host; any other message is not transient.
pub is_transient_error_iff :
    (exc : Text)
    → is_transient_error exc ≡ (
        mentions (lower exc) ("http 429" ∷ [])
        || mentions (lower exc) server_needles
        || mentions (lower exc) network_needles)
unfolding is_transient_error
is_transient_error_iff exc = ground arith

-- HTTP 501 lies between 500 and 504 and is not transient.
http_501 : classify_transient (codes "OpenAI HTTP 501: not implemented") ≡ non_transient
unfolding classify_transient mentions lower_code
http_501 = refl

http_503 : classify_transient (codes "OpenAI HTTP 503") ≡ transient_server
unfolding classify_transient mentions lower_code
http_503 = refl
