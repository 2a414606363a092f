-- ===== src/Tests/Auth.antt =====
-- Requests that carry a token.
use mcp_resile.Base.{Bytes, codes, List, [], ◌∷◌, ◌++◌, ◌≡◌, ◌⊎◌, refl, str_eq, if◌then◌else◌}
use mcp_resile.Auth.{Request, UnauthorizedBody, Handler, extract_token, middleware, serve_http}
use mcp_resile.Auth.Runs.{admitted, serve_http-admitted}
use mcp_resile.Auth.Admission.{IsAdmitted, IsRefusal, middleware-admits, extract_token-bearer}
use mcp_resile.Tests.Samples.{document}

abbrev pub with_token : Bytes → Request
with_token value = record {
  header = λ name. if str_eq name (codes "Authorization") then value else [];
  body = [];
}

abbrev count_requests : Handler (List Request)
count_requests request served =
    (record { content_type = []; status = 200; body = [] }, request ∷ served)

abbrev pub encode_message : UnauthorizedBody → Bytes
encode_message body = body.message

middleware-admits_example :
    (IsAdmitted document.auth (with_token (codes "bearer secret"))
      × (middleware encode_message document.auth count_requests
            (with_token (codes "bearer secret"))
            []
          ≡ count_requests (with_token (codes "bearer secret")) []))
    ⊎ ((¬ IsAdmitted document.auth (with_token (codes "bearer secret")))
        × IsRefusal encode_message
            (middleware encode_message document.auth count_requests
              (with_token (codes "bearer secret"))
              []).0
        × ((middleware encode_message document.auth count_requests
              (with_token (codes "bearer secret"))
              []).1
            ≡ []))
middleware-admits_example =
    middleware-admits encode_message document.auth count_requests
      (with_token (codes "bearer secret")) []

extract_token-bearer_test : extract_token (codes "bEARER " ++ codes "secret") ≡ codes "secret"
unfolding str_eq
extract_token-bearer_test = extract_token-bearer (codes "bEARER ") (codes "secret") refl refl

-- The second request has the wrong token.
abbrev three_requests : List Request
three_requests =
    with_token (codes "secret")
    ∷ with_token (codes "guess")
    ∷ with_token (codes "Bearer secret")
    ∷ []

serve_http-admitted_test :
    (serve_http (middleware encode_message document.auth count_requests) three_requests []).1
    ≡ (serve_http count_requests (admitted document.auth three_requests) []).1
serve_http-admitted_test =
    serve_http-admitted encode_message document.auth count_requests three_requests []
