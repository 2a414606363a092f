-- ===== src/Auth.antt =====
-- internal/auth/auth.go: the check of the bearer token or API key on every HTTP request.
-- `header` of a request is net/http's Header.Get; the JSON text of the refusal is a parameter.
pub mod Admission
pub mod Runs
use mcp_resile.Base.{
  ℕ, ◌+◌, Bytes, codes, Bool, true, false, not, ◌&&◌, ◌||◌, List, [], ◌∷◌, map, ltb, leb, length,
  take, drop, is_empty, str_eq, if◌then◌else◌, ℤ, negsuc,
}
use mcp_resile.Config.Types.{Auth}

-- codeUnauthorized, -32601
abbrev pub code_unauthorized : ℤ
code_unauthorized = negsuc 32600

pub record Request : Type 0 where
  pub header : Bytes → Bytes
  pub body : Bytes

pub record Response : Type 0 where
  pub content_type : Bytes
  pub status : ℕ
  pub body : Bytes

-- unauthorizedBody; its id is null.
pub record UnauthorizedBody : Type 0 where
  pub json_rpc : Bytes
  pub code : ℤ
  pub message : Bytes

abbrev pub unauthorized_body : UnauthorizedBody
unauthorized_body = record {
  json_rpc = codes "2.0";
  code = code_unauthorized;
  message = codes "Method not found";
}

-- http.Handler: what it answers, and what it does to the world behind it.
abbrev pub Handler : Type 0 → Type 0
Handler W = Request → W → Response × W

-- strings.EqualFold, on texts one of which is in ASCII letters without k and s.
abbrev lower : ℕ → ℕ
lower b = if leb 65 b && leb b 90 then b + 32 else b

abbrev pub equal_fold : Bytes → Bytes → Bool
equal_fold s t = str_eq (map lower s) (map lower t)

abbrev pub bearer : Bytes
bearer = codes "Bearer "

unfoldable pub extract_token : Bytes → Bytes
extract_token header =
    if ltb (length bearer) (length header) && equal_fold (take (length bearer) header) bearer
    then drop (length bearer) header
    else header

-- The loop of isAllowed: it goes through the whole list, also after a match.
unfoldable pub compare_all : Bytes → Bool → List Bytes → Bool
compare_all token matched [] = matched
compare_all token matched (candidate ∷ rest) =
    compare_all token (if str_eq token candidate then true else matched) rest

unfoldable pub is_allowed : Bytes → List Bytes → Bool
unfolding compare_all
is_allowed token tokens = compare_all token false tokens

unfoldable pub write_unauthorized : (UnauthorizedBody → Bytes) → Response
write_unauthorized encode = record {
  content_type = codes "application/json";
  status = 401;
  body = encode unauthorized_body;
}

unfoldable pub middleware : {W : Type 0} → (UnauthorizedBody → Bytes) → Auth → Handler W → Handler W
unfolding extract_token is_allowed write_unauthorized
middleware encode cfg next = if not cfg.enabled then next else (λ request world.
    let token = extract_token (request.header cfg.header) in
    if is_empty token || not (is_allowed token cfg.tokens)
    then (write_unauthorized encode, world)
    else next request world)

-- The requests of a run, one after the other, with what each is answered.
unfoldable pub serve_http : {W : Type 0} → Handler W → List Request → W → List Response × W
serve_http handler [] w = ([], w)
serve_http handler (r ∷ rs) w =
    let (response, v) = handler r w in
    let (responses, u) = serve_http handler rs v in (response ∷ responses, u)
