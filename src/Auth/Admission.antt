-- ===== src/Auth/Admission.antt =====
-- Which requests get past the check.
use mcp_resile.Base.{
  not, ◌||◌, ℕ, zero, suc, codes, negsuc, ◌&&◌, take-append-drop, Bytes, Bool, true, false, List,
  [], ◌∷◌, ◌++◌, ltb, length, take, drop, is_empty, str_eq, str_eq_iff, ◌≡◌, ◌↔◌, ◌⊎◌, inl, inr,
  refl, ap, sym, ◌∙◌, arith, In, Bool-cases, length-append, length-map, drop-append,
}
use mcp_resile.Config.Types.{Auth}
use mcp_resile.Auth.{
  Request, Response, UnauthorizedBody, Handler, equal_fold, bearer, extract_token, compare_all,
  is_allowed, write_unauthorized, middleware,
}

compare_all_iff :
    (token : Bytes) (matched : Bool) (tokens : List Bytes)
    → (compare_all token matched tokens ≡ true) ↔ ((matched ≡ true) ⊎ In token tokens)
unfolding compare_all
compare_all_iff token matched [] = (λ e. inl e, λ o. elim o [ inl e ↦ e | inr m ↦ absurd m ])
compare_all_iff token matched (c ∷ rest) = elim (Bool-cases (str_eq token c)) [
  | inl same ↦
      let (to, from) = compare_all_iff token true rest in
      rw same (λ e. inr (inl ((str_eq_iff token c).0 same)), λ o. from (inl refl))
  | inr other ↦
      let (to, from) = compare_all_iff token matched rest in
      rw other (
        λ e. elim (to e) [ inl m ↦ inl m | inr m ↦ inr (inr m) ],
        λ o. elim o [
          | inl m ↦ from (inl m)
          | inr (inl e) ↦ absurd (cc (other, (str_eq_iff token c).1 e))
          | inr (inr m) ↦ from (inr m)
        ],
      )
]

-- A token is allowed exactly when it is one of the list.
pub is_allowed_iff :
    (token : Bytes) (tokens : List Bytes) → (is_allowed token tokens ≡ true) ↔ In token tokens
unfolding is_allowed
is_allowed_iff token tokens =
    let (to, from) = compare_all_iff token false tokens in
    (λ e. elim (to e) [ inl m ↦ absurd (cc) | inr m ↦ m ], λ m. from (inr m))

length-equal_fold : (s t : Bytes) → equal_fold s t ≡ true → length s ≡ length t
length-equal_fold s t h = sym (length-map _ s) ∙ ap length ((str_eq_iff _ _).0 h) ∙ length-map _ t

take-append : (s t : Bytes) → take (length s) (s ++ t) ≡ s
take-append [] t = refl
take-append (a ∷ s) t = ap (◌∷◌ a) (take-append s t)

-- The scheme is stripped however its letters are written: what is left of it and a token that is
-- not empty is the token.
pub extract_token-bearer :
    (scheme token : Bytes)
    → equal_fold scheme bearer ≡ true
    → is_empty token ≡ false
    → extract_token (scheme ++ token) ≡ token
unfolding extract_token
extract_token-bearer scheme [] h e = absurd (cc)
extract_token-bearer scheme (c ∷ token) h e =
    let seven : length scheme ≡ 7 = length-equal_fold scheme bearer h in
    let whole : take 7 (scheme ++ c ∷ token) ≡ scheme =
      rw (← seven) (take-append scheme (c ∷ token)) in
    let rest : drop 7 (scheme ++ c ∷ token) ≡ c ∷ token =
      rw (← seven) (drop-append scheme (c ∷ token)) in
    let longer : ltb 7 (length (scheme ++ c ∷ token)) ≡ true =
      ground (arith, length-append scheme (c ∷ token)) in
    rw (longer, whole, h, rest) refl

-- The header is the scheme "Bearer ", in letters of any case, and something after it.
abbrev pub HasScheme : Bytes → Type 0
HasScheme header =
    (scheme token : Bytes) × (equal_fold scheme (codes "Bearer ") ≡ true)
    × (is_empty token ≡ false)
    × (header ≡ scheme ++ token)

-- What the header carries: what follows the scheme, or all of it where there is no scheme.
abbrev pub Carries : Bytes → Bytes → Type 0
Carries header token =
    ((scheme : Bytes) × (equal_fold scheme (codes "Bearer ") ≡ true)
      × (is_empty token ≡ false)
      × (header ≡ scheme ++ token))
    ⊎ ((¬ HasScheme header) × (token ≡ header))

nonempty_rest : (n : ℕ) (s : Bytes) → ltb n (length s) ≡ true → is_empty (drop n s) ≡ false
nonempty_rest zero [] h = absurd (ground arith)
nonempty_rest zero (c ∷ s) h = refl
nonempty_rest (suc n) [] h = absurd (ground arith)
nonempty_rest (suc n) (c ∷ s) h = nonempty_rest n s (ground arith)

extract_token-long :
    (header : Bytes)
    → (ltb 7 (length header) && equal_fold (take 7 header) (codes "Bearer ")) ≡ true
    → extract_token header ≡ drop 7 header
unfolding extract_token
extract_token-long header h = rw h refl

extract_token-kept :
    (header : Bytes)
    → (ltb 7 (length header) && equal_fold (take 7 header) (codes "Bearer ")) ≡ false
    → extract_token header ≡ header
unfolding extract_token
extract_token-kept header h = rw h refl

kept-HasScheme : (header : Bytes) → extract_token header ≡ header → ¬ HasScheme header
kept-HasScheme header kept (scheme, token, fold, given, e) =
    let stripped : header ≡ token =
      sym kept ∙ rw e (extract_token-bearer scheme token fold given) in
    absurd (
      omega (
        arith,
        length-equal_fold scheme (codes "Bearer ") fold,
        ap length stripped,
        ap length e,
        length-append scheme token,
      ))

both_left : (a b : Bool) → (a && b) ≡ true → a ≡ true
both_left a b h = ground arith

both_right : (a b : Bool) → (a && b) ≡ true → b ≡ true
both_right a b h = ground arith

extract_token-Carries : (header : Bytes) → Carries header (extract_token header)
extract_token-Carries header =
    let long = ltb 7 (length header) && equal_fold (take 7 header) (codes "Bearer ") in
    elim (Bool-cases long) [
      | inl h ↦
          let longer = both_left (ltb 7 (length header)) _ h in
          inl (
            take 7 header,
            both_right (ltb 7 (length header)) _ h,
            rw (extract_token-long header h) (nonempty_rest 7 header longer),
            rw (extract_token-long header h) (sym (take-append-drop 7 header)),
          )
      | inr h ↦
          inr (kept-HasScheme header (extract_token-kept header h), extract_token-kept header h)
    ]

-- A header carries one text only, the extracted one.
Carries-extract_token : (header token : Bytes) → Carries header token → token ≡ extract_token header
Carries-extract_token header token (inl (scheme, fold, given, e)) =
    rw e (sym (extract_token-bearer scheme token fold given))
Carries-extract_token header token (inr (no_scheme, e)) = elim (extract_token-Carries header) [
  | inl (scheme, fold, given, same) ↦ absurd (no_scheme (scheme, _, fold, given, same))
  | inr (_, same) ↦ e ∙ sym same
]

-- The check is off, or the header carries a token that is not empty and is one of the list.
abbrev pub IsAdmitted : Auth → Request → Type 0
IsAdmitted cfg request =
    (cfg.enabled ≡ false)
    ⊎ ((token : Bytes) × Carries (request.header cfg.header) token
        × (is_empty token ≡ false)
        × In token cfg.tokens)

-- The header carries a listed token that is not empty, or the check is off.
abbrev pub is_admitted : Auth → Request → Bool
is_admitted cfg request =
    let token = extract_token (request.header cfg.header) in
    not cfg.enabled || (not (is_empty token) && is_allowed token cfg.tokens)

module _ {W : Type 0} (encode : UnauthorizedBody → Bytes) (cfg : Auth) (next : Handler W) where
  pub middleware-admitted :
      (r : Request) (w : W) → is_admitted cfg r ≡ true → middleware encode cfg next r w ≡ next r w
  unfolding middleware
  middleware-admitted r w h = ground (arith, h)

  pub middleware-refused :
      (r : Request) (w : W)
      → is_admitted cfg r ≡ false
      → middleware encode cfg next r w ≡ (write_unauthorized encode, w)
  unfolding middleware
  middleware-refused r w h = ground (arith, h)

-- The two descriptions of the requests that are let through.
pub admission :
    (cfg : Auth) (request : Request)
    → ((is_admitted cfg request ≡ true) × IsAdmitted cfg request)
      ⊎ ((is_admitted cfg request ≡ false) × (¬ IsAdmitted cfg request))
admission cfg request =
    let header = request.header cfg.header in
    let token = extract_token header in
    let (to, from) = is_allowed_iff token cfg.tokens in
    let own : (t : Bytes) → Carries header t → t ≡ token = Carries-extract_token header in
    elim (Bool-cases cfg.enabled) [
      | inr off ↦ inl (rw off refl, inl off)
      | inl on ↦ elim (Bool-cases (is_empty token)) [
        | inl none_given ↦ inr (
          rw (on, none_given) refl,
          λ h. elim h [
            | inl off ↦ absurd (cc)
            | inr (t, carried, given, m) ↦ absurd (cc (own t carried, given, none_given))
          ],
        )
        | inr given ↦ elim (Bool-cases (is_allowed token cfg.tokens)) [
          | inl listed ↦ inl (
            rw (on, given, listed) refl,
            inr (token, extract_token-Carries header, given, to listed),
          )
          | inr other ↦ inr (
            rw (on, given, other) refl,
            λ h. elim h [
              | inl off ↦ absurd (cc)
              | inr (t, carried, _, m) ↦
                  let mine : In token cfg.tokens = rw (own t carried) at m in
                  absurd (cc (other, from mine))
            ],
          )
        ]
      ]
    ]

-- Status 401 with a JSON-RPC error that looks like that of an unknown method.
abbrev pub IsRefusal : (UnauthorizedBody → Bytes) → Response → Type 0
IsRefusal encode response =
    (response.status ≡ 401)
    × (response.content_type ≡ codes "application/json")
    × (response.body
        ≡ encode (record {
          json_rpc = codes "2.0";
          code = negsuc 32600;
          message = codes "Method not found";
        }))

write_unauthorized-IsRefusal :
    (encode : UnauthorizedBody → Bytes) → IsRefusal encode (write_unauthorized encode)
unfolding write_unauthorized
write_unauthorized-IsRefusal encode = (refl, refl, refl)

-- A request is served by the handler behind the check, and changes what that handler changes,
-- exactly when the check is off or the header carries a listed token that is not empty, with or
-- without the scheme "Bearer " in letters of any case; any other request is refused before that
-- handler runs, with status 401 and a JSON-RPC error of code -32601 "Method not found", and nothing
-- changes.
pub middleware-admits :
    {W : Type 0} (encode : UnauthorizedBody → Bytes) (cfg : Auth) (next : Handler W)
    (request : Request) (world : W)
    → (IsAdmitted cfg request × (middleware encode cfg next request world ≡ next request world))
      ⊎ ((¬ IsAdmitted cfg request)
          × IsRefusal encode (middleware encode cfg next request world).0
          × ((middleware encode cfg next request world).1 ≡ world))
middleware-admits encode cfg next request world = elim (admission cfg request) [
  | inl (through, h) ↦ inl (h, middleware-admitted encode cfg next request world through)
  | inr (refused, h) ↦
      let answer = middleware-refused encode cfg next request world refused in
      inr (h, rw answer (write_unauthorized-IsRefusal encode), ap (λ x. x.1) answer)
]
