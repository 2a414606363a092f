-- ===== src/Config/Load/Valid.antt =====
-- What holds of every configuration that Parse returns.
use mcp_resile.Base.{
  ◌<◌, Bytes, false, ◌&&◌, Option, none, some, is_empty, ◌≡◌, ◌↔◌, ◌⊎◌, inl, inr, refl, sym, ◌∙◌,
  arith, All, length,
}
use mcp_resile.Config.Types.{Config, Auth, zero_config}
use mcp_resile.Config.Defaults.{apply_defaults}
use mcp_resile.Config.Validate.{
  ConfigError, parsing, validate_auth, validate_backend_ids, validate_prefixes, validate_policies,
}
use mcp_resile.Config.Validate.Unique.{
  Distinct, NonEmpty, ids, prefixes, validate_backend_ids_iff, validate_prefixes_iff,
}
use mcp_resile.Config.Validate.Policies.{IsAccepted, validate_policies_iff}
use mcp_resile.Config.Load.{
  Libraries, Decoded, stored, eof, malformed, Loaded, ok, failed, ◌>>◌, validate, parse,
  check_error,
}

>>-ok_iff :
    (o : Option ConfigError) (rest : Loaded) (cfg : Config)
    → ((o >> rest) ≡ ok cfg) ↔ ((o ≡ none) × (rest ≡ ok cfg))
>>-ok_iff none rest cfg = (λ e. (refl, e), λ h. h.1)
>>-ok_iff (some e) rest cfg = (λ h. cc, λ h. absurd (cc (h.0)))

validate_auth_iff :
    (a : Auth) → (validate_auth a ≡ none) ↔ ((a.enabled && is_empty a.tokens) ≡ false)
unfolding validate_auth
validate_auth_iff a = ground arith

-- The conditions under which a complete configuration is accepted.
pub record IsValid (libs : Libraries) (cfg : Config) : Type 0 where
  pub checked : libs.check_struct cfg ≡ none
  pub tokens : (cfg.auth.enabled && is_empty cfg.auth.tokens) ≡ false
  pub distinct_ids : Distinct (ids cfg.backends)
  pub namespaces :
      (length cfg.backends < 2)
      ⊎ (All NonEmpty (prefixes cfg.backends) × Distinct (prefixes cfg.backends))
  pub policies : All (IsAccepted libs.path_match) cfg.policies

check_error_iff : (o : Option Bytes) → (check_error o ≡ none) ↔ (o ≡ none)
check_error_iff none = (λ _. refl, λ _. refl)
check_error_iff (some m) = (λ h. cc, λ h. cc)

validate-IsValid :
    (libs : Libraries) (cfg out : Config)
    → validate libs cfg ≡ ok out
    → IsValid libs cfg × (cfg ≡ out)
unfolding validate
validate-IsValid libs cfg out h =
    let (checked, h) = (>>-ok_iff (check_error (libs.check_struct cfg)) _ out).0 h in
    let (tokens, h) = (>>-ok_iff (validate_auth cfg.auth) _ out).0 h in
    let (distinct, h) = (>>-ok_iff (validate_backend_ids cfg.backends) _ out).0 h in
    let (namespaces, h) = (>>-ok_iff (validate_prefixes cfg.backends) _ out).0 h in
    let (policies, h) = (>>-ok_iff (validate_policies libs.path_match cfg.policies) _ out).0 h in
    (
      record {
        checked = (check_error_iff (libs.check_struct cfg)).0 checked;
        tokens = (validate_auth_iff cfg.auth).0 tokens;
        distinct_ids = (validate_backend_ids_iff cfg.backends).0 distinct;
        namespaces = (validate_prefixes_iff cfg.backends).0 namespaces;
        policies = (validate_policies_iff libs.path_match cfg.policies).0 policies;
      },
      ground (arith, h),
    )

IsValid-validate : (libs : Libraries) (cfg : Config) → IsValid libs cfg → validate libs cfg ≡ ok cfg
unfolding validate
IsValid-validate libs cfg v =
    rw
      (
        v.checked,
        (validate_auth_iff cfg.auth).1 v.tokens,
        (validate_backend_ids_iff cfg.backends).1 v.distinct_ids,
        (validate_prefixes_iff cfg.backends).1 v.namespaces,
        (validate_policies_iff libs.path_match cfg.policies).1 v.policies,
      )
      refl

-- The document of the input, or the zero configuration if the input holds none.
abbrev pub IsDecoded : Libraries → Bytes → Config → Type 0
IsDecoded libs input raw =
    (libs.decode input zero_config ≡ stored raw)
    ⊎ ((libs.decode input zero_config ≡ eof) × (raw ≡ zero_config))

Decoded-cases :
    (d : Decoded)
    → ((raw : Config) × (d ≡ stored raw)) ⊎ ((d ≡ eof) ⊎ ((m : Bytes) × (d ≡ malformed m)))
Decoded-cases (stored raw) = inl (raw, refl)
Decoded-cases eof = inr (inl refl)
Decoded-cases (malformed m) = inr (inr (m, refl))

parse-IsDecoded :
    (libs : Libraries) (input : Bytes) (raw : Config)
    → IsDecoded libs input raw
    → parse libs input ≡ validate libs (apply_defaults raw)
unfolding parse
parse-IsDecoded libs input raw (inl document) = rw document refl
parse-IsDecoded libs input raw (inr (empty, e)) = rw (empty, e) refl

IsDecoded-IsValid :
    (libs : Libraries) (input : Bytes) (cfg raw : Config)
    → IsDecoded libs input raw
    → parse libs input ≡ ok cfg
    → (raw : Config) × IsDecoded libs input raw × (apply_defaults raw ≡ cfg) × IsValid libs cfg
IsDecoded-IsValid libs input cfg raw decoded h =
    let (v, e) =
      validate-IsValid libs (apply_defaults raw) cfg
        (sym (parse-IsDecoded libs input raw decoded) ∙ h) in
    (raw, decoded, e, rw (← e) v)

malformed-refused :
    (libs : Libraries) (input m : Bytes) (cfg : Config)
    → libs.decode input zero_config ≡ malformed m
    → ¬ (parse libs input ≡ ok cfg)
unfolding parse
malformed-refused libs input m cfg e h =
    let refused : failed (parsing m) ≡ ok cfg = rw e at h in cc (refused)

-- Parse returns a configuration exactly when the input decodes to a document, or to the zero
-- configuration because it holds none, and that document with its defaults filled in is the
-- configuration returned, passes the checker, has a token if authentication is on, has distinct ids
-- and acceptable prefixes, and has acceptable policies.
pub parse_iff :
    (libs : Libraries) (input : Bytes) (cfg : Config)
    → (parse libs input ≡ ok cfg)
      ↔ ((raw : Config) × IsDecoded libs input raw × (apply_defaults raw ≡ cfg) × IsValid libs cfg)
parse_iff libs input cfg = (
  λ h. elim (Decoded-cases (libs.decode input zero_config)) [
    | inl (raw, e) ↦ IsDecoded-IsValid libs input cfg raw (inl e) h
    | inr (inl e) ↦ IsDecoded-IsValid libs input cfg zero_config (inr (e, refl)) h
    | inr (inr (m, e)) ↦ absurd (malformed-refused libs input m cfg e h)
  ],
  λ (raw, decoded, e, v).
      parse-IsDecoded libs input raw decoded ∙ rw e (IsValid-validate libs cfg v),
)
