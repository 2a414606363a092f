-- ===== src/Tests/Config.antt =====
-- A document that is parsed, and documents that are refused.
use mcp_resile.Base.{
  Bytes, codes, Option, none, some, [], ◌∷◌, ◌≡◌, ◌↔◌, ◌⊎◌, ◌<◌, refl, All, length, if◌then◌else◌,
  arith, str_eq,
}
use mcp_resile.Config.Types.{Config}
use mcp_resile.Config.Defaults.{apply_defaults}
use mcp_resile.Config.Defaults.Complete.{
  IsComplete, apply_defaults-IsComplete, apply_defaults-eq_self,
}
use mcp_resile.Config.Validate.{
  duplicate_id, validate_auth, validate_backend_ids, validate_prefixes, validate_policies,
}
use mcp_resile.Config.Validate.Unique.{
  Distinct, NonEmpty, ids, prefixes, validate_backend_ids_iff, validate_prefixes_iff,
}
use mcp_resile.Config.Validate.Reported.{IsDuplicate, validate_backend_ids-IsDuplicate}
use mcp_resile.Config.Tags.{
  tags_hold, server_tags, metrics_tags, logging_tags, backend_tags, policy_tags, rate_limit_tags,
}
use mcp_resile.Config.Load.{Libraries, stored, ok, validate, parse}
use mcp_resile.Config.Load.Valid.{IsDecoded, IsValid, parse_iff}
use mcp_resile.Config.Load.Usable.{HonoursTags, IsUsable, parse-IsUsable}
use mcp_resile.Tests.Samples.{document, files, search_engine, exact_match}

-- Every file holds the document, and the checker tests the tags.
abbrev pub checks_tags : Config → Option Bytes
checks_tags c = if tags_hold c then none else some []

abbrev pub libraries : Libraries
libraries = record {
  read_file = λ path. some path;
  decode = λ input cfg. stored document;
  check_struct = checks_tags;
  path_match = exact_match;
}

pub checks_tags-HonoursTags : HonoursTags libraries
checks_tags-HonoursTags c h = ground arith

pub document_parses : parse libraries (codes "a") ≡ ok document
unfolding parse validate apply_defaults tags_hold server_tags str_eq metrics_tags logging_tags
    backend_tags policy_tags rate_limit_tags validate_auth validate_backend_ids validate_prefixes
    validate_policies
document_parses = refl

parse_iff_example : (parse libraries (codes "a") ≡ ok document) ↔ (
    (raw : Config) × IsDecoded libraries (codes "a") raw
    × (apply_defaults raw ≡ document)
    × IsValid libraries document)
parse_iff_example = parse_iff libraries (codes "a") document

parse-IsUsable_example : IsComplete document × IsUsable document
parse-IsUsable_example =
    parse-IsUsable libraries (codes "a") document checks_tags-HonoursTags document_parses

document-IsComplete : IsComplete document
document-IsComplete =
    (parse-IsUsable libraries (codes "a") document checks_tags-HonoursTags document_parses).0

apply_defaults-IsComplete_test : IsComplete (apply_defaults document)
apply_defaults-IsComplete_test = apply_defaults-IsComplete document

apply_defaults-eq_self_test : apply_defaults document ≡ document
apply_defaults-eq_self_test = apply_defaults-eq_self document document-IsComplete

validate_backend_ids_iff_test :
    (validate_backend_ids document.backends ≡ none) ↔ Distinct (ids document.backends)
validate_backend_ids_iff_test = validate_backend_ids_iff document.backends

validate_prefixes_iff_test : (validate_prefixes document.backends ≡ none) ↔ (
    (length document.backends < 2)
    ⊎ (All NonEmpty (prefixes document.backends) × Distinct (prefixes document.backends)))
validate_prefixes_iff_test = validate_prefixes_iff document.backends

twice_reported :
    validate_backend_ids (files ∷ search_engine ∷ files ∷ [])
    ≡ some (duplicate_id 0 2 (codes "files"))
unfolding validate_backend_ids str_eq
twice_reported = refl

validate_backend_ids-IsDuplicate_test :
    IsDuplicate (files ∷ search_engine ∷ files ∷ []) 0 2 (codes "files")
validate_backend_ids-IsDuplicate_test =
    validate_backend_ids-IsDuplicate (files ∷ search_engine ∷ files ∷ []) 0 2 (codes "files")
      twice_reported
