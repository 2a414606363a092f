-- ===== src/Config/Yaml/Range.antt =====
-- What Duration.UnmarshalYAML, internal/config/config.go, leaves in its receiver.
use mcp_resile.Base.{ℕ, Bytes, Option, none, some, ◌≡◌, refl, ℤ}
use mcp_resile.Config.Types.{Duration}
use mcp_resile.Config.Yaml.{YamlError, assign, read_scalar, unmarshal_yaml}
use mcp_resile.Durations.{parse_duration}
use mcp_resile.Durations.Bounds.{IsInt64, Fits, parse_duration-Fits}

-- With an error the receiver is as before; without one it is what the text of the scalar says.
abbrev pub Decodes :
    (Bytes → Option ℤ) → Option Bytes → Duration → Duration × Option YamlError → Type 0
Decodes parse text d (after, some e) = after ≡ d
Decodes parse text d (after, none) = (s : Bytes) × (text ≡ some s) × (parse s ≡ some after)

module _ (fraction : ℕ → ℕ → ℕ → ℕ) where
  assign-IsInt64 :
      (s : Bytes) (o : Option ℤ) (d : Duration) → Fits o → IsInt64 d → IsInt64 (assign s o d).0
  assign-IsInt64 s none d fits small = small
  assign-IsInt64 s (some z) d fits small = fits

  read_scalar-IsInt64 :
      (o : Option Bytes) (d : Duration) → IsInt64 d → IsInt64 (read_scalar fraction o d).0
  read_scalar-IsInt64 none d small = small
  read_scalar-IsInt64 (some s) d small =
      assign-IsInt64 s (parse_duration fraction s) d (parse_duration-Fits fraction s) small

  assign-Decodes :
      (s : Bytes) (o : Option ℤ) (d : Duration)
      → parse_duration fraction s ≡ o
      → Decodes (parse_duration fraction) (some s) d (assign s o d)
  assign-Decodes s none d e = refl
  assign-Decodes s (some z) d e = (s, refl, e)

  read_scalar-Decodes :
      (o : Option Bytes) (d : Duration)
      → Decodes (parse_duration fraction) o d (read_scalar fraction o d)
  read_scalar-Decodes none d = refl
  read_scalar-Decodes (some s) d = assign-Decodes s (parse_duration fraction s) d refl

  -- A duration of the document never leaves the range of an int64, whatever its text, if the receiver
  -- was in that range; a text that is refused leaves the receiver as it was, and one that is taken
  -- gives it what time.ParseDuration reads.
  pub unmarshal_yaml-IsInt64 :
      (decode_string : Bytes → Option Bytes) (node : Bytes) (d : Duration)
      → IsInt64 d
      → IsInt64 (unmarshal_yaml fraction decode_string node d).0
        × Decodes
            (parse_duration fraction)
            (decode_string node)
            d
            (unmarshal_yaml fraction decode_string node d)
  unfolding unmarshal_yaml
  unmarshal_yaml-IsInt64 decode_string node d small =
      (read_scalar-IsInt64 (decode_string node) d small, read_scalar-Decodes (decode_string node) d)
