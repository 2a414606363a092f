-- ===== src/Metrics/Exported.antt =====
-- What internal/metrics/metrics.go shows of the requests that internal/proxy/proxy.go counts.
use mcp_resile.Base.{
  ℕ, Bytes, codes, false, ◌&&◌, List, [], ◌∷◌, map, total, All, str_eq, if◌then◌else◌, ◌≡◌, ◌∙◌,
  refl, arith,
}
use mcp_resile.Proxy.Errors.{
  Outcome, success, internal_failure, circuit_opened, limited, timed_out, invalid_params,
  other_error,
}
use mcp_resile.Proxy.Dispatch.{Setup}
use mcp_resile.Proxy.Dispatch.Errors.{IsCoarse}
use mcp_resile.Proxy.Concurrent.{System}
use mcp_resile.Proxy.Concurrent.Runs.{Reach}
use mcp_resile.Proxy.Concurrent.Accounts.{counted, Reach-InStep}
use mcp_resile.Proxy.Concurrent.Outcomes.{Reach-IsClear}
use mcp_resile.Metrics.{Metrics, Call, request, new_metrics, after_calls}
use mcp_resile.Metrics.Counts.{count, is_request, after_calls-IsTally}

-- The strings of outcomeForError.
abbrev pub outcome_label : Outcome → Bytes
outcome_label success = codes "success"
outcome_label internal_failure = codes "internal_error"
outcome_label circuit_opened = codes "circuit_open"
outcome_label limited = codes "rate_limited"
outcome_label timed_out = codes "timeout"
outcome_label invalid_params = codes "invalid_params"
outcome_label other_error = codes "error"

-- RecordRequest as callTool calls it.
abbrev pub recorded : Bytes × Outcome → Call
recorded (tool, outcome) = request tool (outcome_label outcome)

abbrev pub exported : List (Bytes × Outcome) → Metrics
exported requests = after_calls (map recorded requests) new_metrics

-- One for a request that is counted under that name and label.
abbrev pub shown_as : Bytes → Bytes → Bytes × Outcome → ℕ
shown_as tool label (t, o) = if str_eq t tool && str_eq (outcome_label o) label then 1 else 0

count-recorded :
    (tool label : Bytes) (rs : List (Bytes × Outcome))
    → count (is_request tool label) (map recorded rs) ≡ total (shown_as tool label) rs
unfolding count
count-recorded tool label [] = refl
count-recorded tool label ((t, o) ∷ rs) = ground (arith, count-recorded tool label rs)

-- A label of no outcome that a call is counted with.
abbrev pub IsHidden : Bytes → Type 0
IsHidden label =
    (str_eq (outcome_label success) label ≡ false)
    × (str_eq (outcome_label invalid_params) label ≡ false)
    × (str_eq (outcome_label other_error) label ≡ false)

hidden_label :
    (label : Bytes) (o : Outcome)
    → IsHidden label
    → IsCoarse o
    → str_eq (outcome_label o) label ≡ false
hidden_label label success (h, _, _) c = h
hidden_label label invalid_params (_, h, _) c = h
hidden_label label other_error (_, _, h) c = h
hidden_label label internal_failure h c = absurd c
hidden_label label circuit_opened h c = absurd c
hidden_label label limited h c = absurd c
hidden_label label timed_out h c = absurd c

none_shown :
    (tool label : Bytes) (rs : List (Bytes × Outcome))
    → IsHidden label
    → All (λ (r : Bytes × Outcome). IsCoarse r.1) rs
    → total (shown_as tool label) rs ≡ 0
none_shown tool label [] h v = refl
none_shown tool label ((t, o) ∷ rs) h (c, cs) =
    ground (arith, hidden_label label o h c, none_shown tool label rs h cs)

module _ {W : Type 0} (s : Setup W) where
  -- In every state that calls, listings, cleanup timers and the clock lead to, in any order: the
  -- request counter shows, under each name and label, the number of calls past their counting with
  -- that name and a reply of that label; and under the labels of a panic, an open circuit, a rate
  -- limit and a timeout it shows zero.
  pub Reach-requests_total :
      (y : System)
      → Reach s y
      → (tool label : Bytes)
      → ((exported y.shared.requests).requests_total tool label
          ≡ total (counted (shown_as tool label)) y.calls)
        × ((exported y.shared.requests).requests_total tool (codes "internal_error") ≡ 0)
        × ((exported y.shared.requests).requests_total tool (codes "circuit_open") ≡ 0)
        × ((exported y.shared.requests).requests_total tool (codes "rate_limited") ≡ 0)
        × ((exported y.shared.requests).requests_total tool (codes "timeout") ≡ 0)
  unfolding str_eq
  Reach-requests_total y r tool label =
      let shows : (l : Bytes)
          → (exported y.shared.requests).requests_total tool l
            ≡ total (shown_as tool l) y.shared.requests =
        λ l.
          let tally = after_calls-IsTally (map recorded y.shared.requests) new_metrics in
          omega (arith, tally.requests tool l, count-recorded tool l y.shared.requests) in
      let (_, (muted, _)) = Reach-IsClear s y r in
      let zero_at : (l : Bytes)
          → IsHidden l
          → (exported y.shared.requests).requests_total tool l ≡ 0 =
        λ l h. shows l ∙ none_shown tool l y.shared.requests h muted in
      (
        shows label ∙ (Reach-InStep (shown_as tool label) s y r).requests,
        zero_at (codes "internal_error") (refl, refl, refl),
        zero_at (codes "circuit_open") (refl, refl, refl),
        zero_at (codes "rate_limited") (refl, refl, refl),
        zero_at (codes "timeout") (refl, refl, refl),
      )
