-- ===== src/Egress/Sessions.antt =====
-- How often a session is opened and closed.
use mcp_resile.Base.{
  ℕ, suc, ◌+◌, Bytes, Option, none, some, List, [], ◌∷◌, ◌==◌, if◌then◌else◌, ◌≡◌, refl, arith,
  Bool-cases, inl, inr,
}
use mcp_resile.Errors.{GoError, Result, ok, err}
use mcp_resile.Egress.{
  Sdk, SdkCall, opened, level_set, closed, backend_log_level, Net, close, after_level,
  after_connect, dial, session_of, try_dial,
}

unfoldable pub opens : ℕ → List SdkCall → ℕ
opens n [] = 0
opens n (opened m ∷ trace) = let rest = opens n trace in if m == n then suc rest else rest
opens n (level_set m level ∷ trace) = opens n trace
opens n (closed m ∷ trace) = opens n trace

unfoldable pub closes : ℕ → List SdkCall → ℕ
closes n [] = 0
closes n (opened m ∷ trace) = closes n trace
closes n (level_set m level ∷ trace) = closes n trace
closes n (closed m ∷ trace) = let rest = closes n trace in if m == n then suc rest else rest

-- 1 if the session is the one, and there is one.
abbrev pub held : ℕ → Option ℕ → ℕ
held n none = 0
held n (some m) = if m == n then 1 else 0

-- Between two traces session `n` was opened as often as it was closed, and `k` times more.
abbrev pub Holds : ℕ → ℕ → List SdkCall → List SdkCall → Type 0
Holds n k before after = opens n after + closes n before ≡ closes n after + opens n before + k

module _ {W : Type 0} (sdk : Sdk W) where
  after_level-Holds :
      (n m : ℕ) (level : Bytes) (r : Option GoError × W) (trace : List SdkCall)
      → Holds n
          (held n (session_of (after_level sdk m r (level_set m level ∷ opened m ∷ trace)).0))
          trace
          (after_level sdk m r (level_set m level ∷ opened m ∷ trace)).1.trace
  unfolding opens closes close
  after_level-Holds n m level (none, w) trace = ground arith
  after_level-Holds n m level (some e, w) trace = ground arith

  after_connect-Holds :
      (n : ℕ) (r : Result ℕ × W) (trace : List SdkCall)
      → Holds n
          (held n (session_of (after_connect sdk r trace).0))
          trace
          (after_connect sdk r trace).1.trace
  after_connect-Holds n (err e, w) trace = omega arith
  after_connect-Holds n (ok m, w) trace = elim (Bool-cases (sdk.advertises_logging m)) [
    | inl yields ↦ rw yields (after_level-Holds n m backend_log_level _ trace)
    | inr lacks ↦ rw lacks (unfold opens closes in ground arith)
  ]

  -- A dial leaves open only the session that it returns.
  pub try_dial-Holds :
      (n : ℕ) (url : Bytes) (net : Net W)
      → Holds n (held n (try_dial sdk url net).0) net.trace (try_dial sdk url net).1.trace
  unfolding try_dial dial
  try_dial-Holds n url net = after_connect-Holds n (sdk.connect url net.world) net.trace

  pub close-closes :
      (n m : ℕ) (net : Net W)
      → (opens n (close sdk m net).trace ≡ opens n net.trace)
        × (closes n (close sdk m net).trace ≡ closes n net.trace + held n (some m))
  unfolding close opens closes
  close-closes n m net = (refl, ground arith)
