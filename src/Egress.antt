-- ===== src/Egress.antt =====
-- internal/egress/backend.go: opening and closing a session to a backend. The MCP SDK is a
-- parameter; what Dial and Close ask of it is kept in a trace, the latest call first.
pub mod Sessions
use mcp_resile.Base.{ℕ, Bytes, codes, Bool, Option, none, some, List, [], ◌∷◌, if◌then◌else◌}
use mcp_resile.Errors.{GoError, Result, ok, err}

-- client.Connect, whether the session's InitializeResult advertises logging, session.SetLoggingLevel
-- (`none` if it succeeds) and session.Close, whose error is dropped.
pub record Sdk (W : Type 0) : Type 0 where
  pub connect : Bytes → W → Result ℕ × W
  pub advertises_logging : ℕ → Bool
  pub set_logging_level : ℕ → Bytes → W → Option GoError × W
  pub close_session : ℕ → W → W

pub data SdkCall : Type 0 where
  opened : ℕ → SdkCall
  level_set : ℕ → Bytes → SdkCall
  closed : ℕ → SdkCall

pub record Net (W : Type 0) : Type 0 where
  pub world : W
  pub trace : List SdkCall

abbrev pub backend_log_level : Bytes
backend_log_level = codes "debug"

abbrev pub session_of : Result ℕ → Option ℕ
session_of (ok n) = some n
session_of (err e) = none

module _ {W : Type 0} (sdk : Sdk W) where
  -- Backend.Close
  unfoldable pub close : ℕ → Net W → Net W
  close n net = record { world = sdk.close_session n net.world; trace = closed n ∷ net.trace }

  -- What SetLoggingLevel returned decides: an error closes the session.
  abbrev pub after_level : ℕ → Option GoError × W → List SdkCall → Result ℕ × Net W
  after_level n (none, w) trace = (ok n, record { world = w; trace = trace })
  after_level n (some e, w) trace = (err e, close n (record { world = w; trace = trace }))

  abbrev pub after_connect : Result ℕ × W → List SdkCall → Result ℕ × Net W
  after_connect (err e, w) trace = (err e, record { world = w; trace = trace })
  after_connect (ok n, w) trace =
      let subscribed =
        after_level n (sdk.set_logging_level n backend_log_level w)
          (level_set n backend_log_level ∷ opened n ∷ trace) in
      if sdk.advertises_logging n
      then subscribed
      else (ok n, record { world = w; trace = opened n ∷ trace })

  unfoldable pub dial : Bytes → Net W → Result ℕ × Net W
  unfolding close
  dial url net = after_connect (sdk.connect url net.world) net.trace

  -- Dial as its caller sees it, which only prints the error.
  unfoldable pub try_dial : Bytes → Net W → Option ℕ × Net W
  unfolding dial
  try_dial url net = let (reply, after) = dial url net in (session_of reply, after)
