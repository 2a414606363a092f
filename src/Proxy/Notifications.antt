-- ===== src/Proxy/Notifications.antt =====
-- NotificationRouter, internal/proxy/notifications.go. A session and a server are numbers; the
-- mutex makes each operation atomic, so an operation is a function on the router.
pub mod Runs
pub mod Consistent
pub mod Delivery
use mcp_resile.Base.{
  ℕ, suc, ◌+◌, ◌%◌, Bytes, codes, Bool, true, false, Option, none, some, List, [], ◌∷◌, ◌++◌, map,
  is_empty, if◌then◌else◌,
}
use mcp_resile.Base.Dict.{Dict, lookup, insert, delete}
use mcp_resile.Base.Decimal.{decimal}

-- A progress token, `any` in the source: a string, or a JSON value of another kind.
pub data ProgressToken : Type 0 where
  text : Bytes → ProgressToken
  other : Bytes → ProgressToken

pub record Target : Type 0 where
  pub session : ℕ
  pub original : ProgressToken

pub record Router : Type 0 where
  pub server : Option ℕ
  pub next : ℕ
  pub in_flight : Dict Target

abbrev pub new_router : Router
new_router = record { server = none; next = 0; in_flight = [] }

abbrev pub attach : ℕ → Router → Router
attach server r = record r { server = some server }

abbrev pub uint64_mod : ℕ
uint64_mod = 18446744073709551616

-- fmt.Sprintf("mcp-resile-%d", n)
unfoldable pub token_of : ℕ → Bytes
token_of n = codes "mcp-resile-" ++ decimal n

-- TrackProgress: the token for the backend, "" if the client asked for no progress, and the router.
unfoldable pub track_progress : ℕ → Option ProgressToken → Router → Bytes × Router
track_progress session none r = ([], r)
track_progress session (some original) r =
    let n = (r.next + 1) % uint64_mod in
    let token = token_of n in
    (
      token,
      record r {
        next = n;
        in_flight = insert token (record { session = session; original = original }) r.in_flight;
      },
    )

-- The body of the timer that the cleanup function starts.
unfoldable pub forget : Bytes → Router → Router
forget token r = record r { in_flight = delete token r.in_flight }

-- HandleProgress: where the notification goes, and with which token; `none` if it is dropped.
unfoldable pub handle_progress : ProgressToken → Router → Option Target
handle_progress (other v) r = none
handle_progress (text token) r = lookup token r.in_flight

-- HandleLog: the sessions that get the message; `sessions` lists those of a server.
unfoldable pub handle_log : (ℕ → List ℕ) → Router → List ℕ
handle_log sessions r = elim r.server [ none ↦ [] | some s ↦ sessions s ]
