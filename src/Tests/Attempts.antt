-- ===== src/Tests/Attempts.antt =====
-- Calls that are attempted again.
use mcp_resile.Base.{
  ℕ, zero, suc, ◌+◌, ◌≤◌, codes, Option, none, some, [], ◌∷◌, ◌≡◌, refl, inl, inr, pos, arith,
  has_prefix,
}
use mcp_resile.Errors.{ok, err, circuit_open}
use mcp_resile.Policy.{Policy, resolve}
use mcp_resile.Proxy.Route.{match_route, best_route}
use mcp_resile.Proxy.Listing.Callable.{Result-cases}
use mcp_resile.Proxy.Upstream.{Upstream}
use mcp_resile.Proxy.Options.Effective.{effective, attempts_of, retries_of}
use mcp_resile.Proxy.Dispatch.{Reply, Setup, call_tool}
use mcp_resile.Proxy.Dispatch.Attempts.{HonoursAttempts, call_tool-attempts}
use mcp_resile.Tests.Samples.{policy, resilience, exact_match, routes, files_route, read_tool}
use mcp_resile.Tests.Dispatch.{setup, fresh, call}

-- Every call fails; the number counts the calls.
abbrev failing : Upstream ℕ
failing = record {
  list_tools = λ backend count. (ok (read_tool ∷ []), count);
  call_tool = λ backend params count. (err circuit_open, suc count);
}

abbrev tries : ℕ → (ℕ → Reply × ℕ) → ℕ → Reply × ℕ
tries zero dispatch w = (err circuit_open, w)
tries (suc n) dispatch w =
    let later = tries n dispatch (dispatch w).1 in
    elim (dispatch w).0 [ ok r ↦ (ok r, (dispatch w).1) | err e ↦ later ]

abbrev up_to : Option ℕ → (ℕ → Reply × ℕ) → ℕ → Reply × ℕ
up_to none dispatch w = dispatch w
up_to (some n) dispatch w = tries n dispatch w

abbrev retried : Policy
retried = record {
  config = record policy {
    resilience = record resilience {
      retries = some (record {
        max_attempts = 3;
        backoff = codes "full_jitter";
        base_delay = pos 1;
        max_delay = pos 2;
      });
    };
  };
  circuit_breaker = none;
  rate_limiter = none;
}

abbrev retrying : Setup ℕ
retrying = record setup {
  policies = retried ∷ [];
  upstream = failing;
  resile_do = λ options dispatch w. up_to (effective options).max_attempts dispatch w;
}

tries-le :
    (n : ℕ) (dispatch : ℕ → Reply × ℕ) (w : ℕ)
    → ((v : ℕ) → (dispatch v).1 ≤ suc v)
    → (tries n dispatch w).1 ≤ w + n
tries-le zero dispatch w h = omega arith
tries-le (suc n) dispatch w h = elim (Result-cases (dispatch w).0) [
  | inl (r, e) ↦ rw (e, tries) (omega (arith, h w))
  | inr (x, e) ↦ rw (e, tries) (omega (arith, h w, tries-le n dispatch (dispatch w).1 h))
]

retrying-HonoursAttempts : HonoursAttempts retrying (λ count. count)
retrying-HonoursAttempts = record {
  listing = λ backend w. refl;
  calling = λ backend params w. refl;
  attempts = λ options dispatch n w e h. rw e (tries-le n dispatch w h);
}

read_routed : match_route routes (codes "fs_read") ≡ some (files_route, codes "read")
unfolding match_route best_route has_prefix
read_routed = refl

call_tool-attempts_example :
    (call_tool retrying (some (call (codes "fs_read") (codes "{}"))) none fresh).1.world
    ≤ fresh.world + attempts_of (retries_of (resolve exact_match (retried ∷ []) (codes "read")))
call_tool-attempts_example =
    call_tool-attempts retrying (λ count. count) (call (codes "fs_read") (codes "{}")) none fresh
      files_route (codes "read") retrying-HonoursAttempts read_routed
