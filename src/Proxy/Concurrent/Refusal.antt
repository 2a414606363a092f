-- ===== src/Proxy/Concurrent/Refusal.antt =====
-- Calls of internal/proxy/proxy.go whose arguments the tool's schema refuses.
use mcp_resile.Base.{ℕ, zero, suc, Bytes, some, ◌≡◌, refl}
use mcp_resile.Errors.{GoError, err}
use mcp_resile.Proxy.Schema.{get, validate_arguments}
use mcp_resile.Proxy.Dispatch.{Setup}
use mcp_resile.Proxy.Concurrent.{
  Shared, Job, Place, resolving, checking, recording, logging, finished, Input,
}
use mcp_resile.Proxy.Concurrent.Moves.{
  Moves, waits, looks_up, listed, filled, fills, checks, tracks, answered, closes, records, logs,
  move-Moves,
}
use mcp_resile.Proxy.Concurrent.Finishing.{rounds}

-- The call is before its check, which is to be against the schema, or has the error as its reply.
abbrev pub IsRefused : Bytes → GoError → Place → Type 0
IsRefused c e resolving = Unit
IsRefused c e (checking found) = found ≡ some c
IsRefused c e (recording reply) = reply ≡ err e
IsRefused c e (logging reply) = reply ≡ err e
IsRefused c e (finished reply) = reply ≡ err e
IsRefused c e _ = ⊥

module _ {W : Type 0} (s : Setup W) (j : Job) (c : Bytes) (e : GoError) where
  -- The schema is the one in the cache for the call's tool.
  abbrev pub IsCached : Shared → Type 0
  IsCached g = get j.params.name g.cache ≡ some c

  Moves-IsRefused :
      {g : Shared} {p : Place} {r : Shared × Place}
      → validate_arguments s.json c j.name j.params.arguments ≡ some e
      → Moves s j g p r
      → IsCached g
      → IsRefused c e p
      → IsCached r.0 × IsRefused c e r.1
  Moves-IsRefused bad (waits p) k h = (k, h)
  Moves-IsRefused bad looks_up k h = (k, rw k refl)
  Moves-IsRefused bad (listed reply) k h = absurd h
  Moves-IsRefused bad filled k h = absurd h
  Moves-IsRefused bad (fills t ts) k h = absurd h
  Moves-IsRefused bad (checks found) k h = (k, rw (h, bad) refl)
  Moves-IsRefused bad tracks k h = absurd h
  Moves-IsRefused bad (answered token reply) k h = absurd h
  Moves-IsRefused bad (closes token reply) k h = absurd h
  Moves-IsRefused bad (records reply) k h = (k, h)
  Moves-IsRefused bad (logs reply) k h = (k, h)

  rounds-IsRefused :
      (others : ℕ → Shared → Shared) (answers : ℕ → Place → Input)
      → validate_arguments s.json c j.name j.params.arguments ≡ some e
      → ((n : ℕ) (g : Shared) → IsCached g → IsCached (others n g))
      → (n : ℕ) (g : Shared) (p : Place) → IsCached g
      → IsRefused c e p
      → IsRefused c e (rounds s j others answers n (g, p)).1
  unfolding rounds
  rounds-IsRefused others answers bad keep zero g p k h = h
  rounds-IsRefused others answers bad keep (suc n) g p k h =
      let (kept, refused) =
        Moves-IsRefused bad (move-Moves s j (answers n p) (others n g) p) (keep n g k) h in
      rounds-IsRefused others answers bad keep n _ _ kept refused

  -- A call that arrives while the schema cache holds a schema of its tool that refuses its arguments
  -- with an error asks no backend for anything, opens no token, and has no reply but that error: after
  -- any number of its pieces, whatever other goroutines do between them that keeps this entry, and
  -- whatever answers come.
  pub call-IsRefused :
      (others : ℕ → Shared → Shared) (answers : ℕ → Place → Input)
      → validate_arguments s.json c j.name j.params.arguments ≡ some e
      → ((n : ℕ) (g : Shared) → IsCached g → IsCached (others n g))
      → (n : ℕ) (g : Shared) → IsCached g
      → IsRefused c e (rounds s j others answers n (g, resolving)).1
  call-IsRefused others answers bad keep n g k =
      rounds-IsRefused others answers bad keep n g resolving k tt
