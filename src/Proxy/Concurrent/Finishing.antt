-- ===== src/Proxy/Concurrent/Finishing.antt =====
-- How many pieces a call of internal/proxy/proxy.go takes, whatever other goroutines do between them.
use mcp_resile.Base.{
  ℕ, zero, suc, ◌+◌, ◌≤◌, Bytes, Option, none, some, List, [], ◌∷◌, length, ◌≡◌, refl, arith, ap,
}
use mcp_resile.Errors.{GoError, ok, err}
use mcp_resile.Proxy.Schema.{Tool, get}
use mcp_resile.Proxy.Dispatch.{Setup, Reply, violation}
use mcp_resile.Proxy.Concurrent.{
  Shared, Job, Place, resolving, fetching, tracking, filling, checking, running, closing, recording,
  logging, finished, Input, silent, lists, replies, move, after_lookup, after_validation,
}

-- A place whose piece calls no library and no backend.
abbrev pub AsksNobody : Place → Type 0
AsksNobody fetching = ⊥
AsksNobody (running token) = ⊥
AsksNobody _ = Unit

-- The answers that a place waits for; a listing has at most `k` tools.
pub data IsAwaited (k : ℕ) : Place → Input → Type 0 where
  tools_listed : (tools : List Tool) → length tools ≤ k → IsAwaited k fetching (lists (ok tools))
  listing_failed : (e : GoError) → IsAwaited k fetching (lists (err e))
  replied : (token : Bytes) (reply : Reply) → IsAwaited k (running token) (replies reply)
  nothing_asked : (p : Place) → AsksNobody p → IsAwaited k p silent

-- The pieces that are left at most.
abbrev pub left : ℕ → Place → ℕ
left k resolving = k + 9
left k fetching = k + 8
left k (filling tools) = length tools + 7
left k (checking resolved) = 6
left k tracking = 5
left k (running token) = 4
left k (closing token reply) = 3
left k (recording reply) = 2
left k (logging reply) = 1
left k (finished reply) = 0

module _ {W : Type 0} (s : Setup W) (j : Job) where
  lookup-left : (k : ℕ) (o : Option Bytes) → left k (after_lookup s o) ≤ k + 8
  lookup-left k none = omega arith
  lookup-left k (some c) = omega arith

  validation-left : (k : ℕ) (o : Option GoError) → left k (after_validation s o) ≤ 5
  validation-left k none = omega arith
  validation-left k (some e) = omega arith

  move-left :
      (k n : ℕ) (i : Input) (g : Shared) (p : Place)
      → IsAwaited k p i
      → left k p ≤ suc n
      → left k (move s j i g p).1 ≤ n
  unfolding move
  move-left k n i g p (tools_listed tools few) le = omega arith
  move-left k n i g p (listing_failed e) le = omega arith
  move-left k n i g p (replied token reply) le = omega arith
  move-left k n i g p (nothing_asked resolving h) le =
      omega (arith, le, lookup-left k (get j.params.name g.cache))
  move-left k n i g p (nothing_asked fetching h) le = absurd h
  move-left k n i g p (nothing_asked tracking h) le = omega arith
  move-left k n i g p (nothing_asked (filling []) h) le = omega arith
  move-left k n i g p (nothing_asked (filling (t ∷ ts)) h) le = omega arith
  move-left k n i g p (nothing_asked (checking o) h) le =
      omega (arith, le, validation-left k (violation s (ok o) j.name j.params.arguments))
  move-left k n i g p (nothing_asked (running token) h) le = absurd h
  move-left k n i g p (nothing_asked (closing token reply) h) le = omega arith
  move-left k n i g p (nothing_asked (recording reply) h) le = omega arith
  move-left k n i g p (nothing_asked (logging reply) h) le = omega arith
  move-left k n i g p (nothing_asked (finished reply) h) le = omega arith

  -- The next `n` pieces of the call. Before each, the others do something to what they share; the
  -- answers are those that come then.
  unfoldable pub rounds :
      (ℕ → Shared → Shared) → (ℕ → Place → Input) → ℕ → Shared × Place → Shared × Place
  rounds others answers zero x = x
  rounds others answers (suc n) (g, p) =
      rounds others answers n (move s j (answers n p) (others n g) p)

  none_left : (k : ℕ) (p : Place) → left k p ≤ 0 → (reply : Reply) × (p ≡ finished reply)
  none_left k (finished reply) h = (reply, refl)
  none_left k resolving h = absurd (omega arith)
  none_left k fetching h = absurd (omega arith)
  none_left k (filling ts) h = absurd (omega arith)
  none_left k (checking o) h = absurd (omega arith)
  none_left k tracking h = absurd (omega arith)
  none_left k (running token) h = absurd (omega arith)
  none_left k (closing token reply) h = absurd (omega arith)
  none_left k (recording reply) h = absurd (omega arith)
  none_left k (logging reply) h = absurd (omega arith)

  rounds-finish :
      (k : ℕ) (others : ℕ → Shared → Shared) (answers : ℕ → Place → Input)
      → ((n : ℕ) (p : Place) → IsAwaited k p (answers n p))
      → (n : ℕ) (g : Shared) (p : Place) → left k p ≤ n
      → (reply : Reply) × (g' : Shared) × (rounds others answers n (g, p) ≡ (g', finished reply))
  unfolding rounds
  rounds-finish k others answers a zero g p h =
      let (reply, e) = none_left k p h in (reply, g, ap (λ q. (g, q)) e)
  rounds-finish k others answers a (suc n) g p h =
      rounds-finish k others answers a n _ _ (move-left k n (answers n p) (others n g) p (a n p) h)

  -- A call finishes with a reply after at most `k + 9` pieces, if its backend's listing, in case it
  -- is asked for one, has at most `k` tools, and if the answers that it waits for come: whatever the
  -- other goroutines do to the cache, the router, the counter and the log between its pieces.
  pub call_finishes :
      (k : ℕ) (others : ℕ → Shared → Shared) (answers : ℕ → Place → Input)
      → ((n : ℕ) (p : Place) → IsAwaited k p (answers n p))
      → (g : Shared)
      → (reply : Reply) × (g' : Shared) × (rounds others answers (k + 9) (g, resolving)
          ≡ (g', finished reply))
  call_finishes k others answers a g =
      rounds-finish k others answers a (k + 9) g resolving (omega arith)
