-- ===== src/Proxy/Concurrent/Isolation.antt =====
-- What a call of internal/proxy/proxy.go owes to other calls: nothing but its entry in the schema cache.
use mcp_resile.Base.{ℕ, zero, suc, ◌+◌, Bytes, [], ◌∷◌, ◌≡◌, ◌∙◌, sym, ap, refl}
use mcp_resile.Proxy.Schema.{get}
use mcp_resile.Proxy.Schema.Caching.{refresh_cong}
use mcp_resile.Proxy.Dispatch.{Setup, Reply}
use mcp_resile.Proxy.Concurrent.{
  Shared, Job, Place, resolving, fetching, tracking, filling, checking, running, closing, recording,
  logging, finished, Input, silent, move,
}
use mcp_resile.Proxy.Concurrent.Finishing.{
  IsAwaited, tools_listed, listing_failed, replied, nothing_asked, rounds, call_finishes,
}

-- The same place, up to the progress token.
data IsSame : Place → Place → Type 0 where
  same : (p : Place) → IsSame p p
  same_running : (t u : Bytes) → IsSame (running t) (running u)
  same_closing : (t u : Bytes) (reply : Reply) → IsSame (closing t reply) (closing u reply)

finished-IsSame : (reply : Reply) (q : Place) → IsSame (finished reply) q → q ≡ finished reply
finished-IsSame reply q (same p) = refl

closing-IsAwaited :
    (k : ℕ) (token : Bytes) (reply : Reply) (i : Input)
    → IsAwaited k (closing token reply) i
    → i ≡ silent
closing-IsAwaited k token reply i (nothing_asked p h) = refl

-- The answers do not depend on the token.
abbrev pub IsTokenBlind : (ℕ → Place → Input) → Type 0
IsTokenBlind answers = (n : ℕ) (t u : Bytes) → answers n (running t) ≡ answers n (running u)

same_answers :
    (k : ℕ) (answers : ℕ → Place → Input)
    → ((n : ℕ) (p : Place) → IsAwaited k p (answers n p))
    → IsTokenBlind answers
    → (n : ℕ) (p q : Place) → IsSame p q
    → answers n q ≡ answers n p
same_answers k answers a blind n p q (same r) = refl
same_answers k answers a blind n p q (same_running t u) = blind n u t
same_answers k answers a blind n p q (same_closing t u reply) =
    closing-IsAwaited k u reply (answers n (closing u reply)) (a n (closing u reply))
    ∙ sym (closing-IsAwaited k t reply (answers n (closing t reply)) (a n (closing t reply)))

module _ {W : Type 0} (s : Setup W) (j : Job) where
  -- The two find the same entry for the call's tool.
  abbrev pub IsAgreed : Shared → Shared → Type 0
  IsAgreed g h = get j.params.name g.cache ≡ get j.params.name h.cache

  abbrev IsAlike : Shared × Place → Shared × Place → Type 0
  IsAlike (g, p) (h, q) = IsAgreed g h × IsSame p q

  move-IsAlike :
      (k : ℕ) (i : Input) (g h : Shared) (p q : Place)
      → IsAgreed g h
      → IsSame p q
      → IsAwaited k p i
      → IsAlike (move s j i g p) (move s j i h q)
  unfolding move
  move-IsAlike k i g h p q e (same r) (tools_listed tools few) = (e, same _)
  move-IsAlike k i g h p q e (same r) (listing_failed x) = (e, same _)
  move-IsAlike k i g h p q e (same r) (replied token reply) = (e, same _)
  move-IsAlike k i g h p q e (same r) (nothing_asked resolving a) = (e, rw e (same _))
  move-IsAlike k i g h p q e (same r) (nothing_asked fetching a) = absurd a
  move-IsAlike k i g h p q e (same r) (nothing_asked tracking a) = (e, same_running _ _)
  move-IsAlike k i g h p q e (same r) (nothing_asked (filling []) a) = (e, rw e (same _))
  move-IsAlike k i g h p q e (same r) (nothing_asked (filling (t ∷ ts)) a) =
      (refresh_cong s.json _ j.params.name t g.cache h.cache e, same _)
  move-IsAlike k i g h p q e (same r) (nothing_asked (checking o) a) = (e, same _)
  move-IsAlike k i g h p q e (same r) (nothing_asked (running token) a) = absurd a
  move-IsAlike k i g h p q e (same r) (nothing_asked (closing token reply) a) = (e, same _)
  move-IsAlike k i g h p q e (same r) (nothing_asked (recording reply) a) = (e, same _)
  move-IsAlike k i g h p q e (same r) (nothing_asked (logging reply) a) = (e, same _)
  move-IsAlike k i g h p q e (same r) (nothing_asked (finished reply) a) = (e, same _)
  move-IsAlike k i g h p q e (same_running t u) (replied token reply) = (e, same_closing t u _)
  move-IsAlike k i g h p q e (same_running t u) (nothing_asked r a) = absurd a
  move-IsAlike k i g h p q e (same_closing t u reply) (nothing_asked r a) = (e, same _)

  rounds-IsAlike :
      (k : ℕ) (others others' : ℕ → Shared → Shared) (answers : ℕ → Place → Input)
      → ((n : ℕ) (p : Place) → IsAwaited k p (answers n p))
      → IsTokenBlind answers
      → ((n : ℕ) (g h : Shared) → IsAgreed g h → IsAgreed (others n g) (others' n h))
      → (n : ℕ) (x y : Shared × Place) → IsAlike x y
      → IsAlike (rounds s j others answers n x) (rounds s j others' answers n y)
  unfolding rounds
  rounds-IsAlike k others others' answers a blind agree zero x y v = v
  rounds-IsAlike k others others' answers a blind agree (suc n) (g, p) (h, q) (e, v) =
      rounds-IsAlike k others others' answers a blind agree n _ _ (
        rw (same_answers k answers a blind n p q v)
          (move-IsAlike k (answers n p) (others n g) (others' n h) p q (agree n g h e) v (a n p)))

  -- A call gets the same reply whatever other goroutines do, as long as they leave its tool the same
  -- entry in the schema cache: two runs of it, from states with the same such entry, with the same
  -- answers of its backend, and with any two accounts of what the others do to the cache, the router,
  -- the counter and the log between its pieces, finish with the same reply after `k + 9` pieces; if
  -- the answers that it waits for come and do not depend on the progress token, and a listing has at
  -- most `k` tools.
  pub call_isolated :
      (k : ℕ) (others others' : ℕ → Shared → Shared) (answers : ℕ → Place → Input)
      → ((n : ℕ) (p : Place) → IsAwaited k p (answers n p))
      → IsTokenBlind answers
      → ((n : ℕ) (g h : Shared) → IsAgreed g h → IsAgreed (others n g) (others' n h))
      → (g h : Shared) → IsAgreed g h
      → (reply : Reply) × (g' h' : Shared) × (rounds s j others answers (k + 9) (g, resolving)
          ≡ (g', finished reply))
        × (rounds s j others' answers (k + 9) (h, resolving) ≡ (h', finished reply))
  call_isolated k others others' answers a blind agree g h e =
      let (reply, g', ends) = call_finishes s j k others answers a g in
      let (reply', h', ends') = call_finishes s j k others' answers a h in
      let (_, alike) =
        rounds-IsAlike k others others' answers a blind agree (k + 9) (g, resolving) (h, resolving)
          (e, same resolving) in
      let alike' : IsSame (finished reply) (finished reply') = rw (ends, ends') at alike in
      (
        reply,
        g',
        h',
        ends,
        ends' ∙ ap (λ p. (h', p)) (finished-IsSame reply (finished reply') alike'),
      )
