-- ===== src/Proxy/Route/Matching.antt =====
-- What matchRoute finds, and when it finds nothing.
use mcp_resile.Base.{
  ◌≤◌, Bytes, true, false, ◌&&◌, Option, none, some, List, [], ◌∷◌, ◌++◌, length, drop, ◌≡◌, ◌∙◌,
  sym, ◌↔◌, refl, ◌⊎◌, inl, inr, arith, In, Bool-cases, Option-cases, has_prefix, has_prefix-drop,
  has_prefix-append, ap, drop-append, append-nil, append_assoc,
}
use mcp_resile.Proxy.Route.{Route, longer_than, best_route, forward, match_route}

abbrev pub Fits : Bytes → Route → Type 0
Fits name r = has_prefix name r.prefix ≡ true

-- `r` fits, and no listed route that fits has a longer prefix.
pub record IsBest (name : Bytes) (routes : List Route) (r : Route) : Type 0 where
  pub listed : In r routes
  pub fits : Fits name r
  pub longest : (s : Route) → In s routes → Fits name s → length s.prefix ≤ length r.prefix

-- What the loop has established after some routes.
abbrev Found : Bytes → List Route → Option Route → Type 0
Found name seen none = (s : Route) → In s seen → ¬ Fits name s
Found name seen (some r) = IsBest name seen r

In-snoc : {A : Type 0} (a x : A) (xs : List A) → In a (xs ++ x ∷ []) → In a xs ⊎ (a ≡ x)
In-snoc a x [] (inl e) = inr e
In-snoc a x [] (inr m) = absurd m
In-snoc a x (y ∷ xs) (inl e) = inl (inl e)
In-snoc a x (y ∷ xs) (inr m) = elim (In-snoc a x xs m) [ inl i ↦ inl (inr i) | inr e ↦ inr e ]

In-snoc_last : {A : Type 0} (x : A) (xs : List A) → In x (xs ++ x ∷ [])
In-snoc_last x [] = inl refl
In-snoc_last x (y ∷ xs) = inr (In-snoc_last x xs)

In-snoc_old : {A : Type 0} (a x : A) (xs : List A) → In a xs → In a (xs ++ x ∷ [])
In-snoc_old a x [] m = absurd m
In-snoc_old a x (y ∷ xs) (inl e) = inl e
In-snoc_old a x (y ∷ xs) (inr m) = inr (In-snoc_old a x xs m)

keep_best :
    (name : Bytes) (seen : List Route) (best : Option Route) (r : Route)
    → Found name seen best
    → (has_prefix name r.prefix && longer_than r.prefix best) ≡ false
    → Found name (seen ++ r ∷ []) best
keep_best name seen none r f h = λ s m fit. elim (In-snoc s r seen m) [
  | inl old ↦ f s old fit
  | inr e ↦ (ground (arith, ap (λ (x : Route). has_prefix name x.prefix) e))
]
keep_best name seen (some b) r f h = record {
  listed = In-snoc_old b r seen f.listed;
  fits = f.fits;
  longest = λ s m fit. elim (In-snoc s r seen m) [
    | inl old ↦ f.longest s old fit
    | inr e ↦ ground (
      arith,
      ap (λ (x : Route). has_prefix name x.prefix) e,
      ap (λ (x : Route). length x.prefix) e,
    )
  ];
}

take_new :
    (name : Bytes) (seen : List Route) (best : Option Route) (r : Route)
    → Found name seen best
    → (has_prefix name r.prefix && longer_than r.prefix best) ≡ true
    → IsBest name (seen ++ r ∷ []) r
take_new name seen none r f h = record {
  listed = In-snoc_last r seen;
  fits = ground arith;
  longest = λ s m fit. elim (In-snoc s r seen m) [
    | inl old ↦ absurd (f s old fit)
    | inr e ↦ ground (arith, ap (λ (x : Route). length x.prefix) e)
  ];
}
take_new name seen (some b) r f h = record {
  listed = In-snoc_last r seen;
  fits = ground arith;
  longest = λ s m fit. elim (In-snoc s r seen m) [
    | inl old ↦ ground (arith, f.longest s old fit)
    | inr e ↦ ground (arith, ap (λ (x : Route). length x.prefix) e)
  ];
}

best_route-Found_after :
    (name : Bytes) (seen : List Route) (best : Option Route) (rest : List Route)
    → Found name seen best
    → Found name (seen ++ rest) (best_route name best rest)
unfolding best_route
best_route-Found_after name seen best [] f = rw append-nil f
best_route-Found_after name seen best (r ∷ rs) f =
    elim (Bool-cases (has_prefix name r.prefix && longer_than r.prefix best)) [
      | inl t ↦
          rw (t, ← append_assoc seen (r ∷ []) rs)
            (best_route-Found_after name (seen ++ r ∷ []) (some r) rs
              (take_new name seen best r f t))
      | inr e ↦
          rw (e, ← append_assoc seen (r ∷ []) rs)
            (best_route-Found_after name (seen ++ r ∷ []) best rs (keep_best name seen best r f e))
    ]

best_route-Found :
    (name : Bytes) (routes : List Route) → Found name routes (best_route name none routes)
best_route-Found name routes = best_route-Found_after name [] none routes (λ s m _. absurd m)

forward_sound :
    (routes : List Route) (name : Bytes) (o : Option Route) (r : Route) (t : Bytes)
    → Found name routes o
    → forward name o ≡ some (r, t)
    → IsBest name routes r × (r.prefix ++ t ≡ name)
forward_sound routes name none r t f h = cc
forward_sound routes name (some b) r t f h =
    let same : b ≡ r = ground arith in
    let rest : drop (length b.prefix) name ≡ t = ground arith in
    (rw (← same) f, rw (← same, ← rest) (has_prefix-drop name b.prefix f.fits))

-- A match is a listed route whose prefix fits, none that fits is longer, and the forwarded name is
-- what follows that prefix.
pub match_route_sound :
    (routes : List Route) (name : Bytes) (r : Route) (t : Bytes)
    → match_route routes name ≡ some (r, t)
    → IsBest name routes r × (r.prefix ++ t ≡ name)
unfolding match_route
match_route_sound routes name r t h =
    forward_sound routes name (best_route name none routes) r t (best_route-Found name routes) h

forward-none :
    (routes : List Route) (name : Bytes) (o : Option Route)
    → Found name routes o
    → (forward name o ≡ none) ↔ ((s : Route) → In s routes → ¬ Fits name s)
forward-none routes name none f = (λ _. f, λ _. refl)
forward-none routes name (some b) f = (λ e. cc, λ all. absurd (all b f.listed f.fits))

-- Nothing matches, and the call falls through, exactly when no listed prefix fits the name.
pub match_route-none_iff :
    (routes : List Route) (name : Bytes)
    → (match_route routes name ≡ none) ↔ ((s : Route) → In s routes → ¬ Fits name s)
unfolding match_route
match_route-none_iff routes name =
    forward-none routes name (best_route name none routes) (best_route-Found name routes)

-- Of two prefixes of one text the longer begins with the shorter.
has_prefix_comparable :
    (name p q : Bytes)
    → has_prefix name p ≡ true
    → has_prefix name q ≡ true
    → length q ≤ length p
    → has_prefix p q ≡ true
unfolding has_prefix
has_prefix_comparable name [] [] hp hq h = refl
has_prefix_comparable name (a ∷ p) [] hp hq h = refl
has_prefix_comparable name [] (b ∷ q) hp hq h = absurd (omega arith)
has_prefix_comparable [] (a ∷ p) (b ∷ q) hp hq h = cc
has_prefix_comparable (c ∷ name) (a ∷ p) (b ∷ q) hp hq h =
    ground (arith, has_prefix_comparable name p q)

-- No route's prefix begins with another route's.
abbrev pub PrefixFree : List Route → Type 0
PrefixFree routes =
    (r s : Route) → In r routes → In s routes → has_prefix s.prefix r.prefix ≡ true → s ≡ r

best_unique :
    (routes : List Route) (r : Route) (t : Bytes) {r' : Route}
    → PrefixFree routes
    → In r routes
    → IsBest (r.prefix ++ t) routes r'
    → r' ≡ r
best_unique routes r t {r'} free m best =
    let fits = has_prefix-append r.prefix t in
    free r r' m best.listed (
      has_prefix_comparable (r.prefix ++ t) r'.prefix r.prefix best.fits fits
        (best.longest r m fits))

tail_unique : (p : Bytes) {s t : Bytes} → p ++ s ≡ p ++ t → s ≡ t
tail_unique p {s} {t} e = sym (drop-append p s) ∙ ap (drop (length p)) e ∙ drop-append p t

-- The namespaces are kept apart: where no route's prefix begins with another's, the name that a
-- listed route gives a tool is routed back to that route and that tool.
pub match_route-prefixed :
    (routes : List Route) (r : Route) (t : Bytes)
    → PrefixFree routes
    → In r routes
    → match_route routes (r.prefix ++ t) ≡ some (r, t)
match_route-prefixed routes r t free m = elim (Option-cases (match_route routes (r.prefix ++ t))) [
  | inl e ↦
      absurd ((match_route-none_iff routes (r.prefix ++ t)).0 e r m (has_prefix-append r.prefix t))
  | inr ((r', t'), e) ↦
      let (best, whole) = match_route_sound routes (r.prefix ++ t) r' t' e in
      let same : r' ≡ r = best_unique routes r t free m best in
      let rest : t' ≡ t = tail_unique r.prefix (rw same at whole) in e ∙ cc (same, rest)
]
