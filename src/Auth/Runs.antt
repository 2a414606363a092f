-- ===== src/Auth/Runs.antt =====
-- Runs of requests through the middleware of internal/auth/auth.go.
use mcp_resile.Base.{Bytes, List, [], ◌∷◌, ◌≡◌, refl, inl, inr, if◌then◌else◌, Bool-cases}
use mcp_resile.Config.Types.{Auth}
use mcp_resile.Auth.Admission.{
  IsAdmitted, is_admitted, admission, middleware-admitted, middleware-refused,
}
use mcp_resile.Auth.{Request, UnauthorizedBody, Handler, middleware, serve_http}

unfoldable pub admitted : Auth → List Request → List Request
admitted cfg [] = []
admitted cfg (r ∷ rs) = let rest = admitted cfg rs in if is_admitted cfg r then r ∷ rest else rest

-- The requests of a run that are let through, in their order.
pub data Admits (cfg : Auth) : List Request → List Request → Type 0 where
  no_more : Admits cfg [] []
  lets_through :
      {rs accepted : List Request} (r : Request)
      → IsAdmitted cfg r
      → Admits cfg rs accepted
      → Admits cfg (r ∷ rs) (r ∷ accepted)
  turns_away :
      {rs accepted : List Request} (r : Request)
      → (¬ IsAdmitted cfg r)
      → Admits cfg rs accepted
      → Admits cfg (r ∷ rs) accepted

pub admitted-Admits : (cfg : Auth) (rs : List Request) → Admits cfg rs (admitted cfg rs)
unfolding admitted
admitted-Admits cfg [] = no_more
admitted-Admits cfg (r ∷ rs) = elim (admission cfg r) [
  | inl (through, h) ↦ rw through (lets_through r h (admitted-Admits cfg rs))
  | inr (refused, h) ↦ rw refused (turns_away r h (admitted-Admits cfg rs))
]

-- Requests that are refused do not interfere: whatever lies behind the check ends a run as if they
-- had never been sent.
pub serve_http-admitted :
    {W : Type 0} (encode : UnauthorizedBody → Bytes) (cfg : Auth) (next : Handler W)
    (rs : List Request) (w : W)
    → (serve_http (middleware encode cfg next) rs w).1 ≡ (serve_http next (admitted cfg rs) w).1
unfolding serve_http admitted
serve_http-admitted encode cfg next [] w = refl
serve_http-admitted encode cfg next (r ∷ rs) w = elim (Bool-cases (is_admitted cfg r)) [
  | inl yields ↦
      rw (middleware-admitted encode cfg next r w yields, yields)
        (serve_http-admitted encode cfg next rs (next r w).1)
  | inr lacks ↦
      rw (middleware-refused encode cfg next r w lacks, lacks)
        (serve_http-admitted encode cfg next rs w)
]
