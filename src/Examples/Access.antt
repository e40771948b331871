-- ===== src/Examples/Access.antt =====
-- A web server that lets two calls through in ten ticks.
use cax_commerce_operations.Prelude.{
  ℕ, ◌≤◌, ◌≡◌, ◌⊎◌, refl, String, true, false, some, List, [], ◌∷◌, arith, ends_with, ◌==◌,
  Eq-string, if◌then◌else◌,
}
use cax_commerce_operations.Security.{
  Settings, Request, Buckets, Answer, authenticate, authorized, expire, within_limit, dispatch,
  is_passed_on,
}
use cax_commerce_operations.Security.Window.{
  Call, InOrder, answers, reference, passed, in_window, limiter_exact, rate_bounded,
}
use cax_commerce_operations.Security.Access.{IsProbe, IsAllowed, passed-MayCall}

abbrev settings : Settings
settings = record {
  api_auth_enabled = true;
  is_production = false;
  api_keys = ("bob", "secret") ∷ [];
  api_roles = ("bob", "approver" ∷ []) ∷ [];
  rate_limit_window_seconds = 10;
  rate_limit_requests = 2;
}

abbrev calls : List Call
calls = ("bob", 1) ∷ ("bob", 3) ∷ ("bob", 5) ∷ ("eve", 6) ∷ ("bob", 11) ∷ []

calls-InOrder : InOrder 0 calls
calls-InOrder = (omega arith, (omega arith, (omega arith, (omega arith, (omega arith, tt)))))

limiter_exact_example : answers settings calls (λ k. []) ≡ reference settings [] calls
limiter_exact_example = limiter_exact settings calls calls-InOrder

third_refused : answers settings calls (λ k. []) ≡ true ∷ true ∷ false ∷ true ∷ true ∷ []
unfolding answers within_limit expire
third_refused = refl

rate_bounded_example : in_window 10 "bob" 2 (passed calls (answers settings calls (λ k. []))) ≤ 2
rate_bounded_example = rate_bounded settings "bob" 2 calls calls-InOrder

-- An approver decides an approval. The digest is that of one key.
abbrev request : Request
request = record {
  path = "/api/approvals/7/approve";
  method = "POST";
  api_key = "secret";
  client = some "10.0.0.1";
}

abbrev digest : String → ℕ
digest t = if t == "secret" then 5 else 6

abbrev after : Buckets
after = (dispatch digest settings request 1 (λ k. [])).1

is_passed :
    dispatch digest settings request 1 (λ k. [])
    ≡ (Answer.passed (some "bob") ("approver" ∷ []), after)
unfolding dispatch authenticate authorized within_limit expire ends_with
is_passed = refl

goes_on : is_passed_on (dispatch digest settings request 1 (λ k. [])).0 ≡ true
unfolding dispatch authenticate authorized within_limit expire ends_with
goes_on = refl

passed-MayCall_example : IsProbe request ⊎ IsAllowed digest settings request
passed-MayCall_example = passed-MayCall digest settings request 1 (λ k. []) refl goes_on
