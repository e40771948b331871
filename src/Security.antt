-- ===== src/Security.antt =====
-- src/commerce_operations/security/middleware.py: who may call the web server, and how often.
-- Times are ticks of the monotonic clock, and so is the window.
pub mod Window
pub mod Access
use cax_commerce_operations.Prelude.{
  ℕ, ◌+◌, String, Bool, true, false, not, ◌&&◌, ◌||◌, Option, none, some, List, [], ◌∷◌, ◌++◌, ◌==◌,
  Eq-nat, Eq-string, any, contains, leb, length, is_none, ends_with, is_in, if◌then◌else◌,
}

-- The fields of config/settings.py that the middleware reads.
pub record Settings : Type 0 where
  pub api_auth_enabled : Bool
  pub is_production : Bool
  pub api_keys : List (String × String)
  pub api_roles : List (String × List String)
  pub rate_limit_window_seconds : ℕ
  pub rate_limit_requests : ℕ

-- `api_key` is the header X-API-Key, or the empty text; `client` is the host of the client.
pub record Request : Type 0 where
  pub path : String
  pub method : String
  pub api_key : String
  pub client : Option String

-- `_requests`, where a key that is missing has no requests.
abbrev pub Buckets : Type 0
Buckets = String → List ℕ

-- `self.settings.api_roles.get(identity, [])`
abbrev pub roles_of : String → List (String × List String) → List String
roles_of identity [] = []
roles_of identity ((k, roles) ∷ rest) = if k == identity then roles else roles_of identity rest

-- The loop over the configured keys; `digest` is SHA-256.
abbrev pub match_key :
    (String → ℕ)
    → List (String × List String)
    → String
    → List (String × String)
    → Option String × List String
match_key digest api_roles presented [] = (none, [])
match_key digest api_roles presented ((identity, secret) ∷ rest) =
    if digest presented == digest secret
    then (some identity, roles_of identity api_roles)
    else match_key digest api_roles presented rest

-- `_authenticate`
unfoldable pub authenticate : (String → ℕ) → Settings → Request → Option String × List String
authenticate digest settings request =
    if request.api_key == ""
    then (none, [])
    else match_key digest settings.api_roles request.api_key settings.api_keys

abbrev pub is_decision : String → Bool
is_decision path =
    is_in "/approvals/" path && (ends_with path "/approve" || ends_with path "/reject")

-- `roles & names`, as a test
abbrev pub has_any : List String → List String → Bool
has_any names roles = any (λ r. contains r names) roles

-- `_authorized`
unfoldable pub authorized : Request → List String → Bool
authorized request roles =
    if contains "admin" roles
    then true
    else if request.path == "/metrics"
    then false
    else if contains request.method ("GET" ∷ "HEAD" ∷ "OPTIONS" ∷ [])
    then has_any ("viewer" ∷ "operator" ∷ "approver" ∷ []) roles
    else if is_decision request.path
    then contains "approver" roles
    else contains "operator" roles

-- The loop that takes old requests out of a bucket.
unfoldable pub expire : ℕ → ℕ → List ℕ → List ℕ
expire window now [] = []
expire window now (t ∷ ts) =
    let rest = expire window now ts in if leb (t + window) now then rest else t ∷ ts

abbrev pub write_bucket : String → List ℕ → Buckets → Buckets
write_bucket key bucket requests k = if k == key then bucket else requests k

-- `_within_limit`
unfoldable pub within_limit : Settings → String → ℕ → Buckets → Bool × Buckets
within_limit settings key now requests =
    let bucket = expire settings.rate_limit_window_seconds now (requests key) in
    if leb settings.rate_limit_requests (length bucket)
    then (false, write_bucket key bucket requests)
    else (true, write_bucket key (bucket ++ now ∷ []) requests)

-- `identity or request.client.host if request.client else "unknown"`
abbrev pub limit_key : Option String → Request → String
limit_key identity request = elim request.client [
  | none ↦ "unknown"
  | some host ↦ elim identity [ none ↦ host | some name ↦ if name == "" then host else name ]
]

-- What becomes of a request: it is passed on as it came, or passed on with the identity and the roles
-- of its caller, or denied with a status.
pub data Answer : Type 0 where
  exempt : Answer
  passed : Option String → List String → Answer
  denied : ℕ → Answer

-- `call_next` is called.
abbrev pub is_passed_on : Answer → Bool
is_passed_on Answer.exempt = true
is_passed_on (Answer.passed identity roles) = true
is_passed_on (Answer.denied status) = false

-- `dispatch`
unfoldable pub dispatch : (String → ℕ) → Settings → Request → ℕ → Buckets → Answer × Buckets
unfolding authenticate authorized within_limit
dispatch digest settings request now requests =
    let (identity, roles) = authenticate digest settings request in
    let auth_required = settings.api_auth_enabled || settings.is_production in
    let (free, after) = within_limit settings (limit_key identity request) now requests in
    if contains request.path ("/health" ∷ "/ready" ∷ [])
    then (Answer.exempt, requests)
    else if auth_required && is_none identity
    then (Answer.denied 401, requests)
    else if auth_required && not (authorized request roles)
    then (Answer.denied 403, requests)
    else if free
    then (Answer.passed identity roles, after)
    else (Answer.denied 429, after)
