-- ===== src/Security/Access.antt =====
-- Whom the web server lets in.
use mathlib.Core.List.{Memᴰ}
use cax_commerce_operations.Prelude.{
  ℕ, ◌≡◌, refl, sym, ap, ◌∙◌, String, true, false, ◌||◌, some, List, [], ◌∷◌, ◌==◌, Eq-nat,
  Eq-string, inl, inr, arith, contains, is_none, ◌⊎◌, Bool-cases, Option-cases,
}
use cax_commerce_operations.Security.{
  Settings, Request, Buckets, authenticate, match_key, roles_of, authorized, has_any, is_decision,
  dispatch, is_passed_on,
}

-- The role that a path and a method ask for.
pub data MayCall (request : Request) (roles : List String) : Type 0 where
  administers : contains "admin" roles ≡ true → MayCall request roles
  reads :
      contains request.method ("GET" ∷ "HEAD" ∷ "OPTIONS" ∷ []) ≡ true
      → (request.path == "/metrics") ≡ false
      → has_any ("viewer" ∷ "operator" ∷ "approver" ∷ []) roles ≡ true
      → MayCall request roles
  decides :
      is_decision request.path ≡ true
      → (request.path == "/metrics") ≡ false
      → contains "approver" roles ≡ true
      → MayCall request roles
  operates :
      is_decision request.path ≡ false
      → (request.path == "/metrics") ≡ false
      → contains "operator" roles ≡ true
      → MayCall request roles

authorized-MayCall :
    (request : Request) (roles : List String)
    → authorized request roles ≡ true
    → MayCall request roles
unfolding authorized
authorized-MayCall request roles h = elim (Bool-cases (contains "admin" roles)) [
  | inl admin ↦ MayCall.administers admin
  | inr plain ↦ elim (Bool-cases (request.path == "/metrics")) [
    | inl metrics ↦ absurd (ground (arith, plain, metrics, h))
    | inr other ↦ elim (Bool-cases (contains request.method ("GET" ∷ "HEAD" ∷ "OPTIONS" ∷ []))) [
      | inl read ↦ MayCall.reads read other (rw plain at rw other at rw read at h)
      | inr write ↦ elim (Bool-cases (is_decision request.path)) [
        | inl decision ↦
            MayCall.decides decision other (ground (arith, plain, other, write, decision, h))
        | inr operation ↦
            MayCall.operates operation other (ground (arith, plain, other, write, operation, h))
      ]
    ]
  ]
]

-- A key that is known.
matched :
    (digest : String → ℕ) (api_roles : List (String × List String)) (presented identity : String)
    (roles : List String) (keys : List (String × String))
    → match_key digest api_roles presented keys ≡ (some identity, roles)
    → (secret : String) × Memᴰ (identity, secret) keys
      × (digest presented ≡ digest secret)
      × (roles ≡ roles_of identity api_roles)
matched digest api_roles presented identity roles [] h = absurd (ground (arith, h))
matched digest api_roles presented identity roles ((name, secret) ∷ keys) h =
    elim (Bool-cases (digest presented == digest secret)) [
      | inl same ↦
          let known : (name ≡ identity) × (roles_of name api_roles ≡ roles) =
            ground (arith, same, h) in
          (
            secret,
            rw (← known.0) (Memᴰ.head refl),
            (Eq-nat.beq_iff (digest presented) (digest secret)).0 same,
            sym known.1 ∙ ap (λ n. roles_of n api_roles) known.0,
          )
      | inr other ↦
          let (found, member, same, granted) =
            matched digest api_roles presented identity roles keys (ground (arith, other, h)) in
          (found, Memᴰ.tail member, same, granted)
    ]

-- The owner of the key that a request presents.
record Known (digest : String → ℕ) (settings : Settings) (request : Request) (name : String)
    (roles : List String) : Type 0 where
  secret : String
  configured : Memᴰ (name, secret) settings.api_keys
  same : digest request.api_key ≡ digest secret
  granted : roles ≡ roles_of name settings.api_roles

authenticated :
    (digest : String → ℕ) (settings : Settings) (request : Request) (name : String)
    (roles : List String)
    → authenticate digest settings request ≡ (some name, roles)
    → Known digest settings request name roles
unfolding authenticate
authenticated digest settings request name roles h = elim (Bool-cases (request.api_key == "")) [
  | inl empty ↦ absurd (ground (arith, empty, h))
  | inr given ↦
      let (secret, member, same, granted) =
        matched digest settings.api_roles request.api_key name roles settings.api_keys
          (ground (arith, given, h)) in
      record { secret = secret; configured = member; same = same; granted = granted }
]

-- The two probes that anyone may call.
pub data IsProbe (request : Request) : Type 0 where
  health : request.path ≡ "/health" → IsProbe request
  ready : request.path ≡ "/ready" → IsProbe request

-- A caller who presents a configured key and has a role for the call.
pub record IsAllowed (digest : String → ℕ) (settings : Settings) (request : Request) : Type 0 where
  pub name : String
  pub secret : String
  pub roles : List String
  pub configured : Memᴰ (name, secret) settings.api_keys
  pub same : digest request.api_key ≡ digest secret
  pub granted : roles ≡ roles_of name settings.api_roles
  pub may_call : MayCall request roles

caller-IsAllowed :
    (digest : String → ℕ) (settings : Settings) (request : Request)
    → is_none (authenticate digest settings request).0 ≡ false
    → authorized request (authenticate digest settings request).1 ≡ true
    → IsAllowed digest settings request
caller-IsAllowed digest settings request known allowed =
    let (identity, roles) = authenticate digest settings request in
    elim (Option-cases identity) [
      | inl missing ↦ absurd (ground (arith, missing, known))
      | inr (name, is_name) ↦
          let k = authenticated digest settings request name roles (ap (λ i. (i, roles)) is_name) in
          record {
            name = name;
            secret = k.secret;
            roles = roles;
            configured = k.configured;
            same = k.same;
            granted = k.granted;
            may_call = authorized-MayCall request roles allowed;
          }
    ]

probed :
    (request : Request) → contains request.path ("/health" ∷ "/ready" ∷ []) ≡ true → IsProbe request
probed request h = elim (Bool-cases (request.path == "/health")) [
  | inl same ↦ IsProbe.health ((Eq-string.beq_iff request.path "/health").0 same)
  | inr other ↦
      IsProbe.ready ((Eq-string.beq_iff request.path "/ready").0 (ground (arith, other, h)))
]

-- Where authentication is required, a request that is passed on, with or without an identity, is for
-- /health or /ready, or it presents a key with the digest of a configured one, whose owner has a
-- role that allows the call: an administrator may do all, readers may read anything but /metrics,
-- approvers decide approvals, and operators do the rest.
pub passed-MayCall :
    (digest : String → ℕ) (settings : Settings) (request : Request) (now : ℕ) (requests : Buckets)
    → (settings.api_auth_enabled || settings.is_production) ≡ true
    → is_passed_on (dispatch digest settings request now requests).0 ≡ true
    → IsProbe request ⊎ IsAllowed digest settings request
unfolding dispatch
passed-MayCall digest settings request now requests required h =
    let (i, r) = authenticate digest settings request in
    elim (Bool-cases (contains request.path ("/health" ∷ "/ready" ∷ []))) [
      | inl probe ↦ inl (probed request probe)
      | inr call ↦ elim (Bool-cases (is_none i)) [
        | inl unknown ↦ absurd (ground (arith, call, unknown, required, h))
        | inr known ↦ elim (Bool-cases (authorized request r)) [
          | inr forbidden ↦ absurd (ground (arith, call, known, forbidden, required, h))
          | inl allowed ↦ inr (caller-IsAllowed digest settings request known allowed)
        ]
      ]
    ]
