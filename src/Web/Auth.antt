-- ===== src/Web/Auth.antt =====
-- agent/src/web/api/mod.rs and extract.rs: the middleware in front of the protected API, and the
-- address of a client. The check of a session token, the access rule and what it is told of the
-- request, the rendering of a peer's address and the claims' user are arguments.
pub mod Admission
use analytics.Common.{
  ℕ, Bool, true, false, ◌&&◌, ◌||◌, not, Option, none, some, List, [], ◌∷◌, Text, codes, text_eq,
  trim, is_empty, split_by, ◌==◌, if◌then◌else◌,
}
use analytics.Ratelimit.{RateLimiter, check}

pub data Method : Type 0 where
  get head options post put patch delete trace connect : Method
  extension : Text → Method

abbrev pub is_mutating : Method → Bool
is_mutating post = true
is_mutating put = true
is_mutating patch = true
is_mutating delete = true
is_mutating _ = false

-- A header or a cookie that is absent or not valid text is `none`.
pub record Request : Type 0 where
  pub method : Method
  pub header : Text → Option Text
  pub cookie : Text → Option Text
  pub peer : Option Text

abbrev last_or : Text → List Text → Text
last_or t [] = t
last_or t (s ∷ l) = last_or s l

abbrev non_blank : Option Text → Option Text
non_blank none = none
non_blank (some t) = if is_empty (trim t) then none else some (trim t)

-- `rsplit(',').next()`
abbrev rightmost : Option Text → Option Text
rightmost none = none
rightmost (some forwarded) = some (last_or [] (split_by (λ c. c == b',') forwarded))

abbrev peer_address : Option Text → Text
peer_address none = []
peer_address (some ip) = ip

unfoldable pub client_ip : Request → Bool → Text
client_ip req false = peer_address req.peer
client_ip req true = elim (non_blank (rightmost (req.header (codes "x-forwarded-for")))) [
  | some last ↦ last
  | none ↦ elim (non_blank (req.header (codes "x-real-ip"))) [
    | some real ↦ real
    | none ↦ peer_address req.peer
  ]
]

abbrev is_one : Option Text → Bool
is_one none = false
is_one (some t) = text_eq t (codes "1")

unfoldable pub privacy_signal : Request → Bool
privacy_signal req = is_one (req.header (codes "dnt")) || is_one (req.header (codes "sec-gpc"))

abbrev tokens_match : Option Text → Option Text → Bool
tokens_match (some header) (some cookie) = not (is_empty header) && text_eq header cookie
tokens_match (some header) none = false
tokens_match none _ = false

-- The double-submit check. The names of the header and the cookies are those of the server.
unfoldable pub csrf_ok : Text → Text → Request → Bool
csrf_ok csrf_header csrf_cookie req = tokens_match (req.header csrf_header) (req.cookie csrf_cookie)

-- The application's state, as far as the middleware reads it.
pub record AuthState (Claims : Type 0) : Type 0 where
  pub has_oidc : Bool
  pub trust_proxy : Bool
  pub limits_enabled : Bool
  pub csrf_header : Text
  pub csrf_cookie : Text
  pub session_cookie : Text
  pub validate_token : Text → Option Claims
  -- `AdminRequestFilter` and the rule; an error of the rule is `none`.
  pub acl_matches : Request → Option Text → Option Claims → Option Bool

-- `next` is called with the claims, or the request is answered.
pub data Verdict (Claims : Type 0) : Type 0 where
  passed : Option Claims → Verdict Claims
  forbidden unauthorized too_many : Verdict Claims

module _ {Claims : Type 0} (S : AuthState Claims) where
  abbrev unauthenticated_as : Bool × RateLimiter → Verdict Claims × RateLimiter
  unauthenticated_as (allowed, limiter) = (if allowed then unauthorized else too_many, limiter)

  unfoldable pub unauthenticated : Request → ℕ → RateLimiter → Verdict Claims × RateLimiter
  unfolding client_ip
  unauthenticated req now limiter =
      if S.limits_enabled
      then unauthenticated_as (check (client_ip req S.trust_proxy) now limiter)
      else (unauthorized, limiter)

  abbrev pub acl_ip : Request → Option Text
  acl_ip req = let ip = client_ip req S.trust_proxy in if is_empty ip then none else some ip

  abbrev pub acl_allows : Request → Option Claims → Bool
  acl_allows req claims = elim (S.acl_matches req (acl_ip req) claims) [ none ↦ false | some b ↦ b ]

  abbrev denied : Request → ℕ → RateLimiter → Option Claims → Verdict Claims × RateLimiter
  denied req now limiter none = unauthenticated req now limiter
  denied req now limiter (some claims) = (forbidden, limiter)

  -- The access rule, for the claims of the session if sessions are used.
  abbrev pub authorise : Request → ℕ → RateLimiter → Option Claims → Verdict Claims × RateLimiter
  authorise req now limiter claims =
      if acl_allows req claims then (passed claims, limiter) else denied req now limiter claims

  abbrev pub with_token : Request → ℕ → RateLimiter → Option Text → Verdict Claims × RateLimiter
  with_token req now limiter none = unauthenticated req now limiter
  with_token req now limiter (some token) = elim (S.validate_token token) [
    | none ↦ unauthenticated req now limiter
    | some claims ↦ authorise req now limiter (some claims)
  ]

  -- The middleware `api_auth`.
  unfoldable pub api_auth : Request → ℕ → RateLimiter → Verdict Claims × RateLimiter
  unfolding csrf_ok unauthenticated
  api_auth req now limiter =
      if is_mutating req.method && not (csrf_ok S.csrf_header S.csrf_cookie req)
      then (forbidden, limiter)
      else if S.has_oidc
      then with_token req now limiter (req.cookie S.session_cookie)
      else authorise req now limiter none
