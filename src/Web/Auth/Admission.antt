-- ===== src/Web/Auth/Admission.antt =====
-- Who gets past the middleware.
use analytics.Common.{
  ℕ, ◌≡◌, ◌≢◌, sym, ap, [], ◌∷◌, eq_of_text_eq, arith, refl, ◌⊎◌, inl, inr, Bool, true, false, ◌&&◌,
  not, Bool-cases, Option, none, some, Option-cases, Text, if◌then◌else◌,
}
use analytics.Ratelimit.{RateLimiter, check}
use analytics.Web.Auth.{
  Method, post, put, patch, delete, Request, is_mutating, tokens_match, client_ip, csrf_ok,
  AuthState, Verdict, passed, forbidden, unauthorized, too_many, unauthenticated, acl_allows,
  authorise, with_token, api_auth,
}

module _ {Claims : Type 0} (S : AuthState Claims) where
  -- The session's claims, where sessions are used.
  abbrev pub HasSession : Request → Option Claims → Type 0
  HasSession req none = S.has_oidc ≡ false
  HasSession req (some claims) =
      (S.has_oidc ≡ true)
      × (token : Text) × (req.cookie S.session_cookie ≡ some token)
      × (S.validate_token token ≡ some claims)

  pub record Admitted (req : Request) (claims : Option Claims) : Type 0 where
    pub not_forged :
        (is_mutating req.method && not (csrf_ok S.csrf_header S.csrf_cookie req)) ≡ false
    pub session : HasSession req claims
    pub acl : acl_allows S req claims ≡ true

  -- The request only reads, or it shows the token of its cookie in its header too.
  abbrev pub IsHonest : Request → Type 0
  IsHonest req =
      ((req.method ≢ post) × (req.method ≢ put) × (req.method ≢ patch) × (req.method ≢ delete))
      ⊎ ((token : Text) × (token ≢ [])
          × (req.header S.csrf_header ≡ some token)
          × (req.cookie S.csrf_cookie ≡ some token))

  honest_tokens :
      (h c : Option Text)
      → tokens_match h c ≡ true
      → (token : Text) × (token ≢ []) × (h ≡ some token) × (c ≡ some token)
  honest_tokens none c e = cc
  honest_tokens (some h) none e = cc
  honest_tokens (some []) (some c) e = cc
  honest_tokens (some (a ∷ h)) (some c) e =
      (a ∷ h, λ n. cc, refl, ap some (sym (eq_of_text_eq (a ∷ h) c (ground arith))))

  not_forged-IsHonest :
      (req : Request)
      → (is_mutating req.method && not (csrf_ok S.csrf_header S.csrf_cookie req)) ≡ false
      → IsHonest req
  unfolding csrf_ok
  not_forged-IsHonest req h = elim (Bool-cases (is_mutating req.method)) [
    | inl mutates ↦
        inr (honest_tokens (req.header S.csrf_header) (req.cookie S.csrf_cookie) (ground arith))
    | inr reads ↦ inl (reads_only req.method reads)
  ]
    where
      reads_only :
          (m : Method) → is_mutating m ≡ false → (m ≢ post) × (m ≢ put) × (m ≢ patch) × (m ≢ delete)
      reads_only m e =
          let other : (n : Method) → is_mutating n ≡ true → m ≢ n = λ n mutates same. cc in
          (other post refl, other put refl, other patch refl, other delete refl)

  abbrev pub AuthPost : Request → ℕ → RateLimiter → Verdict Claims × RateLimiter → Type 0
  AuthPost req now limiter (passed claims, limiter') =
      Admitted req claims × IsHonest req × (limiter' ≡ limiter)
  AuthPost req now limiter (forbidden, limiter') = limiter' ≡ limiter
  AuthPost req now limiter (unauthorized, limiter') =
      ((S.limits_enabled ≡ false) × (limiter' ≡ limiter))
      ⊎ (check (client_ip req S.trust_proxy) now limiter ≡ (true, limiter'))
  AuthPost req now limiter (too_many, limiter') =
      check (client_ip req S.trust_proxy) now limiter ≡ (false, limiter')

  unauthenticated-AuthPost :
      (req : Request) (now : ℕ) (limiter : RateLimiter)
      → AuthPost req now limiter (unauthenticated S req now limiter)
  unfolding unauthenticated
  unauthenticated-AuthPost req now limiter =
      go S.limits_enabled refl (check (client_ip req S.trust_proxy) now limiter) refl
    where
      go :
          (b : Bool)
          → S.limits_enabled ≡ b
          → (r : Bool × RateLimiter) → check (client_ip req S.trust_proxy) now limiter ≡ r
          → AuthPost req now limiter
              (if b then (if r.0 then unauthorized else too_many, r.1) else (unauthorized, limiter))
      go false off r e = inl (off, refl)
      go true on (true, l) e = inr e
      go true on (false, l) e = e

  -- The access rule keeps what has been established of the request.
  authorise-AuthPost :
      (req : Request) (now : ℕ) (limiter : RateLimiter) (claims : Option Claims)
      → (is_mutating req.method && not (csrf_ok S.csrf_header S.csrf_cookie req)) ≡ false
      → HasSession req claims
      → AuthPost req now limiter (authorise S req now limiter claims)
  unfolding unauthenticated
  authorise-AuthPost req now limiter none ok_csrf session =
      elim (Bool-cases (acl_allows S req none)) [
        | inl allows ↦ rw (allows) (
          record { not_forged = ok_csrf; session = session; acl = allows },
          not_forged-IsHonest req ok_csrf,
          refl,
        )
        | inr denies ↦ rw (denies) (unauthenticated-AuthPost req now limiter)
      ]
  authorise-AuthPost req now limiter (some claims) ok_csrf session =
      elim (Bool-cases (acl_allows S req (some claims))) [
        | inl allows ↦ rw (allows) (
          record { not_forged = ok_csrf; session = session; acl = allows },
          not_forged-IsHonest req ok_csrf,
          refl,
        )
        | inr denies ↦ rw (denies) refl
      ]

  -- What the middleware answers. A request gets past it only if it is no mutation or carries
  -- one token in both its header and its cookie against forgery, carries a valid session where sessions are used, and is allowed by the access rule, and it costs no token
  -- then; one that is answered as forbidden costs none either; any other is unauthorized or, where its
  -- address has used up the limit of such requests, one too many.
  pub api_auth-AuthPost :
      (req : Request) (now : ℕ) (limiter : RateLimiter)
      → AuthPost req now limiter (api_auth S req now limiter)
  unfolding api_auth
  api_auth-AuthPost req now limiter =
      by_csrf (is_mutating req.method && not (csrf_ok S.csrf_header S.csrf_cookie req)) refl
        S.has_oidc refl
    where
      by_token :
          (is_mutating req.method && not (csrf_ok S.csrf_header S.csrf_cookie req)) ≡ false
          → S.has_oidc ≡ true
          → (o : Option Text) → req.cookie S.session_cookie ≡ o
          → AuthPost req now limiter (with_token S req now limiter o)
      by_token honest oidc none e = unauthenticated-AuthPost req now limiter
      by_token honest oidc (some token) e = elim (Option-cases (S.validate_token token)) [
        | inl bad ↦ rw (bad, with_token) (unauthenticated-AuthPost req now limiter)
        | inr (claims, valid) ↦
            rw (valid, with_token)
              (authorise-AuthPost req now limiter (some claims) honest (oidc, token, e, valid))
      ]

      by_csrf :
          (c : Bool)
          → (is_mutating req.method && not (csrf_ok S.csrf_header S.csrf_cookie req)) ≡ c
          → (b : Bool) → S.has_oidc ≡ b
          → AuthPost req now limiter (
              if c
              then (forbidden, limiter)
              else if b
              then with_token S req now limiter (req.cookie S.session_cookie)
              else authorise S req now limiter none)
      by_csrf true csrf_failed b oidc = refl
      by_csrf false honest true oidc = by_token honest oidc (req.cookie S.session_cookie) refl
      by_csrf false honest false no_oidc = authorise-AuthPost req now limiter none honest no_oidc

  -- And every request that meets the three conditions gets past it, with its claims.
  pub api_auth-Admitted :
      (req : Request) (now : ℕ) (limiter : RateLimiter) (claims : Option Claims)
      → Admitted req claims
      → api_auth S req now limiter ≡ (passed claims, limiter)
  unfolding api_auth
  api_auth-Admitted req now limiter none a =
      let honest = a.not_forged in
      let no_oidc = a.session in let allows = a.acl in rw (honest) (rw (no_oidc) (rw (allows) refl))
  api_auth-Admitted req now limiter (some claims) a =
      let honest = a.not_forged in
      let (oidc, token, cookie, valid) = a.session in
      let allows = a.acl in rw (honest) (rw (oidc) (rw (cookie) (rw (valid) (rw (allows) refl))))
