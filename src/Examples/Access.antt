-- ===== src/Examples/Access.antt =====
-- The middleware of the protected API on a forged and on an honest mutation.
use analytics.Common.{◌≡◌, refl, true, none, some, codes, Text, text_eq, if◌then◌else◌}
use analytics.Ratelimit.{new_limiter}
use analytics.Web.Auth.{post, Request, AuthState, passed, forbidden, api_auth, csrf_ok, client_ip}
use analytics.Web.Auth.Admission.{AuthPost, Admitted, api_auth-AuthPost, api_auth-Admitted}

-- Claims are texts, and every session named "admin" may do everything.
abbrev site : AuthState Text
site = record {
  has_oidc = true;
  trust_proxy = true;
  limits_enabled = true;
  csrf_header = codes "x-csrf-token";
  csrf_cookie = codes "csrf";
  session_cookie = codes "session";
  validate_token = λ t. some t;
  acl_matches =
      λ req ip claims. elim claims [ none ↦ none | some c ↦ some (text_eq c (codes "admin")) ];
}

abbrev write_with : Text → Request
write_with token = record {
  method = post;
  header = λ h. if text_eq h (codes "x-csrf-token") then some token else none;
  cookie = λ c.
      if text_eq c (codes "csrf")
      then some (codes "t1")
      else if text_eq c (codes "session")
      then some (codes "admin")
      else none;
  peer = some (codes "1.2.3.4");
}

forged : (api_auth site (write_with (codes "t2")) 0 (new_limiter 60 5)).0 ≡ forbidden
unfolding api_auth csrf_ok text_eq
forged = refl

honest : Admitted site (write_with (codes "t1")) (some (codes "admin"))
unfolding csrf_ok text_eq client_ip
honest = record { not_forged = refl; session = (refl, codes "admin", refl, refl); acl = refl }

api_auth-AuthPost_example :
    AuthPost site
      (write_with (codes "t2"))
      0
      (new_limiter 60 5)
      (api_auth site (write_with (codes "t2")) 0 (new_limiter 60 5))
api_auth-AuthPost_example = api_auth-AuthPost site (write_with (codes "t2")) 0 (new_limiter 60 5)

api_auth-Admitted_example :
    api_auth site (write_with (codes "t1")) 0 (new_limiter 60 5)
    ≡ (passed (some (codes "admin")), new_limiter 60 5)
api_auth-Admitted_example =
    api_auth-Admitted site (write_with (codes "t1")) 0 (new_limiter 60 5) (some (codes "admin"))
      honest
