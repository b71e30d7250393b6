-- ===== src/Examples/Requests.antt =====
-- Rate limits, ranges of time and the events built from requests, on small inputs.
use analytics.Ingest.Normalize.Urls.{IsUrlFree, strip_urls-IsUrlFree, strip_urls_same}
use analytics.Common.{
  starts_with, contains, pos, negsuc, ◌+◌, ◌-◌, ◌*◌, ◌≤◌, max, ◌≡◌, refl, true, false, none, some,
  List, [], ◌∷◌, codes, Text, arith, text_eq, to_ascii_lowercase, strip_prefix,
}
use analytics.Ratelimit.{token, new_limiter, check, cleanup}
use analytics.Ratelimit.Bound.{
  Op, request, sweep, allowed, requests, finish, allowed_bound, allowed_burst,
}
use analytics.Web.Query.{resolve_range, bucket_for, requested, find_bucket}
use analytics.Web.Query.Range.{RangePost, resolve_range-RangePost, resolve_range_exact}
use analytics.Ingest.Fields.{truncate, prefix_of, UrlParser}
use analytics.Ingest.Fields.Bounds.{TruncatePost, truncate-TruncatePost}
use analytics.Ingest.Normalize.{
  frames, message, strip_urls, strip_from, url_end, after_scheme, after_target,
}
use analytics.Ingest.Normalize.Shape.{FramesPost, frames-FramesPost, IsNormal, message-IsNormal}
use analytics.Ingest.Exception.{Crates, ExceptionReport, build_exception}
use analytics.Ingest.Enrich.{TrackEvent, load}
use analytics.Ingest.Enrich.Bounds.{ExceptionPost, build_exception-ExceptionPost}

abbrev visitor : Text
visitor = codes "1.2.3.4"

-- Two requests at once, one of another visitor, a cleanup, and a late one: a burst of one, 60 a minute.
abbrev traffic : List Op
traffic =
    request visitor 0
    ∷ request visitor 1
    ∷ request (codes "5.6.7.8") 2
    ∷ sweep 3
    ∷ request visitor 2000000000
    ∷ []

two_pass : allowed visitor traffic (new_limiter 60 1) ≡ 2
unfolding new_limiter check cleanup text_eq
two_pass = refl

allowed_bound_example :
    allowed visitor traffic (new_limiter 60 1) * token
    ≤ max 1 1 * token + (finish 0 traffic - 0) * max 60 1
allowed_bound_example =
    allowed_bound 60 1 visitor 0 traffic
      (omega arith, (omega arith, (omega arith, (omega arith, (omega arith, tt)))))

three_requests : requests visitor traffic ≤ max 3 1
unfolding text_eq
three_requests = omega arith

allowed_burst_example : allowed visitor traffic (new_limiter 60 3) ≡ requests visitor traffic
allowed_burst_example =
    allowed_burst 60 3 visitor 0 traffic
      (omega arith, (omega arith, (omega arith, (omega arith, (omega arith, tt))))) three_requests

-- A crafted start, and minutes over ninety days, which become hours.
resolve_range-RangePost_example :
    RangePost
      (some (codes "minute"))
      (resolve_range (some (negsuc 5)) (some (pos 7776000000)) (some (codes "minute")) (pos 9))
resolve_range-RangePost_example =
    resolve_range-RangePost (some (negsuc 5)) (some (pos 7776000000)) (some (codes "minute"))
      (pos 9)

resolve_range_exact_example :
    resolve_range (some (pos 0)) (some (pos 7776000000)) (some (codes "minute")) (pos 9)
    ≡ (0, 7776000000, bucket_for (7776000000 - 0) (requested (some (codes "minute"))))
resolve_range_exact_example =
    resolve_range_exact 0 7776000000 (some (codes "minute")) (pos 9) (omega arith) (omega arith)

four_hours : bucket_for 7776000000 60000 ≡ 14400000
unfolding bucket_for find_bucket
four_hours = refl

cuts_at_code_point : truncate (codes "aé") 2 ≡ codes "a…"
unfolding truncate prefix_of
cuts_at_code_point = refl

truncate-TruncatePost_example : TruncatePost (codes "aé") 2 (truncate (codes "aé") 2)
truncate-TruncatePost_example = truncate-TruncatePost (codes "aé") 2

frames-FramesPost_example :
    FramesPost to_ascii_lowercase (frames to_ascii_lowercase (codes "at f (a.js:1)\nat f (a.js:2)"))
frames-FramesPost_example =
    frames-FramesPost to_ascii_lowercase (codes "at f (a.js:1)\nat f (a.js:2)")

message-IsNormal_example : IsNormal (message to_ascii_lowercase (codes "HTTP 404  from /api"))
message-IsNormal_example = message-IsNormal to_ascii_lowercase (codes "HTTP 404  from /api")

-- URLs of one scheme, whose host is all that follows it.
abbrev https_urls : UrlParser
https_urls = record {
  Url = Text;
  parse = λ s. strip_prefix (codes "https://") s;
  host_str = λ u. some u;
  path = λ u. codes "/";
  query_pairs = λ u. (codes "utm_source", codes " news ") ∷ [];
}

abbrev crates : Crates
crates = record {
  to_lowercase = to_ascii_lowercase;
  url_parser = https_urls;
  woothee = λ s. none;
  sha256 = λ bs. bs;
  map_to_string = λ m. some (codes "{}");
  country_code_from_timezone = λ tz. none;
}

abbrev page_view : TrackEvent
page_view = record {
  beacon = codes "b1";
  session = some (codes " ");
  kind = load;
  url = codes "https://www.example.com";
  referrer = none;
  unique_visit = true;
  unique_page = true;
  timezone = none;
  duration_ms = none;
  event_name = none;
  metadata = none;
}

abbrev report : ExceptionReport
report = record {
  exc_type = codes "TypeError";
  message_text = codes "x is undefined";
  url = codes "https://www.example.com";
  stack = none;
  handled = false;
  beacon = none;
  session = none;
  app_version = some (codes "1.0");
  metadata = none;
  own_fingerprint = none;
}

build_exception-ExceptionPost_example :
    ExceptionPost crates report
      (codes "curl/8.5.0")
      (pos 7)
      (build_exception crates report (codes "curl/8.5.0") (pos 7))
build_exception-ExceptionPost_example =
    build_exception-ExceptionPost crates report (codes "curl/8.5.0") (pos 7)

url_removed : strip_urls (codes "url (https://h/a?c) now") ≡ codes "url () now"
unfolding strip_urls strip_from url_end after_scheme after_target contains strip_prefix starts_with
url_removed = refl

strip_urls-IsUrlFree_example : IsUrlFree (strip_urls (codes "url (https://h/a?c) now"))
strip_urls-IsUrlFree_example = strip_urls-IsUrlFree (codes "url (https://h/a?c) now")

no_url : IsUrlFree (codes "a: b")
unfolding url_end after_scheme strip_prefix
no_url = (refl, (refl, (refl, (refl, tt))))

strip_urls_same_example : strip_urls (codes "a: b") ≡ codes "a: b"
strip_urls_same_example = strip_urls_same (codes "a: b") no_url
