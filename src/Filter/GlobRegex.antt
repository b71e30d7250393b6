-- ===== src/Filter/GlobRegex.antt =====
-- agent/src/analytics/filter.rs: glob_regex, the translation of a glob into a regular expression.
use analytics.Common.{ℕ, Bool, [], ◌∷◌, ◌++◌, Text, codes, any, ◌==◌, if◌then◌else◌}

abbrev elem_code : ℕ → Text → Bool
elem_code c s = any (λ d. d == c) s

-- `regex_syntax_meta` and `glob_regex`
abbrev pub regex_syntax_meta : ℕ → Bool
regex_syntax_meta c = elem_code c (codes "\\.+()[]{}^$|")

unfoldable pub glob_body : Text → Text
glob_body [] = []
glob_body (c ∷ s) =
    let rest = glob_body s in
    if c == b'*'
    then codes ".*" ++ rest
    else if c == b'?'
    then b'.' ∷ rest
    else if regex_syntax_meta c
    then b'\\' ∷ c ∷ rest
    else c ∷ rest

unfoldable pub glob_regex : Text → Bool → Text
unfolding glob_body
glob_regex pattern case_sensitive =
    (if case_sensitive then [] else codes "(?i)") ++ (b'^' ∷ (glob_body pattern ++ b'$' ∷ []))
