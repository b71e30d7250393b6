-- ===== src/Ui/Times.antt =====
-- ui/src/filters.rs: the presets of the time range, and what a range resolves to. Times are i64; an
-- operation that leaves it wraps around, as in a release build.
use analytics.Common.{
  ℕ, ◌*◌, max, Option, none, some, List, [], ◌∷◌, Text, codes, text_eq, if◌then◌else◌, ◌≡◌, refl,
  eq_of_text_eq, Bool-cases, inl, inr, sym, ap, ◌∙◌, ℤ, pos, negsuc, ◌-ℤ◌, leb, wrap_i64,
}

abbrev pub ui_day_ms : ℕ
ui_day_ms = 86400000

pub data RangePreset : Type 0 where
  day week month quarter half_year year forever : RangePreset

abbrev pub all_presets : List RangePreset
all_presets = day ∷ week ∷ month ∷ quarter ∷ half_year ∷ year ∷ forever ∷ []

unfoldable pub range_token : RangePreset → Text
range_token day = codes "24h"
range_token week = codes "7d"
range_token month = codes "30d"
range_token quarter = codes "90d"
range_token half_year = codes "180d"
range_token year = codes "12m"
range_token forever = codes "all"

unfoldable pub find_preset : Text → List RangePreset → Option RangePreset
unfolding range_token
find_preset name [] = none
find_preset name (p ∷ ps) =
    let rest = find_preset name ps in if text_eq (range_token p) name then some p else rest

unfoldable pub from_token : Text → Option RangePreset
unfolding find_preset
from_token name = find_preset name all_presets

unfoldable pub preset_label : RangePreset → Text
preset_label day = codes "Last 24 hours"
preset_label week = codes "Last 7 days"
preset_label month = codes "Last 30 days"
preset_label quarter = codes "Last 90 days"
preset_label half_year = codes "Last 6 months"
preset_label year = codes "Last 12 months"
preset_label forever = codes "All time"

unfoldable pub days : RangePreset → ℕ
days day = 1
days week = 7
days month = 30
days quarter = 90
days half_year = 180
days year = 365
days forever = 36500

unfoldable pub interval : RangePreset → Text
interval day = codes "15m"
interval week = codes "hour"
interval month = codes "4h"
interval quarter = codes "day"
interval half_year = codes "day"
interval year = codes "week"
interval forever = codes "week"

pub data TimeRange : Type 0 where
  preset : RangePreset → TimeRange
  custom : ℤ → ℤ → TimeRange

abbrev pub default_range : TimeRange
default_range = preset week

-- `max(1)`
abbrev pub at_least_one : ℤ → ℕ
at_least_one (pos n) = max n 1
at_least_one (negsuc n) = 1

unfoldable pub interval_of_span : ℕ → Text
interval_of_span span =
    if leb span (2 * ui_day_ms)
    then codes "15m"
    else if leb span (14 * ui_day_ms)
    then codes "hour"
    else if leb span (60 * ui_day_ms)
    then codes "4h"
    else if leb span (200 * ui_day_ms)
    then codes "day"
    else codes "week"

unfoldable pub resolve : TimeRange → ℤ → ℤ × ℤ × Text
unfolding days interval interval_of_span wrap_i64
resolve (preset forever) now = (pos 0, now, interval forever)
resolve (preset p) now = (wrap_i64 (now -ℤ pos (days p * ui_day_ms)), now, interval p)
resolve (custom from to) now = (from, to, interval_of_span (at_least_one (wrap_i64 (to -ℤ from))))

find_preset-range_token :
    (name : Text) (ps : List RangePreset) (p : RangePreset)
    → find_preset name ps ≡ some p
    → name ≡ range_token p
unfolding find_preset
find_preset-range_token name [] p h = cc
find_preset-range_token name (q ∷ ps) p h = elim (Bool-cases (text_eq (range_token q) name)) [
  | inl k ↦ sym (eq_of_text_eq _ _ k) ∙ ap range_token (cc (rw k at h))
  | inr k ↦ find_preset-range_token name ps p (rw k at h)
]

pub from_token-range_token : (p : RangePreset) → from_token (range_token p) ≡ some p
unfolding from_token find_preset range_token text_eq
from_token-range_token day = refl
from_token-range_token week = refl
from_token-range_token month = refl
from_token-range_token quarter = refl
from_token-range_token half_year = refl
from_token-range_token year = refl
from_token-range_token forever = refl
