-- ===== src/Examples/Trends.antt =====
-- The trend of three occurrences, one of them before the range.
use analytics.Common.{pos, negsuc, [], ◌∷◌, ℤ, List}
use analytics.Stats.Trend.{TrendPost, trend_of-TrendPost}

abbrev occurred : List ℤ
occurred = pos 150 ∷ pos 1999 ∷ negsuc 4 ∷ []

trend_of-TrendPost_example : TrendPost occurred (pos 100) (pos 2000)
trend_of-TrendPost_example = trend_of-TrendPost occurred (pos 100) (pos 2000)
