-- ===== src/Ingest/Compactor/Retention.antt =====
-- agent/src/ingest/compactor.rs: one round of the compactor, with the deletion of the day partitions
-- that are older than the retention. Instants and durations of chrono are in nanoseconds, and the
-- subtraction of a retention is taken not to leave the range of chrono, where it would panic.
use analytics.Common.{
  ℕ, ℤ, pos, negsuc, ◌-ℤ◌, wrap_i64, parse_i64, ltb, ltb_ℤ, ◌^◌, ◌*◌, Bool, Option, none, some,
  List, [], ◌∷◌, Text, ◌==◌, if◌then◌else◌,
}
use analytics.Platform.{Platform}
use analytics.Store.Db.{Result, ok, err, Json, Db}
use analytics.Ingest.Compactor.{Date, Archive, World, compact_window}

-- A directory of partitions: the configured one, that of a year, and that of a month.
pub data Directory : Type 0 where
  root : Directory
  year_dir : ℤ → Directory
  month_dir : ℤ → ℕ → Directory

-- An entry of a directory: its name, where it is valid text, and whether it is a directory.
pub record Entry : Type 0 where
  pub name : Option Text
  pub is_dir : Bool

-- What the deletion takes from the file system and from chrono. `read_dir` answers `none` where the
-- directory cannot be read, and `remove_dir_all` may do nothing.
pub record Disk (A : Archive) : Type 0 where
  pub exists : A.Files → Bool
  pub read_dir : Directory → A.Files → Option (List Entry)
  pub remove_dir_all : Date → A.Files → A.Files
  pub duration_from_std : ℕ → Option ℕ
  pub from_ymd_opt : Date → Option Date
  pub end_of_day : Date → ℤ

-- 365 days.
abbrev pub default_retention : ℕ
default_retention = 365 * 86400 * 10 ^ 9

abbrev in_i32 : Option ℤ → Option ℤ
in_i32 none = none
in_i32 (some (pos n)) = if ltb n (2 ^ 31) then some (pos n) else none
in_i32 (some (negsuc n)) = if ltb n (2 ^ 31) then some (negsuc n) else none

abbrev in_u32 : Option ℤ → Option ℕ
in_u32 (some (pos n)) = if ltb n (2 ^ 32) then some n else none
in_u32 _ = none

-- `str::parse::<i32>`
unfoldable pub parse_i32 : Text → Option ℤ
unfolding parse_i64
parse_i32 t = in_i32 (parse_i64 t)

-- `str::parse::<u32>`, which takes no minus sign.
unfoldable pub parse_u32 : Text → Option ℕ
unfolding parse_i64
parse_u32 [] = none
parse_u32 (c ∷ t) = if c == b'-' then none else in_u32 (parse_i64 (c ∷ t))

module _ {N : Type 0} (parse : Text → Option N) where
  abbrev pub dir_number : Entry → Option N
  dir_number e = if e.is_dir then (elim e.name [ none ↦ none | some t ↦ parse t ]) else none

  abbrev pub cons_some : Option N → List N → List N
  cons_some none ns = ns
  cons_some (some n) ns = n ∷ ns

  abbrev pub dir_numbers : Option (List Entry) → List N
  dir_numbers none = []
  dir_numbers (some []) = []
  dir_numbers (some (e ∷ es)) = cons_some (dir_number e) (dir_numbers (some es))

module _ {A : Archive} (disk : Disk A) where
  -- The body of the innermost loop.
  unfoldable pub retain_day : ℤ → Date → A.Files → A.Files
  retain_day cutoff day f = elim (disk.from_ymd_opt day) [
    | none ↦ f
    | some date ↦ (if ltb_ℤ (disk.end_of_day date) cutoff then disk.remove_dir_all day f else f)
  ]

  unfoldable pub retain_days : ℤ → ℤ → ℕ → List ℕ → A.Files → A.Files
  retain_days cutoff year month [] f = f
  retain_days cutoff year month (day ∷ days) f =
      retain_days cutoff year month days
        (retain_day cutoff (record { year = year; month = month; day = day }) f)

  unfoldable pub retain_months : ℤ → ℤ → List ℕ → A.Files → A.Files
  unfolding retain_days parse_u32
  retain_months cutoff year [] f = f
  retain_months cutoff year (month ∷ months) f = retain_months cutoff year months (
      retain_days cutoff year month (dir_numbers parse_u32 (disk.read_dir (month_dir year month) f))
        f)

  unfoldable pub retain_years : ℤ → List ℤ → A.Files → A.Files
  retain_years cutoff [] f = f
  retain_years cutoff (year ∷ years) f =
      retain_years cutoff years
        (retain_months cutoff year (dir_numbers parse_u32 (disk.read_dir (year_dir year) f)) f)

  abbrev pub retention_of : ℕ → ℕ
  retention_of configured = elim (disk.duration_from_std configured) [
    | none ↦ default_retention
    | some d ↦ d
  ]

  unfoldable pub enforce_retention : ℕ → ℤ → A.Files → A.Files
  unfolding retain_years parse_i32
  enforce_retention retention now f =
      if disk.exists f
      then retain_years (now -ℤ pos (retention_of retention))
          (dir_numbers parse_i32 (disk.read_dir root f)) f
      else f

  module _ (P : Platform) (J : Json P) where
    abbrev pub retained : ℕ → ℤ → Result ℕ × World A P J → Result ℕ × World A P J
    retained retention now (err e, w) = (err e, w)
    retained retention now (ok n, w) =
        (ok n, record w { files = enforce_retention retention now w.files })

    -- The clock is read twice: in milliseconds for the cutoff and the stamp, and for the retention.
    unfoldable pub compact_once :
        ℤ → ℤ → ℕ → ℕ → (Db P → Db P) → World A P J → Result ℕ × World A P J
    unfolding compact_window enforce_retention
    compact_once now later hot_window_ms retention meanwhile w =
        retained retention later
          (compact_window A P J (wrap_i64 (now -ℤ wrap_i64 (pos hot_window_ms))) now meanwhile w)
