-- ===== src/Stats/Calendar.antt =====
-- `days_to_ymd` and `format_timestamp` in src/stats.rs. The days of a timestamp are not negative, so
-- that the source's `i64` and `u64` are natural numbers here: `z` is at least 719468, `doe` and
-- `doy` do not fall below 0, and no sum reaches 2 ^ 63.
pub mod Years
pub mod Days
use dns_ligase.Prelude.{
  ℕ, zero, suc, ◌+◌, ◌-◌, ◌*◌, ◌/◌, ◌%◌, ◌≤◌, ◌<◌, ◌≡◌, refl, Bool, [], ◌∷◌, ◌++◌, ◌==◌, ltb, leb,
  if◌then◌else◌, Bytes, length, arith,
}

-- Year, month and day.
abbrev pub Date : Type 0
Date = ℕ × ℕ × ℕ

-- The year of the era, from the day of the era.
year_of_era : ℕ → ℕ
year_of_era doe = (doe - doe / 1460 + doe / 36524 - doe / 146096) / 365

-- The day of the year, which begins in March.
day_of_year : ℕ → ℕ → ℕ
day_of_year doe yoe = doe - (365 * yoe + yoe / 4 - yoe / 100)

unfoldable pub days_to_ymd : ℕ → Date
unfolding year_of_era day_of_year
days_to_ymd days =
    let z = days + 719468 in
    let era = z / 146097 in
    let doe = z - era * 146097 in
    let yoe = year_of_era doe in
    let doy = day_of_year doe yoe in
    let mp = (5 * doy + 2) / 153 in
    let d = doy - (153 * mp + 2) / 5 + 1 in
    let m = if ltb mp 10 then mp + 3 else mp - 9 in
    let y = yoe + era * 400 in (if leb m 2 then y + 1 else y, m, d)

digit : ℕ → ℕ
digit n = 48 + n % 10

-- The decimal digits of a number, before `rest`; a `u64` has at most 20.
decimal : (fuel : ℕ) → ℕ → Bytes → Bytes
unfolding digit
decimal zero n rest = rest
decimal (suc fuel) n rest =
    let more = decimal fuel (n / 10) (digit n ∷ rest) in if ltb n 10 then digit n ∷ rest else more

zeros : ℕ → Bytes
zeros zero = []
zeros (suc n) = b'0' ∷ zeros n

-- `{:0w}`
unfoldable pub padded : ℕ → ℕ → Bytes
unfolding decimal zeros
padded w n = let digits = decimal 20 n [] in zeros (w - length digits) ++ digits

-- The day after a date.
unfoldable pub is_leap : ℕ → Bool
is_leap y = if y % 400 == 0 then Bool.true else if y % 100 == 0 then Bool.false else y % 4 == 0

days_in : ℕ → ℕ → ℕ
unfolding is_leap
days_in y m =
    if m == 2
    then (if is_leap y then 29 else 28)
    else if m == 4
    then 30
    else if m == 6
    then 30
    else if m == 9
    then 30
    else if m == 11
    then 30
    else 31

unfoldable pub next_day : Date → Date
unfolding days_in
next_day (y, m, d) =
    if ltb d (days_in y m) then (y, m, d + 1) else if ltb m 12 then (y, m + 1, 1) else (y + 1, 1, 1)
