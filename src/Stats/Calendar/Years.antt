-- ===== src/Stats/Calendar/Years.antt =====
-- A year of `days_to_ymd` in src/stats.rs, which begins in March: its months, the end of February and the
-- end of the era.
use dns_ligase.Prelude.{
  ℕ, ◌+◌, ◌-◌, ◌*◌, ◌/◌, ◌≤◌, ◌<◌, ◌≡◌, refl, ◌==◌, ltb, leb, if◌then◌else◌, arith, inl, inr, ◌⊎◌,
  ap, ◌∙◌,
}
use dns_ligase.Stats.Calendar.{Date, next_day, is_leap, days_in}

abbrev pub before_year : ℕ → ℕ
before_year yoe = 365 * yoe + yoe / 4 - yoe / 100

-- The days of a year that begins in March: 366 where the next February has 29.
abbrev pub LastDay : ℕ → ℕ → Type 0
LastDay yoe doy = before_year yoe + doy + 1 ≡ before_year (yoe + 1)

abbrev start : ℕ → ℕ
start mp = (153 * mp + 2) / 5

abbrev month : ℕ → ℕ
month mp = if ltb mp 10 then mp + 3 else mp - 9

-- The date of a day of the month, in the year that begins in March of `y`.
unfoldable pub dated : ℕ → ℕ → ℕ → Date
dated y mp d = (if leb (month mp) 2 then y + 1 else y, month mp, d)

unfoldable pub civil : ℕ → ℕ → ℕ → Date
civil era yoe doy = let mp = (5 * doy + 2) / 153 in dated (yoe + era * 400) mp (doy - start mp + 1)

dated-next_in_month :
    (y mp d : ℕ)
    → mp < 11
    → d < start (mp + 1) - start mp
    → dated y mp (d + 1) ≡ next_day (dated y mp d)
unfolding next_day days_in dated
dated-next_in_month y mp d h k = ground arith

dated-next_month :
    (y mp : ℕ) → mp < 11 → dated y (mp + 1) 1 ≡ next_day (dated y mp (start (mp + 1) - start mp))
unfolding next_day days_in dated
dated-next_month y mp h = ground arith

leap_year :
    (era yoe : ℕ)
    → yoe < 399
    → is_leap (yoe + era * 400 + 1) ≡ (before_year yoe + 366 == before_year (yoe + 1))
unfolding is_leap
leap_year era yoe h = ground arith

february-next :
    (y d : ℕ)
    → d < (if is_leap (y + 1) then 29 else 28)
    → dated y 11 (d + 1) ≡ next_day (dated y 11 d)
unfolding next_day days_in is_leap dated
february-next y d h = ground arith

march_first :
    (y : ℕ) → dated (y + 1) 0 1 ≡ next_day (dated y 11 (if is_leap (y + 1) then 29 else 28))
unfolding next_day days_in is_leap dated
march_first y = ground arith

month_of : (doy : ℕ) → ℕ
month_of doy = (5 * doy + 2) / 153

-- Either the next day is in the same month, or the day is the last of its month.
month_turns :
    (doy : ℕ)
    → doy < 337
    → (month_of doy < 11)
      × (((month_of (doy + 1) ≡ month_of doy)
            × (doy + 1 - start (month_of doy) + 1 ≡ doy - start (month_of doy) + 1 + 1)
            × (doy - start (month_of doy) + 1 < start (month_of doy + 1) - start (month_of doy)))
          ⊎ ((month_of (doy + 1) ≡ month_of doy + 1)
              × (doy + 1 - start (month_of doy + 1) + 1 ≡ 1)
              × (doy - start (month_of doy) + 1 ≡ start (month_of doy + 1) - start (month_of doy))))
unfolding month_of
month_turns doy h = omega arith

civil-month :
    (era yoe doy mp d : ℕ)
    → month_of doy ≡ mp
    → doy - start mp + 1 ≡ d
    → civil era yoe doy ≡ dated (yoe + era * 400) mp d
unfolding civil month_of
civil-month era yoe doy mp d m e = rw (m, e) refl

pub civil-next :
    (era yoe doy : ℕ) → doy < 337 → civil era yoe (doy + 1) ≡ next_day (civil era yoe doy)
civil-next era yoe doy h =
    let mp = month_of doy in
    let d = doy - start mp + 1 in
    let y = yoe + era * 400 in
    let today = civil-month era yoe doy mp d refl refl in
    elim (month_turns doy h).1 [
      | inl (m, e, k) ↦
          rw (today, civil-month era yoe (doy + 1) mp (d + 1) m e)
            (dated-next_in_month y mp d (month_turns doy h).0 k)
      | inr (m, e, k) ↦
          rw (today, civil-month era yoe (doy + 1) (mp + 1) 1 m e, k)
            (dated-next_month y mp (month_turns doy h).0)
    ]

civil-february :
    (era yoe doy : ℕ)
    → 337 ≤ doy
    → doy < 366
    → civil era yoe doy ≡ dated (yoe + era * 400) 11 (doy - 336)
unfolding month_of
civil-february era yoe doy h k = civil-month era yoe doy 11 (doy - 336) (omega arith) (omega arith)

year_length :
    (yoe : ℕ)
    → (before_year (yoe + 1) ≡ before_year yoe + 365)
      ⊎ (before_year (yoe + 1) ≡ before_year yoe + 366)
year_length yoe = omega arith

abbrev pub february : ℕ → ℕ
february y = if is_leap y then 29 else 28

pub february-length :
    (era yoe : ℕ)
    → yoe < 399
    → before_year yoe + february (yoe + era * 400 + 1) + 337 ≡ before_year (yoe + 1)
february-length era yoe h = rw (leap_year era yoe h) (ground (arith, year_length yoe))

pub last_february : (era : ℕ) → february (399 + era * 400 + 1) ≡ 29
unfolding is_leap
last_february era = ground arith

pub civil-february_next :
    (era yoe doy : ℕ)
    → 337 ≤ doy
    → doy - 336 < february (yoe + era * 400 + 1)
    → doy < 365
    → civil era yoe (doy + 1) ≡ next_day (civil era yoe doy)
civil-february_next era yoe doy h k l =
    rw
      (
        civil-february era yoe doy h (omega arith),
        civil-february era yoe (doy + 1) (omega arith) (omega arith),
        shift,
      )
      (february-next (yoe + era * 400) (doy - 336) k)
  where
    shift : doy + 1 - 336 ≡ doy - 336 + 1
    shift = omega arith

pub civil-march :
    (era yoe doy : ℕ)
    → 337 ≤ doy
    → doy < 366
    → doy - 336 ≡ february (yoe + era * 400 + 1)
    → civil era (yoe + 1) 0 ≡ next_day (civil era yoe doy)
unfolding month_of
civil-march era yoe doy h k e =
    rw (civil-february era yoe doy h k, e, first) (march_first (yoe + era * 400))
  where
    first : civil era (yoe + 1) 0 ≡ dated (yoe + era * 400 + 1) 0 1
    first = civil-month era (yoe + 1) 0 0 1 refl refl ∙ ap (λ y. dated y 0 1) (omega arith)

pub civil-era : (era : ℕ) → civil (era + 1) 0 0 ≡ next_day (civil era 399 365)
unfolding next_day days_in is_leap civil dated
civil-era era = ground arith
