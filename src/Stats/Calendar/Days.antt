-- ===== src/Stats/Calendar/Days.antt =====
-- `days_to_ymd` of src/stats.rs against the day after a date.
use dns_ligase.Prelude.{
  ℕ, ◌+◌, ◌-◌, ◌*◌, ◌/◌, ◌%◌, ◌≤◌, ◌<◌, ◌≡◌, refl, arith, inl, inr, ◌⊎◌, sym, ap, ◌∙◌,
}
use dns_ligase.Stats.Calendar.{year_of_era, day_of_year, days_to_ymd, next_day}
use dns_ligase.Stats.Calendar.Years.{
  before_year, february, LastDay, civil, dated, civil-next, february-length, last_february,
  civil-february_next, civil-march, civil-era,
}

epoch : days_to_ymd 0 ≡ (1970, 1, 1)
unfolding days_to_ymd
epoch = refl

year_bounds :
    (doe : ℕ)
    → doe < 146097
    → (year_of_era doe < 400)
      × (before_year (year_of_era doe) ≤ doe)
      × ((doe < before_year (year_of_era doe + 1)) ⊎ (doe ≡ 146096))
unfolding year_of_era
year_bounds doe h = omega arith

-- The day `doy` is in the year `yoe` of an era.
abbrev InYear : ℕ → ℕ → Type 0
InYear yoe doy =
    (yoe < 400) × ((before_year yoe + doy < before_year (yoe + 1)) ⊎ ((yoe ≡ 399) × (doy ≡ 365)))

year_of-InYear : (yoe doy : ℕ) → InYear yoe doy → year_of_era (before_year yoe + doy) ≡ yoe
unfolding year_of_era
year_of-InYear yoe doy h = omega arith

InYear-bound : (yoe doy : ℕ) → InYear yoe doy → before_year yoe + doy < 146097
InYear-bound yoe doy h = omega arith

days_to_ymd-civil :
    (days era yoe doy : ℕ)
    → InYear yoe doy
    → days + 719468 ≡ era * 146097 + (before_year yoe + doy)
    → days_to_ymd days ≡ civil era yoe doy
unfolding days_to_ymd civil dated day_of_year
days_to_ymd-civil days era yoe doy h e = rw (era_is, doe_is, year_of-InYear yoe doy h, day_is) refl
  where
    era_is : (days + 719468) / 146097 ≡ era
    era_is = omega (arith, InYear-bound yoe doy h)

    doe_is : days + 719468 - era * 146097 ≡ before_year yoe + doy
    doe_is = omega arith

    day_is : before_year yoe + doy - before_year yoe ≡ doy
    day_is = omega arith

InYear-year_of :
    (doe : ℕ) → doe < 146097 → InYear (year_of_era doe) (doe - before_year (year_of_era doe))
unfolding year_of_era
InYear-year_of doe h = omega arith

-- Where a day can stand in its year.
year_cases :
    (yoe doy : ℕ)
    → InYear yoe doy
    → ((doy < 337) × InYear yoe (doy + 1))
      ⊎ (((337 ≤ doy)
            × (doy < 365)
            × (yoe < 399)
            × (before_year yoe + doy + 1 < before_year (yoe + 1)))
          ⊎ (((337 ≤ doy) × (doy < 366) × (yoe < 399) × LastDay yoe doy)
              ⊎ (((yoe ≡ 399) × (337 ≤ doy) × (doy < 365)) ⊎ ((yoe ≡ 399) × (doy ≡ 365)))))
year_cases yoe doy h = omega arith

abbrev Follows : ℕ → ℕ → ℕ → ℕ → Type 0
Follows days era yoe doy = days_to_ymd (days + 1) ≡ next_day (civil era yoe doy)

february-Follows :
    (days era yoe doy : ℕ)
    → days + 719468 ≡ era * 146097 + (before_year yoe + doy)
    → InYear yoe (doy + 1)
    → 337 ≤ doy
    → doy < 365
    → doy - 336 < february (yoe + era * 400 + 1)
    → Follows days era yoe doy
february-Follows days era yoe doy e n h k l =
    days_to_ymd-civil (days + 1) era yoe (doy + 1) n (omega arith)
    ∙ civil-february_next era yoe doy h l k

next_day-civil :
    (days era yoe doy : ℕ)
    → InYear yoe doy
    → days + 719468 ≡ era * 146097 + (before_year yoe + doy)
    → Follows days era yoe doy
next_day-civil days era yoe doy h e = elim (year_cases yoe doy h) [
  | inl (k, n) ↦
      days_to_ymd-civil (days + 1) era yoe (doy + 1) n (omega arith) ∙ civil-next era yoe doy k
  | inr (inl (a, b, c, d)) ↦
      february-Follows days era yoe doy e (omega arith) a b
        (omega (arith, february-length era yoe c))
  | inr (inr (inl (a, b, c, d))) ↦
      days_to_ymd-civil (days + 1) era (yoe + 1) 0 (omega arith) (omega arith)
      ∙ civil-march era yoe doy a b (omega (arith, february-length era yoe c))
  | inr (inr (inr (inl (y, a, b)))) ↦
      february-Follows days era yoe doy e (omega arith) a b
        (rw (y, last_february era) (omega arith))
  | inr (inr (inr (inr (y, d)))) ↦
      days_to_ymd-civil (days + 1) (era + 1) 0 0 (omega arith) (omega arith)
      ∙ rw (y, d) (civil-era era)
]

next_day-of_era :
    (days era doe : ℕ)
    → doe < 146097
    → days + 719468 ≡ era * 146097 + doe
    → days_to_ymd (days + 1) ≡ next_day (days_to_ymd days)
next_day-of_era days era doe h e =
    next_day-civil days era yoe doy inside sum
    ∙ ap next_day (sym (days_to_ymd-civil days era yoe doy inside sum))
  where
    yoe : ℕ
    yoe = year_of_era doe

    doy : ℕ
    doy = doe - before_year yoe

    inside : InYear yoe doy
    inside = InYear-year_of doe h

    sum : days + 719468 ≡ era * 146097 + (before_year yoe + doy)
    sum = omega (arith, year_bounds doe h)

-- Day 0 is 1970-01-01, and the date of every later day is the one after the date of the day before,
-- in the Gregorian calendar.
pub days_to_ymd-next_day :
    (days : ℕ)
    → (days_to_ymd 0 ≡ (1970, 1, 1)) × (days_to_ymd (days + 1) ≡ next_day (days_to_ymd days))
days_to_ymd-next_day days = (
  epoch,
  next_day-of_era days ((days + 719468) / 146097) ((days + 719468) % 146097) (omega arith)
      (omega arith),
)
