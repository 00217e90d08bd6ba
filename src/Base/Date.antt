-- ===== src/Base/Date.antt =====
-- `new Date(ms).toISOString()` for a time from the epoch to the end of the range of dates.
use metagenda.Base.{
  ℕ, zero, suc, ◌+◌, ◌-◌, ◌*◌, ◌/◌, ◌%◌, ◌≡◌, refl, ltb, leb, [], ◌∷◌, ◌++◌, if◌then◌else◌,
}
use metagenda.Base.Text.{Text, lit}

pub record CivilDate : Type 0 where
  pub year : ℕ
  pub month : ℕ
  pub day : ℕ

-- The proleptic Gregorian date of a day number from 1970-01-01, by eras of 400 years from March.
unfoldable pub civil_date : ℕ → CivilDate
civil_date days =
    let z = days + 719468 in
    let era = z / 146097 in
    let doe = z % 146097 in
    let yoe = (doe + doe / 36524 - doe / 1460 - doe / 146096) / 365 in
    let doy = doe + yoe / 100 - yoe * 365 - yoe / 4 in
    let mp = (doy * 5 + 2) / 153 in
    record {
      year = yoe + era * 400 + (if ltb mp 10 then 0 else 1);
      month = if ltb mp 10 then mp + 3 else mp - 9;
      day = doy + 1 - (mp * 153 + 2) / 5;
    }

-- The last digits of a number, with zeros in front.
unfoldable pub padded : ℕ → ℕ → Text
padded zero n = []
padded (suc w) n = padded w (n / 10) ++ (48 + n % 10) ∷ []

-- `new Date(ms).toISOString()`, which throws a RangeError beyond 8.64e15 ms; here it goes on.
unfoldable pub to_iso : ℕ → Text
unfolding civil_date padded lit
to_iso ms =
    let seconds = ms / 1000 in
    let date = civil_date (seconds / 86400) in
    (if leb date.year 9999 then padded 4 date.year else lit "+" ++ padded 6 date.year)
    ++ lit "-"
    ++ padded 2 date.month
    ++ lit "-"
    ++ padded 2 date.day
    ++ lit "T"
    ++ padded 2 ((seconds / 3600) % 24)
    ++ lit ":"
    ++ padded 2 ((seconds / 60) % 60)
    ++ lit ":"
    ++ padded 2 (seconds % 60)
    ++ lit "."
    ++ padded 3 (ms % 1000)
    ++ lit "Z"

leap_day : to_iso 1709164799999 ≡ lit "2024-02-28T23:59:59.999Z"
unfolding to_iso
leap_day = refl

after_leap_day : to_iso 1709251200000 ≡ lit "2024-03-01T00:00:00.000Z"
unfolding to_iso
after_leap_day = refl

epoch : to_iso 0 ≡ lit "1970-01-01T00:00:00.000Z"
unfolding to_iso
epoch = refl

new_year : to_iso 4102444800000 ≡ lit "2100-01-01T00:00:00.000Z"
unfolding to_iso
new_year = refl
