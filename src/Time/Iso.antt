-- ===== src/Time/Iso.antt =====
-- The text of `toISOString`, in the proleptic Gregorian calendar.
use nodestack.Prelude.{
  ℕ, zero, suc, ◌+◌, ◌-◌, ◌*◌, ◌/◌, ◌%◌, ◌≡◌, refl, List, [], ◌∷◌, ◌++◌, ltb, codes, if◌then◌else◌,
}

-- The lowest `width` decimal digits.
digits : ℕ → ℕ → List ℕ
digits zero n = []
digits (suc width) n = digits width (n / 10) ++ (n % 10 + b'0') ∷ []

record Civil : Type 0 where
  year : ℕ
  month : ℕ
  day : ℕ

-- Days since the epoch to a date, by eras of 400 years that begin on 1 March.
civil : ℕ → Civil
civil days =
    let shifted = days + 719468 in
    let doe = shifted % 146097 in
    let yoe = (doe - doe / 1460 + doe / 36524 - doe / 146096) / 365 in
    let doy = doe - (365 * yoe + yoe / 4 - yoe / 100) in
    let mp = (5 * doy + 2) / 153 in
    let month = (if ltb mp 10 then mp + 3 else mp - 9) in
    record {
      year = yoe + shifted / 146097 * 400 + (if ltb month 3 then 1 else 0);
      month = month;
      day = doy - (153 * mp + 2) / 5 + 1;
    }

year_codes : ℕ → List ℕ
unfolding digits
year_codes y = if ltb y 10000 then digits 4 y else b'+' ∷ digits 6 y

unfoldable pub iso_codes : ℕ → List ℕ
unfolding civil year_codes
iso_codes t =
    let date = civil (t / 86_400_000) in
    year_codes date.year
    ++ (b'-' ∷ (digits 2 date.month ++ (b'-' ∷ (digits 2 date.day ++ (b'T' ∷ clock)))))
  where
    clock : List ℕ
    clock =
        digits 2 (t / 3_600_000 % 24)
        ++ (b':'
            ∷ (digits 2 (t / 60_000 % 60)
                ++ (b':'
                    ∷ (digits 2 (t / 1000 % 60) ++ (b'.' ∷ (digits 3 (t % 1000) ++ b'Z' ∷ []))))))

iso_codes_at : iso_codes 1_709_164_800_123 ≡ codes "2024-02-29T00:00:00.123Z"
unfolding iso_codes
iso_codes_at = refl

iso_codes_latest : iso_codes 8_640_000_000_000_000 ≡ codes "+275760-09-13T00:00:00.000Z"
unfolding iso_codes
iso_codes_latest = refl
