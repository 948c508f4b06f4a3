-- ===== src/Clock/Civil.antt =====
-- The date and the hour of a `time.Time` in UTC, in the Gregorian calendar, from 1970 on.
use p2pt_server.Prelude.{
  ℕ, ◌+◌, ◌-◌, ◌*◌, ◌/◌, ◌%◌, ◌≤◌, ◌≡◌, ◌⊎◌, subst, ltb, leb, arith, if◌then◌else◌,
}
use p2pt_server.Clock.{Time, hour, second, unix_epoch, unix_seconds}

pub record Civil : Type 0 where
  pub year : ℕ
  pub month : ℕ
  pub day : ℕ

-- The date of a number of days since 1 January 1970, counted in years that begin in March and in
-- periods of 400 years.
unfoldable pub civil : ℕ → Civil
civil days =
    let z = days + 719468 in
    let era = z / 146097 in
    let doe = z % 146097 in
    let yoe = (doe + doe / 36524 - doe / 1460 - doe / 146096) / 365 in
    let doy = doe + yoe / 100 - 365 * yoe - yoe / 4 in
    let mp = (5 * doy + 2) / 153 in
    let month = if ltb mp 10 then mp + 3 else mp - 9 in
    record {
      year = yoe + era * 400 + (if leb month 2 then 1 else 0);
      month = month;
      day = doy - (153 * mp + 2) / 5 + 1;
    }

-- The hours since 1 January 1970.
unfoldable pub unix_hours : Time → ℕ
unix_hours t = unix_seconds t / 3600

-- Times an hour apart are in hours that follow each other.
unix_hours-add : (t : Time) → unix_epoch * second ≤ t → unix_hours (t + hour) ≡ unix_hours t + 1
unfolding unix_hours
unix_hours-add t h = omega arith

unix_hours-near : (t u : Time) → t ≤ u + hour → unix_hours t ≤ unix_hours u + 1
unfolding unix_hours
unix_hours-near t u h = omega arith

-- The hour of a time that is at most an hour away is the same, the one before or the one after.
pub one_of_three :
    (t u : Time)
    → unix_epoch * second + hour ≤ u
    → t ≤ u + hour
    → u ≤ t + hour
    → (unix_hours u ≡ unix_hours t)
      ⊎ (unix_hours (u - hour) ≡ unix_hours t)
      ⊎ (unix_hours (u + hour) ≡ unix_hours t)
one_of_three t u h a b =
    let down : u - hour + hour ≡ u = omega arith in
    let before : unix_hours u ≡ unix_hours (u - hour) + 1 =
      subst (λ v. unix_hours v ≡ unix_hours (u - hour) + 1) down
        (unix_hours-add (u - hour) (omega arith)) in
    let after : unix_hours (u + hour) ≡ unix_hours u + 1 = unix_hours-add u (omega arith) in
    ground (arith, before, after, unix_hours-near t u a, unix_hours-near u t b)
