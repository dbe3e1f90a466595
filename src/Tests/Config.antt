-- ===== src/Tests/Config.antt =====
-- A duration of all four units.
use shelf_back.Base.{◌-◌, ◌≡◌, refl, none, some, ◌&&◌, leb, arith, if◌then◌else◌}
use shelf_back.Base.Text.{codes}
use shelf_back.Base.Exec.{ok, err, value_error}
use shelf_back.Config.{
  Digits, Cleaning, parse_timedelta_from_str, parse_groups, component, read_digits, from_groups,
}
use shelf_back.Config.Duration.{IsDigits, duration_text, parse-duration_text}

abbrev ascii_digits : Digits
ascii_digits = record { value = λ c. if leb 48 c && leb c 57 then some (c - 48) else none }

ascii_digits-IsDigits : IsDigits ascii_digits
ascii_digits-IsDigits = record {
  digit = λ n h. ground (arith, h);
  day = refl;
  hour = refl;
  minute = refl;
  second = refl;
}

abbrev as_it_is : Cleaning
as_it_is = record { strip = λ s. s; lower = λ s. s }

parse-duration_text_example :
    parse_timedelta_from_str ascii_digits as_it_is (duration_text (some 1) (some 6) none (some 15))
    ≡ ok 108015
parse-duration_text_example =
    parse-duration_text ascii_digits ascii_digits-IsDigits as_it_is (some 1) (some 6) none (some 15)
      refl refl (omega arith)

-- Units out of order are refused.
refused : parse_timedelta_from_str ascii_digits as_it_is (codes "5m1h") ≡ err value_error
unfolding parse_timedelta_from_str parse_groups component read_digits from_groups
refused = refl
