-- ===== src/Samples/Parsing.antt =====
-- Cron expressions, at which the theorems on their parsing are used.
use proceed.Base.{ℕ, ◌+◌, ◌-◌, ◌^◌, ◌≡◌, refl, List, ◌==◌, false, true, arith}
use proceed.Controller.Cron.{CronSchedule}
use proceed.Controller.Cron.Parse.{
  parsed, invalid, panics, codes, split_by, fields, cut, digits, int_end, atoi, step_of, value_in,
  end_of, range_of, span_of, set_bit, mark, mark_parts, parse_cron_field, parse_cron,
}
use proceed.Controller.Cron.Fields.{FieldOf, parse_cron_field-FieldOf}
use proceed.Controller.Cron.Bounds.{IsBounded, parse_cron-IsBounded}

-- every twenty minutes and at seven past
abbrev some_minutes : List ℕ
some_minutes = codes "*/20,7"

abbrev office_hours : CronSchedule
office_hours = record {
  minutes = 1 + 2 ^ 20 + 2 ^ 40 + 2 ^ 7;
  hours = 2 ^ 9 + 2 ^ 10 + 2 ^ 11;
  dom = 2 ^ 31 - 1 - 1 + 2 ^ 31;
  months = 2 ^ 1 + 2 ^ 12;
  dow = 1 + 2 ^ 5 + 2 ^ 6;
  dom_star = true;
  dow_star = false;
}

reads_minutes : parse_cron_field 0 59 false some_minutes ≡ parsed (1 + 2 ^ 20 + 2 ^ 40 + 2 ^ 7)
unfolding parse_cron_field mark_parts mark set_bit span_of range_of end_of value_in step_of atoi
    digits int_end cut split_by
reads_minutes = refl

reads_schedule : parse_cron "*/20,7 9-11 * 1,12 5-7" ≡ parsed office_hours
unfolding parse_cron fields parse_cron_field mark_parts mark set_bit span_of range_of end_of
    value_in step_of atoi digits int_end cut split_by
reads_schedule = refl

-- the counter of the loop wraps around
panics_at_step : parse_cron "1/9223372036854775807 * * * *" ≡ panics
unfolding parse_cron fields parse_cron_field mark_parts mark set_bit span_of range_of end_of
    value_in step_of atoi digits int_end cut split_by
panics_at_step = refl

refuses_minute : parse_cron "60 * * * *" ≡ invalid
unfolding parse_cron fields parse_cron_field mark_parts mark set_bit span_of range_of end_of
    value_in step_of atoi digits int_end cut split_by
refuses_minute = refl

parse_cron_field-FieldOf_example :
    FieldOf 0 59 false
      (split_by (λ c. c == 44) some_minutes)
      0
      (parse_cron_field 0 59 false some_minutes)
parse_cron_field-FieldOf_example = parse_cron_field-FieldOf 0 59 false some_minutes (omega arith)

parse_cron-IsBounded_example : IsBounded office_hours
parse_cron-IsBounded_example =
    parse_cron-IsBounded "*/20,7 9-11 * 1,12 5-7" office_hours reads_schedule
