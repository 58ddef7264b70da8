-- ===== src/Timestamps.antt =====
-- Dates and times as the texts that Python's `datetime` makes of them, in UTC.
use subscription_service.Decimal.{decimal}
use subscription_service.Calendar.{month_of}
use subscription_service.Prelude.{String, if◌then◌else◌, ltb, ℕ, ◌%◌, ◌+◌, ◌/◌}
use Prim.Native.String.{◌++◌ as append}
use subscription_service.Settings.{second, one_day}

-- a number of one or two digits, with its leading zero
padded : ℕ → String
padded n = if ltb n 10 then append "0" (decimal n) else decimal n

-- `f"{now:%Y-%m-%d}"`
unfoldable pub date_text : ℕ → String
unfolding padded
date_text now =
    let (month, place) = month_of (now / one_day) in
    append (decimal (1_970 + month / 12))
      (append "-" (append (padded (month % 12 + 1)) (append "-" (padded (place + 1)))))

-- `now.isoformat(timespec="seconds")`
unfoldable pub iso_text : ℕ → String
unfolding padded
iso_text now =
    let seconds = now % one_day / second in
    append (date_text now) (
      append "T" (
        append (padded (seconds / 3_600)) (
          append ":" (
            append (padded (seconds / 60 % 60))
              (append ":" (append (padded (seconds % 60)) "+00:00"))))))
