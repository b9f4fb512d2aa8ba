-- ===== src/Services/Digest/Weeks.antt =====
-- services/scheduler.py: the week that a digest covers.
use healpipe.Prelude.{◌+◌, ◌*◌, ◌%◌, ◌≤◌, ◌<◌, ◌≡◌, arith}
use healpipe.Database.Schema.{Time}
use healpipe.Services.Digest.{day_seconds, week_seconds, weekday, period_start}

pub period_start_bounds :
    (now : Time)
    → 4 * day_seconds ≤ now
    → (weekday (period_start now) ≡ 0)
      × (period_start now % day_seconds ≡ 0)
      × (period_start now ≤ now)
      × (now < period_start now + week_seconds)
unfolding period_start weekday
period_start_bounds now h = (omega arith, omega arith, omega arith, omega arith)

-- The week after begins a week later.
pub period_start-next :
    (now : Time)
    → 4 * day_seconds ≤ now
    → period_start (now + week_seconds) ≡ period_start now + week_seconds
unfolding period_start weekday
period_start-next now h = omega arith
