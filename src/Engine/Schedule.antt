-- ===== src/Engine/Schedule.antt =====
-- src/kai_daemon/engine.py: when a cron trigger fires next, in microseconds.
use kai_daemon.Base.{
  refl, false, ◌⊎◌, inl, inr, Bool-cases, ◌≤◌, ◌≡◌, ℕ, ◌+◌, ◌-◌, ◌*◌, ◌/◌, ◌%◌, ◌≤◌, ◌<◌, inl, inr,
  Option, none, some, arith, or_else, leb, nat_eq, if◌then◌else◌, Bool-cases,
}
use kai_daemon.Base.Time.{second, hour, day}
use kai_daemon.Base.Outcome.{Outcome, return, raise, value_error}
use kai_daemon.Engine.Types.{
  cron, cron_nightly, cron_nightly_or_write_threshold, cron_weekly, WorkflowSpec,
}

-- `now.replace(hour=h, minute=0, second=0, microsecond=0)`, for an hour below 24
unfoldable pub at_hour : ℕ → ℕ → ℕ
at_hour now h = now / day * day + h * hour

-- The hour of a spec that fires at a fixed time.
unfoldable pub target_hour : WorkflowSpec → Option ℕ
target_hour spec = elim spec.trigger [
  | cron_nightly ↦ some (or_else spec.cron_hour 0)
  | cron_nightly_or_write_threshold ↦ some (or_else spec.cron_hour 0)
  | cron_weekly ↦ some (or_else spec.cron_hour 0)
  | cron ↦ spec.cron_hour
  | _ ↦ none
]

-- `(target - now).total_seconds()`; an hour past 23 is a ValueError of `replace`.
unfoldable pub until_hour : ℕ → ℕ → Outcome ℕ
unfolding at_hour
until_hour now h =
    if leb 24 h
    then raise value_error
    else if leb (at_hour now h) now
    then return (at_hour now h + day - now)
    else return (at_hour now h - now)

unfoldable pub seconds_until_next_run : ℕ → WorkflowSpec → Outcome (Option ℕ)
unfolding target_hour until_hour
seconds_until_next_run now spec = elim (target_hour spec) [
  | none ↦ return none
  | some h ↦ elim (until_hour now h) [ return d ↦ return (some d) | raise e ↦ raise e ]
]

-- `start` and `end` of the window that is left, or of tomorrow's.
unfoldable pub window : ℕ → ℕ → ℕ → ℕ × ℕ
unfolding at_hour
window now start_hour end_hour =
    let start = at_hour now start_hour in
    let end = at_hour now end_hour in
    if leb end now
    then (start + day, end + day)
    else if leb start now
    then (now + 10 * second, end)
    else (start, end)

-- `window_seconds`, which is 1 where less is left
unfoldable pub window_seconds : ℕ × ℕ → ℕ
window_seconds (start, end) =
    if nat_eq ((end - start) / second) 0 then 1 else (end - start) / second

-- `randint n` is what `random.randint(0, n)` gives.
unfoldable pub seconds_until_random_window : (ℕ → ℕ) → ℕ → ℕ → ℕ → Outcome ℕ
unfolding window window_seconds
seconds_until_random_window randint now start_hour end_hour =
    if leb 24 start_hour
    then raise value_error
    else if leb 24 end_hour
    then raise value_error
    else (let w = window now start_hour end_hour in
        let delay = w.0 + randint (window_seconds w) * second - now in
        return (if leb (second / 10) delay then delay else second / 10))

-- A spec whose trigger fires at a fixed time, with an hour below 24, fires within a day, not at
-- once, and on that hour to the microsecond; this is so for a weekly trigger too.
pub next_run_lem :
    (now h : ℕ) (spec : WorkflowSpec)
    → target_hour spec ≡ some h
    → h < 24
    → (d : ℕ) × (seconds_until_next_run now spec ≡ return (some d))
      × (0 < d)
      × (d ≤ day)
      × ((now + d) % day ≡ h * hour)
unfolding seconds_until_next_run until_hour at_hour
next_run_lem now h spec found small = elim (Bool-cases (leb (at_hour now h) now)) [
  | inl past ↦ (at_hour now h + day - now, ground arith, ground arith, ground arith, ground arith)
  | inr ahead ↦ (at_hour now h - now, ground arith, ground arith, ground arith, ground arith)
]

fires_in :
    (now a b r : ℕ)
    → a < b
    → b < 24
    → r ≤ window_seconds (window now a b)
    → (start end d : ℕ) → (start, end) ≡ window now a b
    → d ≡ start + r * second - now
    → (second / 10) ≤ d
    → ((a * hour ≤ (now + d) % day) × ((now + d) % day ≤ b * hour))
      ⊎ ((a * hour ≤ now % day)
          × (now % day < b * hour)
          × (b * hour < now % day + 11 * second)
          × (d ≤ 11 * second))
unfolding window window_seconds at_hour
fires_in now a b r ordered below small start end d w e late =
    elim (Bool-cases (leb (at_hour now b) now)) [
      | inl over ↦ inl (ground arith, ground arith)
      | inr open_yet ↦ elim (Bool-cases (leb (at_hour now a) now)) [
        | inr ahead ↦ inl (ground arith, ground arith)
        | inl inside ↦
            elim (Bool-cases (nat_eq ((at_hour now b - (now + 10 * second)) / second) 0)) [
              | inl none_left ↦ inr (ground arith, ground arith, ground arith, ground arith)
              | inr some_left ↦ inl (ground arith, ground arith)
            ]
      ]
    ]

-- A delay below a tenth of a second is one to a start that is as near.
soon_lem :
    (now a b r : ℕ)
    → a < b
    → b < 24
    → leb (second / 10) ((window now a b).0 + r * second - now) ≡ false
    → (a * hour ≤ (now + second / 10) % day) × ((now + second / 10) % day ≤ b * hour)
unfolding window at_hour
soon_lem now a b r ordered below soon = elim (Bool-cases (leb (at_hour now b) now)) [
  | inl over ↦ (ground arith, ground arith)
  | inr open_yet ↦ elim (Bool-cases (leb (at_hour now a) now)) [
    | inr ahead ↦ (ground arith, ground arith)
    | inl inside ↦ (ground arith, ground arith)
  ]
]

-- Where the hours of a window are below 24 and in order, and `randint n` is at most `n`, a workflow
-- of that window fires after a tenth of a second or more, either in the window, its end included,
-- or,
-- where the window is open and ends in less than 11 seconds, within 11 seconds from now.
pub random_window_lem :
    (randint : ℕ → ℕ) (now start_hour end_hour : ℕ)
    → ((n : ℕ) → randint n ≤ n)
    → start_hour < end_hour
    → end_hour < 24
    → (d : ℕ) × (seconds_until_random_window randint now start_hour end_hour ≡ return d)
      × (second / 10 ≤ d)
      × (((start_hour * hour ≤ (now + d) % day) × ((now + d) % day ≤ end_hour * hour))
          ⊎ ((start_hour * hour ≤ now % day)
              × (now % day < end_hour * hour)
              × (end_hour * hour < now % day + 11 * second)
              × (d ≤ 11 * second)))
unfolding seconds_until_random_window window window_seconds at_hour
random_window_lem randint now start_hour end_hour small ordered below =
    let w = window now start_hour end_hour in
    let delay = w.0 + randint (window_seconds w) * second - now in
    let bound = small (window_seconds w) in
    (
      (if leb (second / 10) delay then delay else second / 10),
      ground arith,
      ground arith,
      elim (Bool-cases (leb (second / 10) delay)) [
        | inl late ↦ rw late (
            fires_in now start_hour end_hour (randint (window_seconds w)) ordered below bound w.0
              w.1 delay refl refl (ground arith))
        | inr soon ↦ inl (rw soon (soon_lem now start_hour end_hour _ ordered below soon))
      ],
    )
