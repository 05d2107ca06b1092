-- ===== src/Activity/Laws.antt =====
-- What `timeAgo` says of the time that has passed.
use safebucket.Prelude.{ℕ, if◌then◌else◌, Bool, true, false, ◌+◌, ◌*◌, ◌/◌, ◌≤◌, ◌<◌, ◌≡◌, arith}
use safebucket.Activity.{
  ℤ, pos, floor_div, TimeUnit, second, minute, hour, day, week, month, year, time_ago,
}

-- a unit in nanoseconds
abbrev pub nanoseconds : TimeUnit → ℕ
nanoseconds second = 1000000000
nanoseconds minute = 60000000000
nanoseconds hour = 3600000000000
nanoseconds day = 86400000000000
nanoseconds week = 604800000000000
nanoseconds month = 2592000000000000
nanoseconds year = 31536000000000000

-- The count is the number of whole units in the time.
pub data IsWhole (n : ℕ) : ℤ × TimeUnit → Type 0 where
  whole :
      (c : ℕ) (unit : TimeUnit)
      → c * nanoseconds unit ≤ n
      → n < (c + 1) * nanoseconds unit
      → IsWhole n (pos c, unit)

IsWhole-ite :
    (n : ℕ) (b : Bool) (x y : ℤ × TimeUnit)
    → IsWhole n x
    → IsWhole n y
    → IsWhole n (if b then x else y)
IsWhole-ite n true x y h k = h
IsWhole-ite n false x y h k = k

-- For a time in the past, `timeAgo` gives the number of whole units that have passed, in the unit
-- it names.
pub time_ago-IsWhole : (n : ℕ) → IsWhole n (time_ago (pos n))
unfolding time_ago floor_div
time_ago-IsWhole n =
    let seconds : IsWhole n (pos (n / 1000000000), second) =
      whole (n / 1000000000) second (omega arith) (omega arith) in
    let minutes : IsWhole n (pos (n / 60000000000), minute) =
      whole (n / 60000000000) minute (omega arith) (omega arith) in
    let hours : IsWhole n (pos (n / 3600000000000), hour) =
      whole (n / 3600000000000) hour (omega arith) (omega arith) in
    let days : IsWhole n (pos (n / 86400000000000), day) =
      whole (n / 86400000000000) day (omega arith) (omega arith) in
    let weeks : IsWhole n (pos (n / 86400000000000 / 7), week) =
      whole (n / 86400000000000 / 7) week (omega arith) (omega arith) in
    let months : IsWhole n (pos (n / 86400000000000 / 30), month) =
      whole (n / 86400000000000 / 30) month (omega arith) (omega arith) in
    let years : IsWhole n (pos (n / 86400000000000 / 365), year) =
      whole (n / 86400000000000 / 365) year (omega arith) (omega arith) in
    IsWhole-ite n _ _ _ seconds (
      IsWhole-ite n _ _ _ minutes (
        IsWhole-ite n _ _ _ hours (
          IsWhole-ite n _ _ _ days (IsWhole-ite n _ _ _ weeks (IsWhole-ite n _ _ _ months years)))))

-- From 28 days on and before 30 have passed, `timeAgo` says that 0 months have passed.
pub time_ago-zero_months :
    (n : ℕ) → 28 * 86400000000000 ≤ n → n < 30 * 86400000000000 → time_ago (pos n) ≡ (pos 0, month)
unfolding time_ago floor_div
time_ago-zero_months n h k = ground arith
