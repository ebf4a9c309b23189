-- ===== src/Stats/Uptime.antt =====
-- util.cpp, session_values.hpp: the uptime in milliseconds, of the clock of the system, which can be set.
use kedge.Base.{
  ℕ, suc, ◌-◌, ◌/◌, ◌%◌, ◌<◌, ◌≡◌, ◌∙◌, none, some, arith, ltb, leb, if◌then◌else◌, ap,
}
use kedge.Base.Int.{ℤ, pos, negsuc, ◌-ℤ◌, sub_ℕ}
use kedge.Bytes.{codes, bytes_eq}
use kedge.Json.{uint64}
use kedge.Json.Rows.{listed}
use kedge.Stats.{SessionStats, stats_rows, to_json_object}
use kedge.Stats.Fields.{member_of, stats_find}

-- `uptime`, in seconds.
unfoldable pub uptime : ℤ → ℤ → ℤ
uptime start_up now = now -ℤ start_up

-- `duration_cast<milliseconds>` of nanoseconds, which rounds towards zero.
unfoldable pub to_milliseconds : ℤ → ℤ
to_milliseconds (pos n) = pos (n / 1000000)
to_milliseconds (negsuc n) = sub_ℕ 0 (suc n / 1000000)

-- `uptimeMs`, from two readings of the clock.
unfoldable pub uptime_ms : ℤ → ℤ → ℤ
unfolding to_milliseconds
uptime_ms start_up_c cur_c = to_milliseconds (cur_c -ℤ start_up_c)

-- A signed number that is stored in `uint64_t`.
unfoldable pub to_u64 : ℤ → ℕ
to_u64 (pos n) = n % 18446744073709551616
to_u64 (negsuc n) = 18446744073709551615 - n % 18446744073709551616

-- The milliseconds since the start, or, if the clock was set back behind it, 2 ^ 64 less those up to it.
abbrev pub shown_uptime : ℕ → ℕ → ℕ
shown_uptime start cur =
    let late = (start - cur) / 1000000 in
    if leb start cur
    then (cur - start) / 1000000
    else if ltb 0 late
    then 18446744073709551616 - late
    else 0

uptime_ms-shown :
    (start cur : ℕ)
    → start < 9223372036854775808
    → cur < 9223372036854775808
    → to_u64 (uptime_ms (pos start) (pos cur)) ≡ shown_uptime start cur
unfolding uptime_ms to_milliseconds to_u64 ◌-ℤ◌
uptime_ms-shown start cur h k = ground arith

-- For times of the clock from 0 up to 2 ^ 63 nanoseconds, the member "uptimeMs" of the statistics
-- is the whole milliseconds since the start, and left out if there are none; but if the clock was
-- set back before the start, by at least a millisecond, it is 2 ^ 64 less the milliseconds up to
-- the start.
pub uptime_ms_shown :
    (s : SessionStats) (start cur : ℕ)
    → start < 9223372036854775808
    → cur < 9223372036854775808
    → member_of
        (codes "uptimeMs")
        (to_json_object (record s { uptime_ms = to_u64 (uptime_ms (pos start) (pos cur)) }))
      ≡ (if ltb 0 (shown_uptime start cur) then some (uint64 (shown_uptime start cur)) else none)
unfolding listed stats_rows bytes_eq
uptime_ms_shown s start cur h k =
    stats_find (record s { uptime_ms = to_u64 (uptime_ms (pos start) (pos cur)) })
      (codes "uptimeMs")
    ∙ ap (λ n. if ltb 0 n then some (uint64 n) else none) (uptime_ms-shown start cur h k)
