-- ===== src/TimerBuilder.antt =====
-- src/builder.rs: the settings of the timer wheel. A `Duration` is its number of nanoseconds.
use easyfibers.Prelude.{ℕ, ◌*◌, ◌%◌, ◌^◌, List, Option, none, some, ltb, if◌then◌else◌}

pub record Builder : Type 0 where
  pub tick_duration : Option ℕ
  pub num_slots : Option ℕ
  pub initial_capacity : Option ℕ
  pub max_capacity : Option ℕ
  pub max_timeout : Option ℕ
  pub channel_capacity : Option ℕ
  pub thread_name : Option (List ℕ)

-- Every setting at its default.
abbrev pub new : Builder
new = record {
  tick_duration = none;
  num_slots = none;
  initial_capacity = none;
  max_capacity = none;
  max_timeout = none;
  channel_capacity = none;
  thread_name = none;
}

abbrev unwrap_or : {A : Type 0} → Option A → A → A
unwrap_or (some a) d = a
unwrap_or none d = d

abbrev from_millis : ℕ → ℕ
from_millis n = n * 1_000_000

unfoldable pub get_tick_duration : Builder → ℕ
get_tick_duration b = unwrap_or b.tick_duration (from_millis 100)

unfoldable pub tick_duration : Builder → ℕ → Builder
tick_duration b d = record b { tick_duration = some d }

unfoldable pub get_num_slots : Builder → ℕ
get_num_slots b = unwrap_or b.num_slots 4096

unfoldable pub num_slots : Builder → ℕ → Builder
num_slots b n = record b { num_slots = some n }

unfoldable pub get_channel_capacity : Builder → ℕ
get_channel_capacity b = unwrap_or b.channel_capacity 128

unfoldable pub channel_capacity : Builder → ℕ → Builder
channel_capacity b n = record b { channel_capacity = some n }

-- `cmp::max`
abbrev max : ℕ → ℕ → ℕ
max a b = if ltb b a then a else b

unfoldable pub get_initial_capacity : Builder → ℕ
unfolding get_channel_capacity
get_initial_capacity b = max (unwrap_or b.initial_capacity 256) (get_channel_capacity b)

unfoldable pub initial_capacity : Builder → ℕ → Builder
initial_capacity b n = record b { initial_capacity = some n }

unfoldable pub get_max_capacity : Builder → ℕ
get_max_capacity b = unwrap_or b.max_capacity 4_194_304

unfoldable pub max_capacity : Builder → ℕ → Builder
max_capacity b n = record b { max_capacity = some n }

-- `num_slots as u32` keeps the low 32 bits.
unfoldable pub get_max_timeout : Builder → ℕ
unfolding get_tick_duration get_num_slots
get_max_timeout b = unwrap_or b.max_timeout (get_tick_duration b * (get_num_slots b % 2 ^ 32))

unfoldable pub max_timeout : Builder → ℕ → Builder
max_timeout b d = record b { max_timeout = some d }
