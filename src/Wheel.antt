-- ===== src/Wheel.antt =====
-- src/wheel.rs: the timer wheel. An `Instant` is its number of nanoseconds from some origin, and a
-- `Token` its number. The slab is a parameter, and the state is passed on and returned. The
-- largest `Instant` and the last u64 tick are taken to be out of reach.
pub mod Slab
pub mod Tokens
pub mod Chain
pub mod Linked
pub mod Cancel
pub mod Insert
pub mod Poll
pub mod Ticks
pub mod Earliest
pub mod Reserve
pub mod Fresh
pub mod Spec
pub mod Refinement
use easyfibers.Prelude.{
  ℕ, zero, suc, ◌+◌, ◌-◌, ◌*◌, ◌/◌, ◌%◌, ◌^◌, not, Bool, true, false, List, [], ◌∷◌, Option, none,
  some, ◌==◌, leb, ltb, if◌then◌else◌, length, set, replicate, bit_and,
}
use easyfibers.Prelude.Outcome.{Outcome, ok, panic, stuck, ◌>>=◌}
use easyfibers.Prelude.Slice.{index, assign}
use easyfibers.TimerBuilder
use easyfibers.TimerBuilder.{Builder}
use Slab.{empty, Timeout, Entry, reserved, timeout, SlabApi}

pub record Slot : Type 0 where
  pub head : ℕ
  pub next_timeout : Option ℕ

pub record Wheel (Store : Type 0) : Type 0 where
  pub wheel : List Slot
  pub slab : Store
  pub start : ℕ
  pub cur_wheel_tick : ℕ
  pub cur_slab_idx : ℕ
  pub max_capacity : ℕ
  pub tick_ms : ℕ
  pub mask : ℕ

-- The calls answer or panic; none returns an error.
abbrev pub Run : Type 0 → Type 0
Run A = Outcome ⊥ A

abbrev nanos_per_milli : ℕ
nanos_per_milli = 1_000_000

abbrev nanos_per_sec : ℕ
nanos_per_sec = 1_000_000_000

-- `u64::saturating_mul`, `saturating_add`
abbrev saturate : ℕ → ℕ
saturate n = if ltb n (2 ^ 64) then n else 2 ^ 64 - 1

unfoldable pub millis : ℕ → ℕ
millis duration =
    let sub_millis = (duration % nanos_per_sec + nanos_per_milli - 1) / nanos_per_milli in
    saturate (saturate (duration / nanos_per_sec * 1000) + sub_millis)

-- `checked_mul`, `checked_add` and `expect`
abbrev pub checked : ℕ → Run ℕ
checked n = if ltb n (2 ^ 64) then ok n else panic

-- `at <= slot.next_timeout.unwrap_or(at)`
abbrev pub is_earliest : ℕ → Option ℕ → Bool
is_earliest at_time none = true
is_earliest at_time (some t) = leb at_time t

-- The body of the loop of `next_timeout`: `continue` keeps the smaller.
abbrev pub keep_min : Option ℕ → Option ℕ → Option ℕ
keep_min min none = min
keep_min none (some a) = some a
keep_min (some b) (some a) = if ltb b a then some b else some a

unfoldable pub min_loop : Option ℕ → List Slot → Option ℕ
min_loop min [] = min
min_loop min (s ∷ slots) = min_loop (keep_min min s.next_timeout) slots

-- A tick that is not ahead of the wheel is put off to the next one.
abbrev pub deferred : ℕ → ℕ → ℕ
deferred tick cur = if leb tick cur then cur + 1 else tick

module _ {Store : Type 0} where
  -- `time - self.start` panics before the start, and `/` at a tick of zero length.
  unfoldable pub time_to_ticks : Wheel Store → ℕ → Run ℕ
  time_to_ticks w time = if ltb time w.start then panic else do
    let dur = time - w.start
    let ms = dur % nanos_per_sec / 1_000_000
    m ← checked (dur / nanos_per_sec * 1000)
    ms ← checked (m + ms)
    if w.tick_ms == 0 then panic else ok (ms / w.tick_ms)

  unfoldable pub ticks_to_wheel_idx : Wheel Store → ℕ → ℕ
  ticks_to_wheel_idx w ticks = bit_and ticks w.mask

  -- `.ok()` on what `insert` answers.
  abbrev pub taken : Wheel Store → Option (ℕ × Store) → Option ℕ × Wheel Store
  taken w none = (none, w)
  taken w (some (token, slab)) = (some token, record w { slab = slab })

  -- `self.start + Duration::from_millis(self.tick_ms) * (tick as u32)`
  unfoldable pub actual_tick : Wheel Store → ℕ → ℕ
  actual_tick w tick = w.start + w.tick_ms * 1_000_000 * (tick % 2 ^ 32)

  -- Writing a field of the slot at `idx`.
  abbrev pub set_slot : Wheel Store → ℕ → Slot → Run (Wheel Store)
  set_slot w idx s = assign w.wheel idx s >>= λ slots. ok (record w { wheel = slots })

  -- `next_timeout = None` of the slot at `idx`.
  unfoldable pub clear_timeout : Wheel Store → ℕ → Run (Wheel Store)
  clear_timeout w idx = do
    slot ← index w.wheel idx
    set_slot w idx (record slot { next_timeout = none })

  unfoldable pub next_timeout : Wheel Store → Option ℕ
  next_timeout w = min_loop none w.wheel

module _ {Store : Type 0} ⦃api : SlabApi Store⦄ where
  -- `start` is what `Instant::now()` answers.
  unfoldable pub new : Builder → ℕ → Run (Wheel Store)
  unfolding millis TimerBuilder.get_num_slots
  new builder start =
      let num_slots = TimerBuilder.get_num_slots builder in
      if num_slots == 0
      then panic
      else if not (bit_and num_slots (num_slots - 1) == 0)
      then panic
      else ok (record {
        wheel = replicate num_slots (record { head = empty; next_timeout = none });
        slab = api.with_capacity (TimerBuilder.get_initial_capacity builder);
        start = start;
        cur_wheel_tick = 0;
        cur_slab_idx = empty;
        max_capacity = TimerBuilder.get_max_capacity builder;
        tick_ms = millis (TimerBuilder.get_tick_duration builder);
        mask = num_slots - 1;
      })

  unfoldable pub available : Wheel Store → ℕ
  available w = api.available w.slab

  -- `self.slab.insert(Entry::Reserved).ok()`
  abbrev pub insert_reserved : Wheel Store → Option ℕ × Wheel Store
  insert_reserved w = taken w (api.insert w.slab reserved)

  unfoldable pub reserve : Wheel Store → Run (Option ℕ × Wheel Store)
  reserve w =
      if api.has_vacant w.slab
      then ok (insert_reserved w)
      else (let len = api.len w.slab in
          -- `self.max_capacity - amt` underflows where the slab is already larger.
          if ltb w.max_capacity len
          then panic
          else (let room = w.max_capacity - len in
              let amt = if ltb room len then room else len in
              if amt == 0
              then ok (none, w)
              else ok (insert_reserved (record w { slab = api.reserve_exact w.slab amt }))))

  unfoldable pub release : Wheel Store → ℕ → Wheel Store
  release w token = record w { slab = api.remove w.slab token }
