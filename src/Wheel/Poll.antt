-- ===== src/Wheel/Poll.antt =====
-- src/wheel.rs: `poll`. A round of its loop is `advance` or `visit`.
pub mod Polled
pub mod Visited
pub mod Advanced
pub mod Timeouts
pub mod Fuel
use easyfibers.Prelude.{
  ℕ, zero, suc, ◌+◌, ◌-◌, ◌*◌, ◌/◌, ◌%◌, ◌^◌, not, Bool, true, false, List, [], ◌∷◌, Option, none,
  some, ◌==◌, leb, ltb, if◌then◌else◌, length, set, replicate, bit_and,
}
use easyfibers.Prelude.Outcome.{Outcome, ok, panic, stuck, ◌>>=◌}
use easyfibers.Prelude.Slice.{index, assign}
use easyfibers.Wheel.Slab.{empty, Timeout, Entry, reserved, timeout, SlabApi}
use easyfibers.Wheel.{
  Slot, Wheel, Run, is_earliest, deferred, time_to_ticks, ticks_to_wheel_idx, actual_tick, set_slot,
  clear_timeout,
}
use easyfibers.Wheel.Cancel.{timeout_at, remove_slab}

-- The task of the removed entry.
abbrev pub task_of : Option Entry → Option ℕ
task_of (some (timeout v)) = some v.task
task_of (some reserved) = none
task_of none = none

module _ {Store : Type 0} ⦃api : SlabApi Store⦄ where
  -- `head == EMPTY`: on to the next tick, and to the head of its slot.
  unfoldable pub advance : Wheel Store → Run (Wheel Store)
  advance w = do
    let idx = ticks_to_wheel_idx w w.cur_wheel_tick
    slot ← index w.wheel idx
    w ← if slot.head == empty then clear_timeout w idx else ok w
    let next_tick = w.cur_wheel_tick + 1
    slot ← index w.wheel (ticks_to_wheel_idx w next_tick)
    ok (record w { cur_wheel_tick = next_tick; cur_slab_idx = slot.head })

  -- One entry of the slot: `some` where `poll` returns.
  unfoldable pub visit : Wheel Store → ℕ → Run (Option (Option ℕ) × Wheel Store)
  visit w at_time = do
    let head = w.cur_slab_idx
    let idx = ticks_to_wheel_idx w w.cur_wheel_tick
    slot ← index w.wheel idx
    w ← if head == slot.head then clear_timeout w idx else ok w
    v ← timeout_at w.slab head
    let w = record w { cur_slab_idx = v.next }
    due ← time_to_ticks w v.when
    now ← time_to_ticks w at_time
    if leb due now then (do (entry, w) ← remove_slab w head; ok (some (task_of entry), w)) else (do
      slot ← index w.wheel idx
      w ←
          if is_earliest v.when slot.next_timeout
          then set_slot w idx (record slot { next_timeout = some v.when })
          else ok w
      ok (none, w))

  -- The loop `while self.cur_wheel_tick <= wheel_tick`.
  unfoldable pub poll_loop : ℕ → Wheel Store → ℕ → ℕ → Run (Option ℕ × Wheel Store)
  poll_loop zero w wheel_tick at_time =
      if leb w.cur_wheel_tick wheel_tick then stuck else ok (none, w)
  poll_loop (suc fuel) w wheel_tick at_time =
      if leb w.cur_wheel_tick wheel_tick
      then (if w.cur_slab_idx == empty
          then (do w ← advance w; poll_loop fuel w wheel_tick at_time)
          else (do
            (done, w) ← visit w at_time
            elim done [ some task ↦ ok (task, w) | none ↦ poll_loop fuel w wheel_tick at_time ]))
      else ok (none, w)

  -- `fuel` bounds the rounds of the loop.
  unfoldable pub poll : ℕ → Wheel Store → ℕ → Run (Option ℕ × Wheel Store)
  poll fuel w at_time = do wheel_tick ← time_to_ticks w at_time; poll_loop fuel w wheel_tick at_time
