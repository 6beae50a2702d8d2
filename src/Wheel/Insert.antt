-- ===== src/Wheel/Insert.antt =====
-- src/wheel.rs: `set_timeout` and `move_timeout`.
pub mod Heads
pub mod Inserted
pub mod Moved
use easyfibers.Prelude.{
  ℕ, zero, suc, ◌+◌, ◌-◌, ◌*◌, ◌/◌, ◌%◌, ◌^◌, not, Bool, true, false, List, [], ◌∷◌, Option, none,
  some, ◌==◌, leb, ltb, if◌then◌else◌, length, set, replicate, bit_and,
}
use easyfibers.Prelude.Outcome.{Outcome, ok, panic, stuck, ◌>>=◌}
use easyfibers.Prelude.Slice.{index, assign}
use easyfibers.Wheel.Slab.{empty, Timeout, Entry, reserved, timeout, SlabApi}
use easyfibers.Wheel.{
  Slot, Wheel, Run, is_earliest, deferred, time_to_ticks, ticks_to_wheel_idx, actual_tick, set_slot,
  clear_timeout,
}
use easyfibers.Wheel.Cancel.{put_at, set_prev}

module _ {Store : Type 0} ⦃api : SlabApi Store⦄ where
  -- Linking the entry at the head of its slot, from the tick on.
  unfoldable pub schedule : Wheel Store → ℕ → ℕ → ℕ → Run (Wheel Store)
  schedule w token tick task = do
    let wheel_idx = ticks_to_wheel_idx w tick
    let at_time = actual_tick w tick
    slot ← index w.wheel wheel_idx
    let prev_head = slot.head
    slab ← put_at w.slab token (
        timeout (record {
          task = task;
          when = at_time;
          wheel_idx = wheel_idx;
          prev = empty;
          next = prev_head;
        }))
    slab ← if prev_head == empty then ok slab else set_prev slab prev_head token
    let next = if is_earliest at_time slot.next_timeout then some at_time else slot.next_timeout
    set_slot (record w { slab = slab }) wheel_idx (record { head = token; next_timeout = next })

  unfoldable pub set_timeout : Wheel Store → ℕ → ℕ → ℕ → Run (Wheel Store)
  set_timeout w token at_time task = do
    tick ← time_to_ticks w at_time
    schedule w token (deferred tick w.cur_wheel_tick) task

  unfoldable pub move_timeout : Wheel Store → ℕ → ℕ → ℕ → Wheel Store
  move_timeout w token when task = elim (api.get w.slab token) [
    | none ↦ w
    | some reserved ↦ w
    | some (timeout e) ↦
        if e.when == when
        then record w { slab = api.put w.slab token (timeout (record e { task = task })) }
        else w
  ]
