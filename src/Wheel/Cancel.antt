-- ===== src/Wheel/Cancel.antt =====
-- src/wheel.rs: the entries of the slab, and taking one out of the list of its slot.
pub mod Relink
pub mod Around
pub mod Removal
pub mod Cancelled
use easyfibers.Prelude.{
  ℕ, zero, suc, ◌+◌, ◌-◌, ◌*◌, ◌/◌, ◌%◌, ◌^◌, not, Bool, true, false, List, [], ◌∷◌, Option, none,
  some, ◌==◌, leb, ltb, if◌then◌else◌, length, set, replicate, bit_and,
}
use easyfibers.Prelude.Outcome.{Outcome, ok, panic, stuck, ◌>>=◌}
use easyfibers.Prelude.Slice.{index, assign}
use easyfibers.Wheel.Slab.{empty, Timeout, Entry, reserved, timeout, SlabApi}
use easyfibers.Wheel.{
  Slot, Wheel, Run, is_earliest, deferred, time_to_ticks, ticks_to_wheel_idx, actual_tick, set_slot,
  clear_timeout,
}

module _ {Store : Type 0} ⦃api : SlabApi Store⦄ where
  -- `Entry::timeout` of an entry of the slab: it panics where there is none, and at `Reserved`.
  unfoldable pub timeout_at : Store → ℕ → Run Timeout
  timeout_at slab token = elim (api.get slab token) [
    | none ↦ panic
    | some reserved ↦ panic
    | some (timeout v) ↦ ok v
  ]

  -- `self.slab[token] = entry`
  unfoldable pub put_at : Store → ℕ → Entry → Run Store
  put_at slab token e = elim (api.get slab token) [
    | none ↦ panic
    | some _ ↦ ok (api.put slab token e)
  ]

  -- `self.slab[token].timeout_mut().prev = prev`, and `next`.
  unfoldable pub set_prev : Store → ℕ → ℕ → Run Store
  unfolding timeout_at
  set_prev slab token prev = do
    v ← timeout_at slab token
    ok (api.put slab token (timeout (record v { prev = prev })))

  unfoldable pub set_next : Store → ℕ → ℕ → Run Store
  unfolding timeout_at
  set_next slab token next = do
    v ← timeout_at slab token
    ok (api.put slab token (timeout (record v { next = next })))

  -- The neighbours of the removed entry are linked to one another. One that is no timeout panics.
  unfoldable pub unlink_prev : Wheel Store → Timeout → Run (Wheel Store)
  unfolding set_next
  unlink_prev w v =
      if v.prev == empty
      then (do
        slot ← index w.wheel v.wheel_idx
        set_slot w v.wheel_idx (record slot { head = v.next }))
      else (do slab ← set_next w.slab v.prev v.next; ok (record w { slab = slab }))

  unfoldable pub unlink_next : Wheel Store → Timeout → Run (Wheel Store)
  unfolding set_prev
  unlink_next w v =
      if v.next == empty
      then ok w
      else (do slab ← set_prev w.slab v.next v.prev; ok (record w { slab = slab }))

  unfoldable pub unlink : Wheel Store → ℕ → Timeout → Run (Wheel Store)
  unfolding unlink_prev unlink_next
  unlink w slab_idx v = do
    w ← unlink_prev w v
    w ← unlink_next w v
    ok (if w.cur_slab_idx == slab_idx then record w { cur_slab_idx = v.next } else w)

  unfoldable pub remove_slab : Wheel Store → ℕ → Run (Option Entry × Wheel Store)
  remove_slab w slab_idx = elim (api.get w.slab slab_idx) [
    | none ↦ ok (none, record w { slab = api.remove w.slab slab_idx })
    | some reserved ↦ ok (some reserved, record w { slab = api.remove w.slab slab_idx })
    | some (timeout v) ↦ do
      w ← unlink (record w { slab = api.remove w.slab slab_idx }) slab_idx v
      ok (some (timeout v), w)
  ]

  unfoldable pub cancel : Wheel Store → ℕ → Run (Wheel Store)
  cancel w token = do (_, w) ← remove_slab w token; ok w
