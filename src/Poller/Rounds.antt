-- ===== src/Poller/Rounds.antt =====
-- src/poller.rs: a round of the whole poller, from the events to the queues.
use easyfibers.Prelude.{ℕ, ◌<◌, ◌≡◌, some}
use easyfibers.Wheel.{Wheel}
use easyfibers.Wheel.Spec.{Timers}
use easyfibers.Poller.{split_id}

-- The timers are those of fibers of the first `n` runners.
abbrev pub Owned : ℕ → Timers → Type 0
Owned n s = (t task when : ℕ) → s.held t ≡ some (some (task, when)) → (split_id task).0 < n
