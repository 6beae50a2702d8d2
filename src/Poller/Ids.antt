-- ===== src/Poller/Ids.antt =====
-- src/poller.rs and src/runner.rs: an id holds a runner and a position.
use easyfibers.Prelude.{ℕ, ◌+◌, ◌*◌, ◌/◌, ◌%◌, ◌^◌, ◌<◌, ◌≡◌, refl, arith}
use easyfibers.Prelude.Masks.{bit_or_above, bit_and_low}
use easyfibers.Poller.{split_id, fiber_id}

-- The id of a fiber is split into its runner and its position, for every runner there can be and
-- every position of 32 bits.
pub split_id-fiber_id :
    (runner pos : ℕ) → runner < 128 → pos < 2 ^ 32 → split_id (fiber_id runner pos) ≡ (runner, pos)
unfolding split_id fiber_id
split_id-fiber_id runner pos hr hp =
    let whole : runner * 2 ^ 40 % 2 ^ 64 ≡ runner * 2 ^ 40 = omega arith in
    let id = pos + runner * 2 ^ 40 in
    rw
      (
        whole,
        bit_or_above 40 pos runner (omega arith),
        bit_and_low 8 (id / 2 ^ 40) 0 runner (omega arith) (omega arith),
        bit_and_low 32 id (runner * 2 ^ 8) pos (omega arith) (omega arith),
      )
      refl
