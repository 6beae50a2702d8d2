-- ===== src/Runner/Counts.antt =====
-- src/runner.rs: the counts that `read` and `write` answer.
use easyfibers.Prelude.{ℕ, suc, ◌+◌, ◌<◌, ◌≡◌, refl, ap, ◌∙◌, Bool, List, none, length, arith}
use easyfibers.Prelude.Outcome.{ok, ◌>>=◌}
use easyfibers.Wheel.{Run}
use easyfibers.Wheel.Slab.{SlabApi}
use easyfibers.Fiber.Net.{would_block, interrupted, not_connected, IoResult, done, failed, NetApi}
use easyfibers.Fiber.Int.{Registry, Ready, writable}
use easyfibers.Fiber.Sock
use easyfibers.Runner.{World, Switch}
use easyfibers.Runner.Socket.{
  retry, react, on_sock, is_writable, sent, write, wait_for, write_count,
}

module _ {A B : Type 0} where
  abbrev answered : IoResult ℕ → A → B → Run (IoResult ℕ × A × B)
  answered r x y = ok (r, x, y)

module _ {B : Type 0} where
  abbrev paired : IoResult ℕ → B → Run (IoResult ℕ × B)
  paired r y = ok (r, y)

  pair_answer : {r r' : IoResult ℕ} {y y' : B} → paired r y ≡ paired r' y' → r ≡ r'
  pair_answer e = cc

module _ ⦃net : NetApi⦄ {Store P R Func : Type 0} ⦃switch : Switch Store P R Func⦄
    ⦃api : SlabApi Store⦄ ⦃registry : Registry⦄ {Buf : Type 0} (is_set : Ready → Bool) (rdy : Ready)
    (finish : ℕ → IoResult ℕ)
    (attempt : World Store P R Func → Buf → Run (IoResult ℕ × Buf × World Store P R Func)) (pos : ℕ)
    (nows : ℕ → ℕ) where
  -- A count that is answered is one that was made of a count of the socket.
  Made : ℕ → Type 0
  Made n = (r : ℕ) × (finish r ≡ done n)

module _ ⦃net : NetApi⦄ {Store P R Func : Type 0} ⦃switch : Switch Store P R Func⦄
    ⦃api : SlabApi Store⦄ ⦃registry : Registry⦄ (pos : ℕ) (nows : ℕ → ℕ) where
  -- Within some rounds the socket takes `n` bytes of the buffer: at once, after an interrupted call,
  -- or after the fiber waited for a socket that would block.
  pub data Takes (buf : List ℕ) (n : ℕ) (w' : World Store P R Func)
      : ℕ → World Store P R Func → Type 0 where
    at_once :
        {fuel : ℕ} {w : World Store P R Func}
        → on_sock sent pos w buf ≡ ok (done n, buf, w')
        → Takes buf n w' (suc fuel) w
    after_interrupt :
        {fuel : ℕ} {w w1 : World Store P R Func}
        → on_sock sent pos w buf ≡ ok (failed interrupted, buf, w1)
        → Takes buf n w' fuel w1
        → Takes buf n w' (suc fuel) w
    after_wait :
        {fuel : ℕ} {w w1 w2 : World Store P R Func}
        → on_sock sent pos w buf ≡ ok (failed would_block, buf, w1)
        → wait_for is_writable writable w1 pos (nows fuel) ≡ ok (none, w2)
        → Takes buf n w' fuel w2
        → Takes buf n w' (suc fuel) w

  retry-Takes :
      {buf : List ℕ} {n : ℕ} {w' : World Store P R Func} (finish : ℕ → IoResult ℕ) {fuel : ℕ}
      {w : World Store P R Func}
      → Takes buf n w' fuel w
      → retry fuel is_writable writable finish (on_sock sent pos) w pos buf nows
        ≡ ok (finish n, buf, w')
  unfolding retry react
  retry-Takes finish (at_once e) = rw e refl
  retry-Takes finish (after_interrupt e takes) = rw e (retry-Takes finish takes)
  retry-Takes finish (after_wait e e' takes) = rw (e, e') (retry-Takes finish takes)

  -- `write` answers the count that the socket takes, however often it was interrupted or waited: also
  -- that it took nothing, where there is something to write. That it took nothing is an error if
  -- there is nothing to write. The fuel is enough for the rounds.
  pub write-Takes :
      (buf : List ℕ) (n fuel : ℕ) (w w' : World Store P R Func)
      → Takes buf n w' fuel w
      → (0 < n + length buf → write fuel w pos nows buf ≡ ok (done n, w'))
        × (n + length buf ≡ 0 → write fuel w pos nows buf ≡ ok (failed not_connected, w'))
  unfolding write
  write-Takes buf n fuel w w' takes =
      let e = retry-Takes (write_count (length buf)) takes in
      (
        λ some_byte.
            let k : write_count (length buf) n ≡ done n = ground arith in
            ap (λ m. m >>= λ (res, _, w). ok (res, w)) e ∙ ap (λ (r : IoResult ℕ). ok (r, w')) k,
        λ nothing_sent.
            let k : write_count (length buf) n ≡ failed not_connected = ground arith in
            ap (λ m. m >>= λ (res, _, w). ok (res, w)) e ∙ ap (λ (r : IoResult ℕ). ok (r, w')) k,
      )
