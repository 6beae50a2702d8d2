-- ===== src/Poller.antt =====
-- src/poller.rs: the sockets that are signalled, the timers and the lookups, as queues of fibers
-- for each runner. The events of mio, the clock and the results of the lookups are arguments of
-- `poll`. A stack is its size. The printing of "dns got result" is left out.
pub mod Ids
pub mod Queues
pub mod Timers
pub mod Drained
pub mod Rounds
use easyfibers.Prelude.{
  ℕ, zero, suc, ◌+◌, ◌*◌, ◌/◌, ◌%◌, ◌^◌, ◌-◌, List, [], ◌∷◌, ◌++◌, ◌||◌, Option, none, some,
  bit_and, bit_or, replicate, Bool, true, false,
}
use easyfibers.Prelude.Outcome.{Outcome, ok, panic, stuck, ◌>>=◌}
use easyfibers.Prelude.Slice.{index, assign}
use easyfibers.Dns.{IpAddr}
use easyfibers.TimerBuilder
use easyfibers.Wheel
use easyfibers.Wheel.Cancel
use easyfibers.Wheel.Insert
use easyfibers.Wheel.Poll
use easyfibers.Wheel.{Wheel, Run}
use easyfibers.Wheel.Slab.{SlabApi}

abbrev pub tick_ms : ℕ
tick_ms = 250

-- The position in a runner, the generation and the address that was found.
abbrev pub Lookup : Type 0
Lookup = ℕ × ℕ × IpAddr

pub record PollerInt (Store : Type 0) : Type 0 where
  pub free_stacks : List ℕ
  pub wheel : Wheel Store
  pub stack_size : Option ℕ
  pub toexec_fibers : List (List ℕ)
  pub timedout_fibers : List (List ℕ)
  pub lookup_results : List (List Lookup)

unfoldable pub split_id : ℕ → ℕ × ℕ
split_id pos =
    let runner = bit_and (pos / 2 ^ 40) 255 in let pos = bit_and pos (2 ^ 32 - 1) in (runner, pos)

-- `RunnerInt::fiber_id`, of the runner at `runner`: `<<` on a usize drops what leaves the word.
unfoldable pub fiber_id : ℕ → ℕ → ℕ
fiber_id runner pos = bit_or pos (runner * 2 ^ 40 % 2 ^ 64)

module _ {A : Type 0} where
  -- `queues[runner].push_back(x)`
  unfoldable pub push_at : List (List A) → ℕ → A → Run (List (List A))
  push_at queues runner x = do q ← index queues runner; assign queues runner (q ++ (x ∷ []))

  -- The front of a queue, and what is left.
  abbrev pub pop_front : List A → Option A × List A
  pop_front [] = (none, [])
  pop_front (x ∷ q) = (some x, q)

  -- `queues[runner].pop_front()`
  unfoldable pub pop_at : List (List A) → ℕ → Run (Option A × List (List A))
  pop_at queues runner = do
    q ← index queues runner
    let (x, rest) = pop_front q
    queues ← assign queues runner rest
    ok (x, queues)

-- The loop over the events: each is queued for the runner that its token names.
unfoldable pub push_ids : List (List ℕ) → List ℕ → Run (List (List ℕ))
unfolding split_id
push_ids queues [] = ok queues
push_ids queues (id ∷ ids) = do
  let (runner, pos) = split_id id
  queues ← push_at queues runner pos
  push_ids queues ids

unfoldable pub push_lookups : List (List Lookup) → List (ℕ × ℕ × IpAddr) → Run (List (List Lookup))
unfolding split_id
push_lookups queues [] = ok queues
push_lookups queues ((id, gen, addr) ∷ found) = do
  let (runner, pos) = split_id id
  queues ← push_at queues runner (pos, gen, addr)
  push_lookups queues found

abbrev pub nonempty : {A : Type 0} → List A → Bool
nonempty [] = false
nonempty (_ ∷ _) = true

-- `Instant::now() + dur`, or a tick from now.
abbrev pub deadline : Option ℕ → ℕ → ℕ
deadline none now = now + tick_ms * 1_000_000
deadline (some d) now = now + d

module _ {Store : Type 0} ⦃api : SlabApi Store⦄ where
  -- `start` is what `Instant::now()` answers in `Wheel::new`.
  unfoldable pub new : Option ℕ → ℕ → Run (PollerInt Store)
  unfolding TimerBuilder.tick_duration
  new stack_size start = do
    wheel ← Wheel.new (TimerBuilder.tick_duration TimerBuilder.new (tick_ms * 1_000_000)) start
    ok (record {
      free_stacks = [];
      wheel = wheel;
      stack_size = stack_size;
      toexec_fibers = replicate 20 [];
      timedout_fibers = replicate 20 [];
      lookup_results = replicate 20 [];
    })

  -- `while let Some(id) = self.wheel.poll(now)`: the ids that fired, in order. `fuel` bounds the
  -- ids, and the rounds of each call.
  unfoldable pub drain : ℕ → ℕ → Wheel Store → ℕ → Run (List ℕ × Wheel Store)
  drain zero rounds w now = stuck
  drain (suc fuel) rounds w now = do
    (fired, w) ← Poll.poll rounds w now
    elim fired [
      | none ↦ ok ([], w)
      | some id ↦ do (ids, w) ← drain fuel rounds w now; ok (id ∷ ids, w)
    ]

  -- `events` is `none` where the poll of mio fails. What the three loops find is queued.
  unfoldable pub poll :
      ℕ
      → ℕ
      → PollerInt Store
      → Option (List ℕ)
      → ℕ
      → List (ℕ × ℕ × IpAddr)
      → Run (Bool × PollerInt Store)
  poll fuel rounds p none now found = ok (false, p)
  poll fuel rounds p (some events) now found = do
    toexec ← push_ids p.toexec_fibers events
    (ids, wheel) ← drain fuel rounds p.wheel now
    timedout ← push_ids p.timedout_fibers ids
    results ← push_lookups p.lookup_results found
    let smth = nonempty events || nonempty ids || nonempty found
    ok (
      smth,
      record p {
        wheel = wheel;
        toexec_fibers = toexec;
        timedout_fibers = timedout;
        lookup_results = results;
      },
    )

  unfoldable pub timer_reg : PollerInt Store → ℕ → Option ℕ → ℕ → Run (Option ℕ × PollerInt Store)
  timer_reg p id dur now = do
    (tk, w) ← Wheel.reserve p.wheel
    elim tk [
      | none ↦ ok (none, record p { wheel = w })
      | some tk ↦ do
        w ← Insert.set_timeout w tk (deadline dur now) id
        ok (some tk, record p { wheel = w })
    ]

  unfoldable pub timer_cancel : PollerInt Store → ℕ → Run (PollerInt Store)
  timer_cancel p tk = do w ← Cancel.cancel p.wheel tk; ok (record p { wheel = w })

module _ {Store : Type 0} where
  unfoldable pub dns_check : PollerInt Store → ℕ → Run (Option Lookup × PollerInt Store)
  dns_check p pos = do
    (x, queues) ← pop_at p.lookup_results pos
    ok (x, record p { lookup_results = queues })

  unfoldable pub toexec_push : PollerInt Store → ℕ → ℕ → Run (PollerInt Store)
  toexec_push p runner fiber = do
    queues ← push_at p.toexec_fibers runner fiber
    ok (record p { toexec_fibers = queues })

  unfoldable pub toexec_pop : PollerInt Store → ℕ → Run (Option ℕ × PollerInt Store)
  toexec_pop p runner = do
    (x, queues) ← pop_at p.toexec_fibers runner
    ok (x, record p { toexec_fibers = queues })

  unfoldable pub timedout_pop : PollerInt Store → ℕ → Run (Option ℕ × PollerInt Store)
  timedout_pop p runner = do
    (x, queues) ← pop_at p.timedout_fibers runner
    ok (x, record p { timedout_fibers = queues })

  unfoldable pub stack_push : PollerInt Store → ℕ → PollerInt Store
  stack_push p stack = record p { free_stacks = stack ∷ p.free_stacks }

  -- `default_stack` is what `ProtectedFixedSizeStack::default` makes.
  unfoldable pub stack_pop : ℕ → PollerInt Store → ℕ × PollerInt Store
  stack_pop default_stack p = elim p.free_stacks [
    | [] ↦ (elim p.stack_size [ none ↦ default_stack | some size ↦ size ], p)
    | stack ∷ rest ↦ (stack, record p { free_stacks = rest })
  ]
