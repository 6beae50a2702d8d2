-- ===== src/Runner.antt =====
-- src/runner.rs: the runner, its fibers and their timers. `self` and the poller of the thread are
-- passed on and returned (`World`). What a fiber and the main stack do while the other one waits is
-- a parameter (`Switch`). A `FiberRef` is the position of its fiber.
pub mod Socket
pub mod Waits
pub mod Api
pub mod Children
pub mod Steps
pub mod Loop
pub mod Resolve
pub mod Refused
pub mod Tls
pub mod Shook
pub mod Handles
pub mod Context
pub mod Start
pub mod Places
pub mod Registered
pub mod Timers
pub mod NewTimer
pub mod Counts
pub mod Taken
pub mod Finished
use easyfibers.Prelude.{
  ℕ, zero, suc, ◌+◌, ◌*◌, List, [], ◌∷◌, ◌++◌, ◌||◌, Option, none, some, Bool, true, false, not,
  if◌then◌else◌, length,
}
use easyfibers.Prelude.Outcome.{Outcome, ok, panic, stuck, ◌>>=◌}
use easyfibers.Prelude.Slice.{index, assign}
use easyfibers.Wheel.{Run}
use easyfibers.Wheel.Slab.{SlabApi}
use easyfibers.Poller
use easyfibers.Poller.{PollerInt, pop_front}
use easyfibers.Fiber.Net.{ErrorKind, IoResult, done, failed, NetApi}
use easyfibers.Fiber.Sock.{FiberSock, listener, tcp, udp, tls, tls_temp, no_socket}
use easyfibers.Fiber.Int.{FiberInt, Registry, readable, nothing, unstacked, closed}
use easyfibers.Fiber.Int

pub record RunnerInt ⦃net : NetApi⦄ (P R Func : Type 0) : Type 0 where
  pub pos : ℕ
  pub fibers : List (FiberInt P R Func)
  pub free_fibers : List ℕ
  pub tomain_fibers : List ℕ
  pub results : List R
  pub tmp_buf : List ℕ

pub record World ⦃net : NetApi⦄ (Store P R Func : Type 0) : Type 0 where
  pub runner : RunnerInt P R Func
  pub poller : PollerInt Store

-- `away`: what is done from where a fiber steps out until it is resumed. `inside`: what a fiber does
-- from where it is resumed until it steps out.
pub record Switch ⦃net : NetApi⦄ (Store P R Func : Type 0) : Type 0 where
  pub away : ℕ → World Store P R Func → World Store P R Func
  pub inside : ℕ → World Store P R Func → World Store P R Func

abbrev is_empty : {A : Type 0} → List A → Bool
is_empty [] = true
is_empty (_ ∷ _) = false

module _ ⦃net : NetApi⦄ where
  abbrev is_listener : FiberSock net → Bool
  is_listener (listener _) = true
  is_listener (tcp _) = false
  is_listener (udp _) = false
  is_listener (tls _) = false
  is_listener (tls_temp _) = false
  is_listener no_socket = false

module _ ⦃net : NetApi⦄ {P R Func : Type 0} where
  -- The fiber that `register` makes, before it has a place.
  abbrev pub new_fiber : ℕ → Option Func → FiberSock net → Option P → Option ℕ → FiberInt P R Func
  new_fiber runner func sock param parent = record {
    runner = runner;
    ready = nothing;
    param = param;
    state = unstacked;
    me = 0;
    generation = 0;
    func = func;
    connect_param = none;
    sock = sock;
    t = false;
    stack = none;
    parent = parent;
    children = [];
    result = none;
    wtoken = none;
    timeout = some (20000 * 1_000_000);
    timed_out = 0;
  }

  -- A listener is registered for reading.
  unfoldable pub listen :
      ⦃registry : Registry⦄ → FiberInt P R Func → IoResult (Unit {0}) × FiberInt P R Func
  listen f = if is_listener f.sock then Int.register f readable else (done tt, f)

module _ ⦃net : NetApi⦄ {Store P R Func : Type 0} where
  -- `self.fibers[pos]`
  unfoldable pub fiber_at : World Store P R Func → ℕ → Run (FiberInt P R Func)
  fiber_at w pos = index w.runner.fibers pos

  -- Assignments to fields of `self.fibers[pos]`.
  unfoldable pub modify :
      World Store P R Func
      → ℕ
      → (FiberInt P R Func → FiberInt P R Func)
      → Run (World Store P R Func)
  modify w pos change = do
    f ← index w.runner.fibers pos
    fibers ← assign w.runner.fibers pos (change f)
    ok (record w { runner = record w.runner { fibers = fibers } })

  abbrev pub push_free : World Store P R Func → ℕ → World Store P R Func
  push_free w pos = record w {
    runner = record w.runner { free_fibers = w.runner.free_fibers ++ (pos ∷ []) };
  }

  unfoldable pub push_toexec : World Store P R Func → ℕ → Run (World Store P R Func)
  push_toexec w pos = do
    p ← Poller.toexec_push w.poller w.runner.pos pos
    ok (record w { poller = p })

  unfoldable pub pop_toexec : World Store P R Func → Run (Option ℕ × World Store P R Func)
  pop_toexec w = do
    (x, p) ← Poller.toexec_pop w.poller w.runner.pos
    ok (x, record w { poller = p })

  unfoldable pub socket_timeout : World Store P R Func → ℕ → Option ℕ → Run (World Store P R Func)
  socket_timeout w pos dur = modify w pos λ f. record f { timeout = dur }

  unfoldable pub resume_fiber : World Store P R Func → ℕ → Option R → Run (World Store P R Func)
  resume_fiber w pos resp = do w ← modify w pos λ f. record f { result = resp }; push_toexec w pos

  unfoldable pub take_result : World Store P R Func → ℕ → Run (World Store P R Func)
  take_result w pos = do
    f ← fiber_at w pos
    w ← modify w pos λ f. record f { result = none }
    elim f.result [
      | none ↦ ok w
      | some r ↦
          ok (record w { runner = record w.runner { results = w.runner.results ++ (r ∷ []) } })
    ]

  unfoldable pub iter_responses : World Store P R Func → Option R × World Store P R Func
  iter_responses w =
      let (r, results) = pop_front w.runner.results in
      (r, record w { runner = record w.runner { results = results } })

  unfoldable pub iter_fibers : World Store P R Func → Option ℕ × World Store P R Func
  iter_fibers w =
      let (pos, refs) = pop_front w.runner.tomain_fibers in
      (pos, record w { runner = record w.runner { tomain_fibers = refs } })

  unfoldable pub signaled : World Store P R Func → Bool
  signaled w = not (is_empty w.runner.tomain_fibers) || not (is_empty w.runner.results)

  -- The place is queued for execution, and under the children of the parent.
  unfoldable pub enlist :
      World Store P R Func → ℕ → Option ℕ → Bool → Run (IoResult ℕ × World Store P R Func)
  enlist w pos parent schedule = do
    w ← if schedule then push_toexec w pos else ok w
    w ← elim parent [
      | none ↦ ok w
      | some parent ↦ modify w parent λ f. record f { children = f.children ++ (pos ∷ []) }
    ]
    ok (done pos, w)

  -- The fiber is put in its place, unless it is a listener that could not be registered.
  abbrev pub place_at :
      World Store P R Func
      → ℕ
      → Option ℕ
      → Bool
      → IoResult (Unit {0}) × FiberInt P R Func
      → Run (IoResult ℕ × World Store P R Func)
  place_at w pos parent schedule (failed kind, fiber) = ok (failed kind, w)
  place_at w pos parent schedule (done _, fiber) = do
    w ← modify w pos λ _. fiber
    enlist w pos parent schedule

  abbrev pub place_end :
      World Store P R Func
      → Option ℕ
      → Bool
      → IoResult (Unit {0}) × FiberInt P R Func
      → Run (IoResult ℕ × World Store P R Func)
  place_end w parent schedule (failed kind, fiber) = ok (failed kind, w)
  place_end w parent schedule (done _, fiber) =
      enlist (record w { runner = record w.runner { fibers = w.runner.fibers ++ (fiber ∷ []) } })
        (length w.runner.fibers) parent schedule

  -- `free_fibers.pop_front()` found a place, or none.
  abbrev pub place :
      ⦃registry : Registry⦄
      → World Store P R Func
      → FiberInt P R Func
      → Option ℕ
      → Bool
      → List ℕ
      → Run (IoResult ℕ × World Store P R Func)
  place w fiber parent schedule [] =
      place_end w parent schedule
        (listen (record fiber { me = Poller.fiber_id w.runner.pos (length w.runner.fibers) }))
  place w fiber parent schedule (free_pos ∷ free) = do
    let w = record w { runner = record w.runner { free_fibers = free } }
    old ← fiber_at w free_pos
    place_at w free_pos parent schedule (
        listen (record fiber {
          me = Poller.fiber_id w.runner.pos free_pos;
          generation = old.generation + 1;
        }))

  unfoldable pub register :
      ⦃registry : Registry⦄
      → World Store P R Func
      → Option Func
      → FiberSock net
      → Option P
      → Option ℕ
      → Bool
      → Run (IoResult ℕ × World Store P R Func)
  register w func sock param parent schedule =
      place w (new_fiber w.runner.pos func sock param parent) parent schedule w.runner.free_fibers

  module _ ⦃api : SlabApi Store⦄ where
    -- `poller().timer_reg`, at the time `now`.
    unfoldable pub timer_reg :
        World Store P R Func → ℕ → Option ℕ → ℕ → Run (Option ℕ × World Store P R Func)
    timer_reg w id dur now = do
      (tk, p) ← Poller.timer_reg w.poller id dur now
      ok (tk, record w { poller = p })

    unfoldable pub timer_cancel : World Store P R Func → ℕ → Run (World Store P R Func)
    timer_cancel w tk = do p ← Poller.timer_cancel w.poller tk; ok (record w { poller = p })

    unfoldable pub new_timer :
        ⦃registry : Registry⦄
        → World Store P R Func
        → Option Func
        → ℕ
        → Option P
        → Option R
        → ℕ
        → Run (Option ℕ × World Store P R Func)
    new_timer w func dur param resp now = do
      (res, w) ← register w func no_socket param none false
      elim res [
        | failed kind ↦ ok (none, w)
        | done pos ↦ do
          w ← modify w pos λ f. record f { result = resp }
          (tk, w) ← timer_reg w (Poller.fiber_id w.runner.pos pos) (some dur) now
          elim tk [
            | none ↦ ok (none, w)
            | some tk ↦ do w ← modify w pos λ f. record f { wtoken = some tk }; ok (some pos, w)
          ]
      ]

    unfoldable pub cancel_timer : World Store P R Func → ℕ → Run (World Store P R Func)
    cancel_timer w pos = do
      f ← fiber_at w pos
      elim f.wtoken [
        | none ↦ ok w
        | some tk ↦ do
          w ← timer_cancel w tk
          w ← modify w pos λ f. record f { wtoken = none; result = none; param = none }
          ok (push_free w pos)
      ]
