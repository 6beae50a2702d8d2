-- ===== src/Runner/Context.antt =====
-- src/runner.rs: `context_function`, which runs on the stack of a fiber. What the function of the
-- fiber does is a parameter (`Body`). The pointer to the fiber is the place of the fiber.
use easyfibers.Prelude.{
  ℕ, ◌^◌, ◌-◌, ◌≡◌, refl, Option, none, some, true, false, bit_and, if◌then◌else◌, get_elem?,
  get_elem?-set_self,
}
use easyfibers.Prelude.Outcome.{ok, panic, ◌>>=◌}
use easyfibers.Prelude.Slice.{index}
use easyfibers.Wheel.{Run}
use easyfibers.Wheel.Cancel.Relink.{get_elem?-lt}
use easyfibers.Poller
use easyfibers.Fiber.Net.{NetApi}
use easyfibers.Fiber.Int.{FiberInt, stacked, unstacked, closed}
use easyfibers.Runner.{World, fiber_at, modify}
use easyfibers.Runner.Handles
use easyfibers.Runner.Handles.{Fiber}
use easyfibers.Runner.Registered.{changed, modify_lem}
use easyfibers.Runner.Steps.{unstack}

-- The function of a fiber, from the world in which it is called to the one in which it returns.
pub record Body ⦃net : NetApi⦄ (Store P R Func : Type 0) : Type 0 where
  pub apply : Func → Fiber → P → World Store P R Func → Option R × World Store P R Func

module _ ⦃net : NetApi⦄ {Store P R Func : Type 0} where
  -- `param.unwrap()` and `fiber.func.unwrap()`
  abbrev unwrapped :
      Option Func → Option P → World Store P R Func → Run (Func × P × World Store P R Func)
  unwrapped func none w = panic
  unwrapped none (some param) w = panic
  unwrapped (some func) (some param) w = ok (func, param, w)

  -- Up to the call of the function: the parameter is taken out of the fiber.
  unfoldable pub begin : World Store P R Func → ℕ → Run (Func × P × World Store P R Func)
  begin w pos = do
    f ← fiber_at w pos
    w ← modify w pos λ f. record f { state = stacked; t = true; param = none }
    unwrapped f.func f.param w

  -- From where the function returned on. The transfer is used to go back to the main stack.
  unfoldable pub finish : World Store P R Func → ℕ → Option R → Run (World Store P R Func)
  finish w pos res = do
    f ← fiber_at w pos
    if f.t then (modify w pos λ f. record f { result = res; state = closed; t = false }) else panic

  unfoldable pub context_function :
      ⦃body : Body Store P R Func⦄ → World Store P R Func → ℕ → Run (World Store P R Func)
  context_function ⦃body⦄ w pos = do
    (func, param, w) ← begin w pos
    f ← fiber_at w pos
    let (res, w) = body.apply func (Handles.new f.runner (bit_and f.me (2 ^ 32 - 1))) param w
    finish w pos res

  unstack_lem :
      (w : World Store P R Func) (pos : ℕ) (f : FiberInt P R Func) (stack : ℕ)
      → get_elem? w.runner.fibers pos ≡ some f
      → f.stack ≡ some stack
      → (w' : World Store P R Func) × (unstack w pos ≡ ok w')
        × (get_elem? w'.runner.fibers pos ≡ some (record f { stack = none; t = false }))
  unfolding unstack fiber_at index
  unstack_lem w pos f stack at has_stack = (
    record (changed w pos (record f { stack = none; t = false })) {
      poller = Poller.stack_push w.poller stack;
    },
    rw (at, has_stack, modify_lem w pos f (λ f. record f { stack = none; t = false }) at) refl,
    get_elem?-set_self w.runner.fibers pos _ (get_elem?-lt w.runner.fibers pos f at),
  )

  begin_again :
      (w : World Store P R Func) (pos : ℕ) (f : FiberInt P R Func)
      → get_elem? w.runner.fibers pos ≡ some f
      → f.param ≡ none
      → begin w pos ≡ panic
  unfolding begin fiber_at index
  begin_again w pos f at taken =
      rw
        (
          at,
          modify_lem w pos f (λ f. record f { state = stacked; t = true; param = none }) at,
          taken,
        )
        refl

  begin_lem :
      (w : World Store P R Func) (pos : ℕ) (f : FiberInt P R Func) (func : Func) (param : P)
      → get_elem? w.runner.fibers pos ≡ some f
      → f.func ≡ some func
      → f.param ≡ some param
      → (w' : World Store P R Func) × (begin w pos ≡ ok (func, param, w'))
        × (get_elem? w'.runner.fibers pos
            ≡ some (record f { state = stacked; t = true; param = none }))
  unfolding begin fiber_at index
  begin_lem w pos f func param at has_func has_param = (
    changed w pos (record f { state = stacked; t = true; param = none }),
    rw
        (
          at,
          modify_lem w pos f (λ f. record f { state = stacked; t = true; param = none }) at,
          has_func,
          has_param,
        )
        refl,
    get_elem?-set_self w.runner.fibers pos _ (get_elem?-lt w.runner.fibers pos f at),
  )

  -- A fiber with a function, a parameter and a stack is begun without a panic. If it hibernates then
  -- and gives back its stack, beginning it once more panics: its parameter is gone.
  pub begin-hibernated :
      (w : World Store P R Func) (pos : ℕ) (f : FiberInt P R Func) (func : Func) (param : P)
      (stack : ℕ)
      → get_elem? w.runner.fibers pos ≡ some f
      → f.func ≡ some func
      → f.param ≡ some param
      → f.stack ≡ some stack
      → (w1 : World Store P R Func) × (w2 : World Store P R Func) × (w3 : World Store P R Func)
        × (begin w pos ≡ ok (func, param, w1))
        × ((modify w1 pos λ f. record f { state = unstacked }) ≡ ok w2)
        × (unstack w2 pos ≡ ok w3)
        × (begin w3 pos ≡ panic)
  begin-hibernated w pos f func param stack at has_func has_param has_stack =
      let (w1, e1, at1) = begin_lem w pos f func param at has_func has_param in
      let f1 = record f { state = stacked; t = true; param = none } in
      let f2 = record f1 { state = unstacked } in
      let e2 = modify_lem w1 pos f1 (λ f. record f { state = unstacked }) at1 in
      let at2 =
        get_elem?-set_self w1.runner.fibers pos f2 (get_elem?-lt w1.runner.fibers pos f1 at1) in
      let (w3, e3, at3) = unstack_lem _ pos f2 stack at2 has_stack in
      (w1, _, w3, e1, e2, e3, begin_again w3 pos _ at3 refl)
