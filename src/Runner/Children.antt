-- ===== src/Runner/Children.antt =====
-- src/runner.rs: `child_iter`, which gives a fiber the results of its children.
use easyfibers.Prelude.{
  ℕ, zero, suc, List, [], ◌∷◌, Option, none, some, Bool, true, false, ◌||◌, if◌then◌else◌, set,
}
use easyfibers.Prelude.Outcome.{ok, stuck, ◌>>=◌}
use easyfibers.Wheel.{Run}
use easyfibers.Fiber.Net.{NetApi}
use easyfibers.Fiber.Int.{FiberState, closed, stacked, unstacked}
use easyfibers.Runner.{World, Switch, fiber_at, modify, push_toexec, push_free}
use easyfibers.Runner.Socket.{step_out}

abbrev pub is_closed : FiberState → Bool
is_closed closed = true
is_closed stacked = false
is_closed unstacked = false

abbrev pub is_some : {A : Type 0} → Option A → Bool
is_some none = false
is_some (some _) = true

-- `VecDeque::swap_remove_front`: the first element takes the place of the one at the index.
abbrev pub swap_remove_front : {A : Type 0} → List A → ℕ → List A
swap_remove_front [] i = []
swap_remove_front (x ∷ xs) zero = xs
swap_remove_front (x ∷ xs) (suc i) = set xs i x

module _ ⦃net : NetApi⦄ {Store P R Func : Type 0} where
  -- The first child that is closed or has a result, and its index.
  unfoldable pub find_child : World Store P R Func → List ℕ → ℕ → Run (Option (ℕ × ℕ))
  find_child w [] i = ok none
  find_child w (c ∷ children) i = do
    f ← fiber_at w c
    if is_closed f.state || is_some f.result
        then ok (some (c, i))
        else find_child w children (suc i)

  -- The result of the child is taken. A closed child leaves the children, and its place is free;
  -- another one is queued for execution.
  unfoldable pub take_child :
      World Store P R Func → ℕ → ℕ → ℕ → Run (Option R × World Store P R Func)
  take_child w parent child i = do
    f ← fiber_at w child
    w ← modify w child λ f. record f { result = none }
    w ←
        if is_closed f.state
        then (do
          w ← modify w parent λ f. record f { children = swap_remove_front f.children i }
          ok (push_free w child))
        else push_toexec w child
    ok (f.result, w)

  -- `fuel` bounds the rounds.
  unfoldable pub child_iter :
      ⦃switch : Switch Store P R Func⦄
      → ℕ
      → World Store P R Func
      → ℕ
      → Run (Option R × World Store P R Func)
  child_iter zero w parent = stuck
  child_iter (suc fuel) w parent = do
    f ← fiber_at w parent
    elim f.children [
      | [] ↦ ok (none, w)
      | _ ∷ _ ↦ do
        found ← find_child w f.children 0
        elim found [
          | some (child, i) ↦ do
            (out, w) ← take_child w parent child i
            elim out [ some r ↦ ok (some r, w) | none ↦ child_iter fuel w parent ]
          | none ↦ do w ← step_out w parent; child_iter fuel w parent
        ]
    ]
