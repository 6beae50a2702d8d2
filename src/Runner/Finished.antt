-- ===== src/Runner/Finished.antt =====
-- src/runner.rs: `stepped_out` of a fiber that is done and has no parent.
use easyfibers.Prelude.{
  ℕ, zero, suc, ◌≡◌, refl, sym, ap, ◌∙◌, true, false, List, [], ◌∷◌, ◌++◌, Option, none, some,
  length-set, arith, set, get_elem?, get_elem?-set_self,
}
use mathlib.Core.List.{append-nil}
use easyfibers.Prelude.Outcome.{ok}
use easyfibers.Prelude.Slice.{index}
use easyfibers.Wheel.{Run}
use easyfibers.Wheel.Tokens.{has}
use easyfibers.Wheel.Cancel.Relink.{get_elem?-lt}
use easyfibers.Poller
use easyfibers.Fiber.Net.{NetApi}
use easyfibers.Fiber.Sock.{no_socket}
use easyfibers.Fiber.Int.{FiberInt, closed}
use easyfibers.Runner.{World, Switch, fiber_at, take_result}
use easyfibers.Runner.Places.{IsRunner}
use easyfibers.Runner.Registered.{modify_lem}
use easyfibers.Runner.Timers.{IsRunner-set, IsRunner-free}
use easyfibers.Runner.Steps.{unstack, stepped_out}

-- The result as a list.
abbrev pub listed : {A : Type 0} → Option A → List A
listed none = []
listed (some a) = a ∷ []

set-set : {A : Type 0} (xs : List A) (i : ℕ) (a b : A) → set (set xs i a) i b ≡ set xs i b
set-set [] i a b = refl
set-set (x ∷ xs) zero a b = refl
set-set (x ∷ xs) (suc i) a b = ap (λ l. x ∷ l) (set-set xs i a b)

module _ ⦃net : NetApi⦄ {P R Func : Type 0} where
  -- A fiber that is done, on its stack and with no parent; and once it is cleaned up.
  abbrev over : FiberInt P R Func → ℕ → FiberInt P R Func
  over f stack = record f { state = closed; parent = none; t = true; stack = some stack }

  abbrev pub cleaned : FiberInt P R Func → FiberInt P R Func
  cleaned f = record f {
    state = closed;
    parent = none;
    stack = none;
    t = false;
    sock = no_socket;
    result = none;
  }

module _ ⦃net : NetApi⦄ {Store P R Func : Type 0} where
  fiber_lem :
      (w : World Store P R Func) (pos : ℕ) (f : FiberInt P R Func)
      → get_elem? w.runner.fibers pos ≡ some f
      → fiber_at w pos ≡ ok f
  unfolding fiber_at index
  fiber_lem w pos f e = rw e refl

  -- A world with another fiber in the place.
  abbrev stored : World Store P R Func → ℕ → FiberInt P R Func → World Store P R Func
  stored w pos f = record w { runner = record w.runner { fibers = set w.runner.fibers pos f } }

  unstack_lem :
      (w : World Store P R Func) (pos stack : ℕ) (f : FiberInt P R Func)
      → get_elem? w.runner.fibers pos ≡ some f
      → f.stack ≡ some stack
      → unstack w pos
        ≡ ok (record (stored w pos (record f { stack = none; t = false })) {
          poller = record w.poller { free_stacks = stack ∷ w.poller.free_stacks };
        })
  unfolding unstack Poller.stack_push
  unstack_lem w pos stack f at_pos has_stack =
      rw
        (
          fiber_lem w pos f at_pos,
          has_stack,
          modify_lem w pos f (λ f. record f { stack = none; t = false }) at_pos,
        )
        refl

  take_result_lem :
      (w : World Store P R Func) (pos : ℕ) (f : FiberInt P R Func)
      → get_elem? w.runner.fibers pos ≡ some f
      → take_result w pos
        ≡ ok (record (stored w pos (record f { result = none })) {
          runner = record w.runner {
            fibers = set w.runner.fibers pos (record f { result = none });
            results = w.runner.results ++ listed f.result;
          };
        })
  unfolding take_result
  take_result_lem w pos f at_pos =
      rw (fiber_lem w pos f at_pos, modify_lem w pos f (λ f. record f { result = none }) at_pos)
        (go f.result)
    where
      go :
          (o : Option R)
          → (elim o as (λ _. Run (World Store P R Func)) [
            | none ↦ ok (stored w pos (record f { result = none }))
            | some r ↦ ok (record w {
              runner = record w.runner {
                fibers = set w.runner.fibers pos (record f { result = none });
                results = w.runner.results ++ (r ∷ []);
              };
            })
          ])
            ≡ ok (record w {
              runner = record w.runner {
                fibers = set w.runner.fibers pos (record f { result = none });
                results = w.runner.results ++ listed o;
              };
            })
      go none =
          ap
            (λ (l : List R). ok (record w {
              runner = record w.runner {
                fibers = set w.runner.fibers pos (record f { result = none });
                results = l;
              };
            }))
            (sym (append-nil w.runner.results))
      go (some r) = refl

  -- The world once the fiber is cleaned up.
  abbrev pub cleaned_up : World Store P R Func → ℕ → ℕ → FiberInt P R Func → World Store P R Func
  cleaned_up w pos stack f = record w {
    runner = record w.runner {
      fibers = set w.runner.fibers pos (cleaned f);
      free_fibers = w.runner.free_fibers ++ (pos ∷ []);
      results = w.runner.results ++ listed f.result;
    };
    poller = record w.poller { free_stacks = stack ∷ w.poller.free_stacks };
  }

  module _ ⦃switch : Switch Store P R Func⦄ (default_stack fuel : ℕ) (w : World Store P R Func)
      (pos stack : ℕ) (f : FiberInt P R Func) where
    cleaned_lem :
        get_elem? w.runner.fibers pos ≡ some (over f stack)
        → stepped_out default_stack (suc fuel) w pos ≡ ok (cleaned_up w pos stack f)
    unfolding stepped_out
    cleaned_lem at_pos =
        let lt = get_elem?-lt w.runner.fibers pos (over f stack) at_pos in
        let f1 = record (over f stack) { stack = none; t = false } in
        let f2 = record f1 { sock = no_socket } in
        let w1 = record (stored w pos f1) {
          poller = record w.poller { free_stacks = stack ∷ w.poller.free_stacks };
        } in
        let at1 = get_elem?-set_self w.runner.fibers pos f1 lt in
        let w2 = stored w1 pos f2 in
        let at2 =
          get_elem?-set_self w1.runner.fibers pos f2 (get_elem?-lt w1.runner.fibers pos f1 at1) in
        let once = set-set w.runner.fibers pos f1 f2 in
        let twice =
          ap (λ (l : List (FiberInt P R Func)). set l pos (cleaned f)) once
          ∙ set-set w.runner.fibers pos f2 (cleaned f) in
        rw
          (
            fiber_lem w pos (over f stack) at_pos,
            unstack_lem w pos stack (over f stack) at_pos refl,
            modify_lem w1 pos f1 (λ f. record f { sock = no_socket }) at1,
            take_result_lem w2 pos f2 at2,
            twice,
          )
          refl

    -- Back on the main stack from a fiber that is done and has no parent: its result is behind the
    -- results of the runner, its stack is in front of those that the poller keeps, its socket is
    -- closed, and its place is the last free one. The runner stays in order. The place was not free.
    pub stepped_out-IsRunner :
        get_elem? w.runner.fibers pos ≡ some f
        → f.state ≡ closed
        → f.parent ≡ none
        → f.t ≡ true
        → f.stack ≡ some stack
        → IsRunner w.runner
        → has pos w.runner.free_fibers ≡ false
        → (stepped_out default_stack (suc fuel) w pos ≡ ok (cleaned_up w pos stack f))
          × IsRunner (cleaned_up w pos stack f).runner
    stepped_out-IsRunner at_pos state orphan running has_stack r out =
        let same : f ≡ over f stack = λ i. record f {
          state = state i;
          parent = orphan i;
          t = running i;
          stack = has_stack i;
        } in
        let lt = get_elem?-lt w.runner.fibers pos f at_pos in
        let r1 = IsRunner-set w.runner pos f (cleaned f) r at_pos refl in
        let r2 =
          IsRunner-free (record w.runner { fibers = set w.runner.fibers pos (cleaned f) }) pos r1
            out (omega (arith, length-set w.runner.fibers pos (cleaned f))) in
        (
          cleaned_lem (at_pos ∙ ap some same),
          record { places = r2.places; distinct = r2.distinct; ids = r2.ids },
        )
