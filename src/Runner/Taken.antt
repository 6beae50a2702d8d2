-- ===== src/Runner/Taken.antt =====
-- src/runner.rs: the child whose result `child_iter` takes.
use easyfibers.Prelude.{
  ℕ, zero, suc, ◌+◌, ◌<◌, ◌≡◌, ◌≢◌, refl, sym, ap, ◌∙◌, ◌++◌, ◌⊎◌, set, length, length-set,
  get_elem?-set_self, Bool, true, false, ◌||◌, List, [], ◌∷◌, none, some, get_elem?,
  get_elem?-set_ne, arith, inl, inr,
}
use easyfibers.Prelude.Outcome.{ok}
use easyfibers.Prelude.Slice.{index}
use easyfibers.Wheel.Cancel.Relink.{get_elem?-lt}
use easyfibers.Poller
use easyfibers.Poller.Queues.{push_at_lem}
use easyfibers.Fiber.Net.{NetApi}
use easyfibers.Fiber.Int.{FiberInt, FiberState, closed, stacked, unstacked}
use easyfibers.Runner.{World, Switch, fiber_at, push_toexec, push_free}
use easyfibers.Runner.Children.{is_closed, swap_remove_front, find_child, take_child, child_iter}
use easyfibers.Runner.Registered.{changed, queued, modify_lem}

-- The list without the element at the index, whose place the first element has taken.
pub record Without (xs : List ℕ) (i : ℕ) (ys : List ℕ) : Type 0 where
  pub shorter : suc (length ys) ≡ length xs
  pub moved : (j : ℕ) → suc j ≡ i → get_elem? ys j ≡ get_elem? xs 0
  pub kept : (j : ℕ) → suc j ≢ i → get_elem? ys j ≡ get_elem? xs (suc j)

swap_remove_front-Without :
    (xs : List ℕ) (i : ℕ) → i < length xs → Without xs i (swap_remove_front xs i)
swap_remove_front-Without [] i lt = absurd (omega arith)
swap_remove_front-Without (x ∷ xs) zero lt = record {
  shorter = refl;
  moved = λ j e. absurd (omega arith);
  kept = λ j ne. refl;
}
swap_remove_front-Without (x ∷ xs) (suc i) lt = record {
  shorter = omega (arith, length-set xs i x);
  moved = λ j e.
      let k : j ≡ i = omega arith in
      ap (get_elem? (set xs i x)) k ∙ get_elem?-set_self xs i x (omega arith);
  kept = λ j ne. get_elem?-set_ne xs x (λ k. ne (ap suc (sym k)));
}

-- A fiber that is not closed.
not_closed : (s : FiberState) → s ≢ closed → is_closed s ≡ false
not_closed closed ne = absurd (ne refl)
not_closed stacked ne = refl
not_closed unstacked ne = refl

closed-cases : (s : FiberState) → (s ≡ closed) ⊎ (s ≢ closed)
closed-cases closed = inl refl
closed-cases stacked = inr (λ k. cc)
closed-cases unstacked = inr (λ k. cc)

or_true : (b : Bool) → (b || true) ≡ true
or_true true = refl
or_true false = refl

module _ ⦃net : NetApi⦄ {Store P R Func : Type 0} where
  -- The child `c`, at the index `i`: those before it are not closed and have no result.
  pub record FirstReady (w : World Store P R Func) (children : List ℕ) (c i : ℕ)
      (f : FiberInt P R Func) : Type 0 where
    pub listed : get_elem? children i ≡ some c
    pub here : get_elem? w.runner.fibers c ≡ some f
    pub before :
        (j : ℕ)
        → j < i
        → (d : ℕ) × (g : FiberInt P R Func) × (get_elem? children j ≡ some d)
          × (get_elem? w.runner.fibers d ≡ some g)
          × (g.state ≢ closed)
          × (g.result ≡ none)

  find_child-FirstReady :
      (w : World Store P R Func) (children : List ℕ) (from c i : ℕ) (f : FiberInt P R Func) (r : R)
      → f.result ≡ some r
      → FirstReady w children c i f
      → find_child w children from ≡ ok (some (c, from + i))
  unfolding find_child fiber_at index
  find_child-FirstReady w [] from c i f r has_result first = let l = first.listed in cc
  find_child-FirstReady w (d ∷ children) from c zero f r has_result first =
      let k : d ≡ c = let l = first.listed in cc in
      let same : from + 0 ≡ from = omega arith in
      rw (k, first.here, has_result, or_true (is_closed f.state), same) refl
  find_child-FirstReady w (d ∷ children) from c (suc i) f r has_result first =
      let (d', g, at, here, alive, idle) = first.before 0 (omega arith) in
      let k : d ≡ d' = cc in
      let same : from + suc i ≡ suc from + i = omega arith in
      rw (k, here, not_closed g.state alive, idle, same)
        (find_child-FirstReady w children (suc from) c i f r has_result (record {
          listed = first.listed;
          here = first.here;
          before = λ j lt. first.before (suc j) (omega arith);
        }))

  -- What `child_iter` of the fiber `f` at `parent` leaves once it took the result of its child `g` at
  -- `c`. A child that is closed leaves the children, and its place is the last free one; another one
  -- is behind the queue `q` of the runner.
  pub data Took (w : World Store P R Func) (parent : ℕ) (f : FiberInt P R Func) (c i : ℕ)
      (g : FiberInt P R Func) (q : List ℕ) : World Store P R Func → Type 0 where
    left :
        (children : List ℕ)
        → g.state ≡ closed
        → Without f.children i children
        → Took w parent f c i g q (record w {
          runner = record w.runner {
            fibers =
                set
                  (set w.runner.fibers c (record g { result = none }))
                  parent
                  (record f { children = children });
            free_fibers = w.runner.free_fibers ++ (c ∷ []);
          };
        })
    queued_again :
        g.state ≢ closed
        → Took w parent f c i g q (record w {
          runner = record w.runner { fibers = set w.runner.fibers c (record g { result = none }) };
          poller = record w.poller {
            toexec_fibers = set w.poller.toexec_fibers w.runner.pos (q ++ (c ∷ []));
          };
        })

  -- The world after the result of a closed child was taken.
  abbrev closing : World Store P R Func → ℕ → FiberInt P R Func → ℕ → ℕ → World Store P R Func
  closing w parent f c i =
      push_free (changed w parent (record f { children = swap_remove_front f.children i })) c

  take_closed :
      (w : World Store P R Func) (parent c i : ℕ) (f g : FiberInt P R Func)
      → get_elem? w.runner.fibers c ≡ some g
      → get_elem? (changed w c (record g { result = none })).runner.fibers parent ≡ some f
      → is_closed g.state ≡ true
      → take_child w parent c i
        ≡ ok (g.result, closing (changed w c (record g { result = none })) parent f c i)
  unfolding take_child fiber_at index
  take_closed w parent c i f g here at_parent over =
      rw
        (
          here,
          modify_lem w c g (λ f. record f { result = none }) here,
          over,
          modify_lem (changed w c (record g { result = none })) parent f
              (λ f. record f { children = swap_remove_front f.children i }) at_parent,
        )
        refl

  take_open :
      (w : World Store P R Func) (parent c i : ℕ) (g : FiberInt P R Func) (q : List ℕ)
      → get_elem? w.runner.fibers c ≡ some g
      → get_elem? w.poller.toexec_fibers w.runner.pos ≡ some q
      → is_closed g.state ≡ false
      → take_child w parent c i
        ≡ ok (
          g.result,
          record (changed w c (record g { result = none })) {
            poller = queued w.poller w.runner.pos c true q;
          },
        )
  unfolding take_child fiber_at index push_toexec Poller.toexec_push
  take_open w parent c i g q here at_queue alive =
      rw
        (
          here,
          modify_lem w c g (λ f. record f { result = none }) here,
          alive,
          push_at_lem w.poller.toexec_fibers w.runner.pos q c
              (get_elem?-lt w.poller.toexec_fibers w.runner.pos q at_queue) at_queue,
        )
        refl

  round_lem :
      ⦃switch : Switch Store P R Func⦄ (fuel : ℕ) (w w' : World Store P R Func) (parent c i : ℕ)
      (f g : FiberInt P R Func) (r : R)
      → get_elem? w.runner.fibers parent ≡ some f
      → FirstReady w f.children c i g
      → take_child w parent c i ≡ ok (g.result, w')
      → g.result ≡ some r
      → child_iter (suc fuel) w parent ≡ ok (some r, w')
  unfolding child_iter fiber_at index
  round_lem fuel w w' parent c i f g r at_parent first e has_result = go f.children refl
    where
      go :
          (children : List ℕ)
          → f.children ≡ children
          → child_iter (suc fuel) w parent ≡ ok (some r, w')
      go [] k = let l = first.listed in cc (ap (λ l. get_elem? l i) k)
      go (d ∷ children) k =
          let found = find_child-FirstReady w f.children 0 c i g r has_result first in
          let zero_index : 0 + i ≡ i = omega arith in
          rw (at_parent, k) (rw (rw zero_index at found, e, has_result) refl)

  -- `child_iter` of a fiber whose first ready child has a result answers the result at once, without a
  -- panic and without waiting: the result of the child is taken. A child that is closed leaves the
  -- children, where the first one takes its index, and its place is behind the free ones; another
  -- one is behind the queue of the runner. Nothing else is changed. The children before it are not
  -- closed and have no result, the fuel is not zero, the child is not its own parent, and the runner
  -- has a queue.
  pub child_iter-result :
      ⦃switch : Switch Store P R Func⦄ (fuel : ℕ) (w : World Store P R Func) (parent c i : ℕ)
      (f g : FiberInt P R Func) (r : R) (q : List ℕ)
      → get_elem? w.runner.fibers parent ≡ some f
      → FirstReady w f.children c i g
      → g.result ≡ some r
      → c ≢ parent
      → get_elem? w.poller.toexec_fibers w.runner.pos ≡ some q
      → (w' : World Store P R Func) × (child_iter (suc fuel) w parent ≡ ok (some r, w'))
        × Took w parent f c i g q w'
  child_iter-result fuel w parent c i f g r q at_parent first has_result ne at_queue =
      elim (closed-cases g.state) [
        | inl over ↦
            let kept =
              get_elem?-set_ne w.runner.fibers (record g { result = none }) ne ∙ at_parent in
            (
              _,
              round_lem fuel w _ parent c i f g r at_parent first
                  (take_closed w parent c i f g first.here kept (ap is_closed over)) has_result,
              left _ over (
                  swap_remove_front-Without f.children i
                    (get_elem?-lt f.children i c first.listed)),
            )
        | inr alive ↦ (
          _,
          round_lem fuel w _ parent c i f g r at_parent first
              (take_open w parent c i g q first.here at_queue (not_closed g.state alive))
              has_result,
          queued_again alive,
        )
      ]
