-- ===== src/Runner/Timers.antt =====
-- src/runner.rs: `cancel_timer` and `new_timer`, with the runner and the wheel in order.
use easyfibers.Prelude.{
  ℕ, ◌<◌, ◌≡◌, ◌≢◌, refl, sym, ap, ◌∙◌, false, List, [], ◌∷◌, ◌++◌, none, some, length, set,
  length-set, get_elem?, get_elem?-set_self, get_elem?-set_ne, arith, ◌==◌, ==_iff, Bool-cases, inl,
  inr,
}
use easyfibers.Prelude.Outcome.{ok}
use easyfibers.Prelude.Slice.{index}
use easyfibers.Wheel.{Wheel, Slot}
use easyfibers.Wheel.Slab.{SlabApi}
use easyfibers.Wheel.Tokens.{has, IsNodup, has-append}
use easyfibers.Wheel.Linked.{IsWheel}
use easyfibers.Wheel.Cancel.{cancel}
use easyfibers.Wheel.Cancel.Relink.{get_elem?-lt}
use easyfibers.Wheel.Cancel.Removal.{Removed}
use easyfibers.Wheel.Cancel.Cancelled.{cancel-Removed}
use easyfibers.Poller
use easyfibers.Fiber.Net.{NetApi}
use easyfibers.Fiber.Int.{FiberInt}
use easyfibers.Runner.{RunnerInt, World, fiber_at, timer_cancel, cancel_timer}
use easyfibers.Runner.Places.{IsRunner}
use easyfibers.Runner.Registered.{modify_lem}

IsNodup-last : (xs : List ℕ) (a : ℕ) → IsNodup xs → has a xs ≡ false → IsNodup (xs ++ (a ∷ []))
IsNodup-last [] a d out = (refl, tt)
IsNodup-last (x ∷ xs) a (x_out, d) out =
    let e = has-append x xs (a ∷ []) in (ground arith, IsNodup-last xs a d (ground arith))

module _ ⦃net : NetApi⦄ {P R Func : Type 0} where
  -- The fiber once its timer is cancelled.
  abbrev pub cancelled : FiberInt P R Func → FiberInt P R Func
  cancelled f = record f { wtoken = none; result = none; param = none }

  -- Another fiber of the same id in a place.
  pub IsRunner-set :
      (r : RunnerInt P R Func) (pos : ℕ) (f g : FiberInt P R Func)
      → IsRunner r
      → get_elem? r.fibers pos ≡ some f
      → g.me ≡ f.me
      → IsRunner (record r { fibers = set r.fibers pos g })
  IsRunner-set r pos f g h at_pos same =
      let here = get_elem?-set_self r.fibers pos g (get_elem?-lt r.fibers pos f at_pos) in
      record {
        places = λ a m. omega (arith, length-set r.fibers pos g, h.places a m);
        distinct = h.distinct;
        ids = λ i x at_i. elim (Bool-cases (i == pos)) [
          | inl mine ↦
              let k = (==_iff i pos).0 mine in
              let q : x ≡ g = cc (ap (get_elem? (set r.fibers pos g)) k, here) in
              ap (λ (y : FiberInt P R Func). y.me) q
              ∙ same
              ∙ h.ids pos f at_pos
              ∙ ap (Poller.fiber_id r.pos) (sym k)
          | inr other ↦
              let ne : i ≢ pos = ground arith in
              h.ids i x (sym (get_elem?-set_ne r.fibers g (λ k. ne (sym k))) ∙ at_i)
        ];
      }

  -- One more free place.
  pub IsRunner-free :
      (r : RunnerInt P R Func) (pos : ℕ)
      → IsRunner r
      → has pos r.free_fibers ≡ false
      → pos < length r.fibers
      → IsRunner (record r { free_fibers = r.free_fibers ++ (pos ∷ []) })
  IsRunner-free r pos h out lt = record {
    places = λ a m. elim (Bool-cases (a == pos)) [
      | inl mine ↦ let k = (==_iff a pos).0 mine in omega arith
      | inr other ↦ let e = has-append a r.free_fibers (pos ∷ []) in h.places a (ground arith)
    ];
    distinct = IsNodup-last r.free_fibers pos h.distinct out;
    ids = h.ids;
  }

module _ ⦃net : NetApi⦄ {Store P R Func : Type 0} ⦃api : SlabApi Store⦄ where
  -- The world once the timer of the fiber `f` at `pos` is cancelled, with the wheel that is left.
  abbrev pub released :
      World Store P R Func → ℕ → FiberInt P R Func → Wheel Store → World Store P R Func
  released w pos f wheel = record w {
    runner = record w.runner {
      fibers = set w.runner.fibers pos (cancelled f);
      free_fibers = w.runner.free_fibers ++ (pos ∷ []);
    };
    poller = record w.poller { wheel = wheel };
  }

  cancel_lem :
      (w : World Store P R Func) (pos tk : ℕ) (f : FiberInt P R Func) (wheel : Wheel Store)
      → get_elem? w.runner.fibers pos ≡ some f
      → f.wtoken ≡ some tk
      → cancel w.poller.wheel tk ≡ ok wheel
      → cancel_timer w pos ≡ ok (released w pos f wheel)
  unfolding cancel_timer fiber_at index timer_cancel Poller.timer_cancel
  cancel_lem w pos tk f wheel at_pos token e =
      rw
        (
          at_pos,
          token,
          e,
          modify_lem (record w { poller = record w.poller { wheel = wheel } }) pos f cancelled
              at_pos,
        )
        refl

  pub idle_lem :
      (w : World Store P R Func) (pos : ℕ) (f : FiberInt P R Func)
      → get_elem? w.runner.fibers pos ≡ some f
      → f.wtoken ≡ none
      → cancel_timer w pos ≡ ok w
  unfolding cancel_timer fiber_at index
  idle_lem w pos f at_pos token = rw (at_pos, token) refl

  -- `cancel_timer` of a fiber that has a timer and whose place is not free: it never panics, the
  -- timer is out of the wheel and every other token has what it had, the wheel and the runner stay
  -- in order, the place is the last free one, and a second `cancel_timer` does nothing.
  pub cancel_timer-Removed :
      (w : World Store P R Func) {chain : ℕ → List ℕ} {seen rest : List ℕ}
      (h : IsWheel w.poller.wheel chain seen rest) (r : IsRunner w.runner) (pos tk : ℕ)
      (f : FiberInt P R Func)
      → get_elem? w.runner.fibers pos ≡ some f
      → f.wtoken ≡ some tk
      → has pos w.runner.free_fibers ≡ false
      → (slots : List Slot) × (slab : Store) × (cursor : ℕ) × (cancel_timer w pos
          ≡ ok (
              released w pos f
                (record w.poller.wheel { wheel = slots; slab = slab; cur_slab_idx = cursor })))
        × Removed w.poller.wheel h tk slots slab cursor
        × IsRunner
            (released w pos f
              (record w.poller.wheel { wheel = slots; slab = slab; cur_slab_idx = cursor })).runner
        × (cancel_timer
              (released w pos f
                (record w.poller.wheel { wheel = slots; slab = slab; cur_slab_idx = cursor }))
              pos
            ≡ ok (
                released w pos f
                  (record w.poller.wheel { wheel = slots; slab = slab; cur_slab_idx = cursor })))
  cancel_timer-Removed w h r pos tk f at_pos token out =
      let (slots, slab, cursor, e, removed) = cancel-Removed w.poller.wheel h tk in
      let lt = get_elem?-lt w.runner.fibers pos f at_pos in
      (
        slots,
        slab,
        cursor,
        cancel_lem w pos tk f _ at_pos token e,
        removed,
        IsRunner-free (record w.runner { fibers = set w.runner.fibers pos (cancelled f) }) pos
            (IsRunner-set w.runner pos f (cancelled f) r at_pos refl) out
            (omega (arith, length-set w.runner.fibers pos (cancelled f))),
        idle_lem _ pos (cancelled f) (get_elem?-set_self w.runner.fibers pos (cancelled f) lt) refl,
      )
