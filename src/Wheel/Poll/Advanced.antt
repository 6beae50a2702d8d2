-- ===== src/Wheel/Poll/Advanced.antt =====
-- src/wheel.rs: `poll` goes on to the next tick.
use easyfibers.Prelude.{
  ℕ, ◌+◌, ◌≡◌, ◌≢◌, refl, sym, ap, ◌∙◌, true, List, [], ◌∷◌, ◌++◌, some, get_elem?, get_elem?_in,
  arith, ◌==◌, ==_iff, if◌then◌else◌,
}
use easyfibers.Prelude.Outcome.{ok}
use easyfibers.Prelude.Slice.{index}
use easyfibers.Wheel.{Slot, Wheel, time_to_ticks, ticks_to_wheel_idx, clear_timeout}
use easyfibers.Wheel.Slab.{empty, Timeout, timeout, SlabApi}
use easyfibers.Wheel.Tokens.{has, has-append}
use easyfibers.Wheel.Linked.{front_of, Seg-front, IsWheel}
use easyfibers.Wheel.Cancel.Around.{idx-lt, chain-timer}
use easyfibers.Wheel.Poll.{advance}
use easyfibers.Wheel.Poll.Timeouts.{IsWheel-slots, clear_timeout_lem}

module _ {Store : Type 0} ⦃api : SlabApi Store⦄ where
  module _ (w : Wheel Store) {chain : ℕ → List ℕ} {seen rest : List ℕ}
      (h : IsWheel w chain seen rest) where
    -- What is still to be visited are timers of the current slot.
    pub resting-timer :
        (a : ℕ)
        → has a rest ≡ true
        → (v : Timeout) × (api.get w.slab a ≡ some (timeout v))
          × (v.wheel_idx ≡ ticks_to_wheel_idx w w.cur_wheel_tick)
    resting-timer a m =
        let cur = ticks_to_wheel_idx w w.cur_wheel_tick in
        let (s, at_cur) = get_elem?_in w.wheel cur (idx-lt w h w.cur_wheel_tick) in
        let m' : has a (seen ++ rest) ≡ true = ground (arith, has-append a seen rest) in
        chain-timer w h cur a s at_cur (ap (has a) h.split ∙ m')

    -- At the end of the visit nothing of the slot is left.
    pub cursor-end : w.cur_slab_idx ≡ empty → rest ≡ []
    cursor-end e = go rest refl
      where
        go : (r : List ℕ) → rest ≡ r → r ≡ []
        go [] q = refl
        go (a ∷ r) q =
            let k : a ≡ empty = ap front_of (sym q) ∙ sym h.cursor ∙ e in
            let (v, at_a, _) = resting-timer a (ap (has a) q ∙ rw ((==_iff a a).1 refl) refl) in
            cc (ap (λ (x : ℕ). api.get w.slab x) k, h.unused)

    next : ℕ
    next = ticks_to_wheel_idx w (w.cur_wheel_tick + 1)

    next-IsWheel :
        rest ≡ []
        → IsWheel
            (record w {
              cur_wheel_tick = w.cur_wheel_tick + 1;
              cur_slab_idx = front_of (chain next);
            })
            chain
            []
            (chain next)
    unfolding next time_to_ticks ticks_to_wheel_idx
    next-IsWheel over = record {
      size = h.size;
      ticking = h.ticking;
      unused = h.unused;
      linked = h.linked;
      nodup = h.nodup;
      timers = λ a task when idx e.
          let (tick, ticks, at_slot, m, le, last_visit) = h.timers a task when idx e in
          let ne : tick ≢ w.cur_wheel_tick = λ k. cc (last_visit k, ap (has a) over) in
          (
            tick,
            ticks,
            at_slot,
            m,
            omega arith,
            λ k. ap (λ (i : ℕ). has a (chain i)) (sym (at_slot ∙ ap (ticks_to_wheel_idx w) k)) ∙ m,
          );
      split = refl;
      cursor = refl;
    }

    advance_lem :
        (slots : List Slot) (s s' : Slot)
        → get_elem? w.wheel (ticks_to_wheel_idx w w.cur_wheel_tick) ≡ some s
        → (if s.head == empty
            then clear_timeout w (ticks_to_wheel_idx w w.cur_wheel_tick)
            else ok w)
          ≡ ok (record w { wheel = slots })
        → get_elem? slots next ≡ some s'
        → advance w
          ≡ ok (record w {
            wheel = slots;
            cur_wheel_tick = w.cur_wheel_tick + 1;
            cur_slab_idx = s'.head;
          })
    unfolding next advance index ticks_to_wheel_idx
    advance_lem slots s s' at_cur cleared at_next = rw (at_cur, cleared, at_next) refl

  -- At the end of the visit of a slot, `poll` goes on to the next tick without a panic, and begins
  -- the visit of its slot.
  pub advance-IsWheel :
      (w : Wheel Store) {chain : ℕ → List ℕ} {seen rest : List ℕ}
      → IsWheel w chain seen rest
      → w.cur_slab_idx ≡ empty
      → (slots : List Slot) × (advance w
          ≡ ok (record w {
            wheel = slots;
            cur_wheel_tick = w.cur_wheel_tick + 1;
            cur_slab_idx = front_of (chain (ticks_to_wheel_idx w (w.cur_wheel_tick + 1)));
          }))
        × IsWheel
            (record w {
              wheel = slots;
              cur_wheel_tick = w.cur_wheel_tick + 1;
              cur_slab_idx = front_of (chain (ticks_to_wheel_idx w (w.cur_wheel_tick + 1)));
            })
            chain
            []
            (chain (ticks_to_wheel_idx w (w.cur_wheel_tick + 1)))
  unfolding next ticks_to_wheel_idx
  advance-IsWheel w {chain} h e =
      let cur = ticks_to_wheel_idx w w.cur_wheel_tick in
      let (s, at_cur) = get_elem?_in w.wheel cur (idx-lt w h w.cur_wheel_tick) in
      let (slots, cleared, same) =
        clear_timeout_lem w (s.head == empty) cur s at_cur (idx-lt w h w.cur_wheel_tick) in
      let w' = record w { wheel = slots } in
      let h' = IsWheel-slots w slots h same in
      let (s', at_next) = get_elem?_in slots (next w h) (idx-lt w' h' (w.cur_wheel_tick + 1)) in
      let front = Seg-front (h'.linked (next w h) s' at_next).1 in
      (
        slots,
        advance_lem w h slots s s' at_cur cleared at_next
            ∙ ap
                (λ (c : ℕ). ok (record w {
                  wheel = slots;
                  cur_wheel_tick = w.cur_wheel_tick + 1;
                  cur_slab_idx = c;
                }))
                front,
        next-IsWheel w' h' (cursor-end w h e),
      )
