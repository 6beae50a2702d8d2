-- ===== src/Wheel/Fresh.antt =====
-- src/wheel.rs: `Wheel::new` and `reserve` keep the invariant.
use easyfibers.Prelude.{
  ℕ, zero, suc, ◌-◌, ◌≤◌, ◌<◌, ◌≡◌, ◌≢◌, refl, sym, ap, ◌∙◌, true, List, [], Option, none, some,
  length, replicate, get_elem?, arith, bit_and, ◌==◌, Bool-cases, ◌⊎◌, inl, inr, ne→==_false,
}
use easyfibers.Prelude.Outcome.{ok}
use easyfibers.TimerBuilder.{
  Builder, get_num_slots, get_initial_capacity, get_max_capacity, get_tick_duration,
}
use easyfibers.Wheel.{Slot, Wheel, new, reserve, millis, time_to_ticks, ticks_to_wheel_idx}
use easyfibers.Wheel.Slab.{empty, Timeout, reserved, timeout, SlabApi}
use easyfibers.Wheel.Chain.{Memory, Seg, nil, cons}
use easyfibers.Wheel.Linked.{view, IsWheel}
use easyfibers.Wheel.Reserve.{Reserved, reserve-Reserved}

millis-pos : (duration : ℕ) → 0 < duration → 0 < millis duration
unfolding millis
millis-pos duration h = ground arith

length-replicate : (n : ℕ) (s : Slot) → length (replicate n s) ≡ n
length-replicate zero s = refl
length-replicate (suc n) s = ap suc (length-replicate n s)

get_elem?-replicate : (n i : ℕ) (s s' : Slot) → get_elem? (replicate n s) i ≡ some s' → s' ≡ s
get_elem?-replicate zero i s s' e = cc
get_elem?-replicate (suc n) zero s s' e = cc
get_elem?-replicate (suc n) (suc i) s s' e = get_elem?-replicate n i s s' e

-- Another task for some entries.
Seg-retask :
    {mem mem' : Memory} {idx last next before head : ℕ} {ts : List ℕ}
    → ((a : ℕ) (v : Timeout)
        → mem a ≡ some (timeout v)
        → (task : ℕ) × (mem' a ≡ some (timeout (record v { task = task }))))
    → Seg mem idx last next before head ts
    → Seg mem' idx last next before head ts
Seg-retask kept (nil l n) = nil l n
Seg-retask kept (cons {t} {v} k e i p s) =
    let (task, e') = kept t v e in cons {v = record v { task = task }} k e' i p (Seg-retask kept s)

module _ {Store : Type 0} ⦃api : SlabApi Store⦄ where
  made : Builder → ℕ → Wheel Store
  made builder start = record {
    wheel = replicate (get_num_slots builder) (record { head = empty; next_timeout = none });
    slab = api.with_capacity (get_initial_capacity builder);
    start = start;
    cur_wheel_tick = 0;
    cur_slab_idx = empty;
    max_capacity = get_max_capacity builder;
    tick_ms = millis (get_tick_duration builder);
    mask = get_num_slots builder - 1;
  }

  new_lem :
      (builder : Builder) (start : ℕ)
      → get_num_slots builder ≢ 0
      → bit_and (get_num_slots builder) (get_num_slots builder - 1) ≡ 0
      → new builder start ≡ ok (made builder start)
  unfolding new made
  new_lem builder start some_slots power =
      rw (ne→==_false (get_num_slots builder) 0 some_slots, power) refl

  -- A new wheel is in order, and holds nothing; it begins at the tick zero of its start. The number of slots is not zero and passes the test
  -- for a power of two, and a tick is not empty.
  pub new-IsWheel :
      (builder : Builder) (start : ℕ)
      → get_num_slots builder ≢ 0
      → bit_and (get_num_slots builder) (get_num_slots builder - 1) ≡ 0
      → 0 < get_tick_duration builder
      → (w : Wheel Store) × (new builder start ≡ ok w)
        × IsWheel w (λ _. []) [] []
        × ((t : ℕ) → api.get w.slab t ≡ none)
        × (w.cur_wheel_tick ≡ 0)
        × (w.start ≡ start)
        × (w.tick_ms ≡ millis (get_tick_duration builder))
  unfolding made
  new-IsWheel builder start some_slots power ticking =
      let n = get_num_slots builder in
      (
        made builder start,
        new_lem builder start some_slots power,
        record {
          size = length-replicate n _ ∙ omega arith;
          ticking = millis-pos (get_tick_duration builder) ticking;
          unused = api.get-with_capacity _ empty;
          linked = λ i s e.
              (empty, nil refl (ap (λ (x : Slot). x.head) (get_elem?-replicate n i _ s e)));
          nodup = λ i. tt;
          timers = λ t task when idx e. cc (api.get-with_capacity _ t);
          split = refl;
          cursor = refl;
        },
        api.get-with_capacity _,
        refl,
        refl,
        refl,
      )

  -- Entries that are not the wheel's change, and tasks of timers: each timer is still there, and none
  -- is new.
  pub IsWheel-slab :
      (w : Wheel Store) {chain : ℕ → List ℕ} {seen rest : List ℕ} (slab : Store)
      → IsWheel w chain seen rest
      → ((a : ℕ) (v : Timeout)
          → api.get w.slab a ≡ some (timeout v)
          → (task : ℕ) × (api.get slab a ≡ some (timeout (record v { task = task }))))
      → ((a task when idx : ℕ)
          → view (api.get slab a) ≡ some (some (task, when, idx))
          → (task' : ℕ) × (view (api.get w.slab a) ≡ some (some (task', when, idx))))
      → api.get slab empty ≡ none
      → IsWheel (record w { slab = slab }) chain seen rest
  unfolding time_to_ticks ticks_to_wheel_idx
  IsWheel-slab w {chain} slab h kept old unused = record {
    size = h.size;
    ticking = h.ticking;
    unused = unused;
    linked = λ i s e. let (last, seg) = h.linked i s e in (last, Seg-retask kept seg);
    nodup = h.nodup;
    timers = λ t task when idx e.
        let (task', e') = old t task when idx e in h.timers t task' when idx e';
    split = h.split;
    cursor = h.cursor;
  }

  pub Reserved-IsWheel :
      (w : Wheel Store) {chain : ℕ → List ℕ} {seen rest : List ℕ} (answer : Option ℕ) (slab : Store)
      → IsWheel w chain seen rest
      → Reserved w.slab answer slab
      → IsWheel (record w { slab = slab }) chain seen rest
  Reserved-IsWheel w none slab h same =
      IsWheel-slab w slab h (λ a v e. (v.task, same a ∙ e))
        (λ a task when idx e. (task, sym (ap view (same a)) ∙ e)) (same empty ∙ h.unused)
  Reserved-IsWheel w (some token) slab h (fresh, below, same) =
      IsWheel-slab w slab h
        (λ a v e.
          let ne : a ≢ token = λ k. cc (ap (λ (x : ℕ). api.get w.slab x) k) in
          (v.task, same a ∙ rw (ne→==_false a token ne) e))
        (λ a task when idx e. elim (Bool-cases (a == token)) [
          | inl at_token ↦
              let k : api.get slab a ≡ some reserved = same a ∙ rw at_token refl in cc (ap view k)
          | inr other ↦
              let k : api.get slab a ≡ api.get w.slab a = same a ∙ rw other refl in
              (task, sym (ap view k) ∙ e)
        ])
        (same empty ∙ rw (ne→==_false empty token (λ k. omega arith)) h.unused)

  -- `reserve` keeps the wheel in order, and touches no timer. There is room, or the slab may grow.
  pub reserve-IsWheel :
      (w : Wheel Store) {chain : ℕ → List ℕ} {seen rest : List ℕ}
      → IsWheel w chain seen rest
      → (api.has_vacant w.slab ≡ true) ⊎ (api.len w.slab ≤ w.max_capacity)
      → (answer : Option ℕ) × (slab : Store) × (reserve w ≡ ok (answer, record w { slab = slab }))
        × Reserved w.slab answer slab
        × IsWheel (record w { slab = slab }) chain seen rest
  reserve-IsWheel w h room =
      let (answer, slab, e, r) = reserve-Reserved w room in
      (answer, slab, e, r, Reserved-IsWheel w answer slab h r)
