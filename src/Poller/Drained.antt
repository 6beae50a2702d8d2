-- ===== src/Poller/Drained.antt =====
-- src/poller.rs: the loop of `poll` over the timers that are due.
use easyfibers.Prelude.{
  ℕ, zero, suc, ◌+◌, ◌-◌, ◌/◌, ◌^◌, ◌≤◌, ◌<◌, ◌≡◌, refl, sym, ap, subst, ◌∙◌, true, List, [], ◌∷◌,
  ◌++◌, Option, none, some, length, arith, ◌==◌, Bool-cases, inl, inr,
}
use native.Mathlib.Nat.{mul-le-mul_right}
use easyfibers.Prelude.Outcome.{ok}
use easyfibers.Wheel.{Wheel, ticks_to_wheel_idx}
use easyfibers.Wheel.Slab.{SlabApi}
use easyfibers.Wheel.Tokens.{has, erased, length-erase, length-erase_lt}
use easyfibers.Wheel.Ticks.{SameSettings}
use easyfibers.Wheel.Linked.{view, IsWheel}
use easyfibers.Wheel.Cancel.Around.{idx-lt}
use easyfibers.Wheel.Poll
use easyfibers.Wheel.Poll.Polled.{Polled, idle, due, rounds, poll-Polled}
use easyfibers.Wheel.Spec
use easyfibers.Wheel.Spec.{Op, Timers, Clock, Steps}
use easyfibers.Wheel.Refinement.{Refines, Legal, call}
use easyfibers.Wheel.Refinement.Traces.{Trace, stopped, called, Trace-Refines}
use easyfibers.Poller.{drain}

-- How many tokens the first `n` slots hold.
abbrev pub total : ℕ → (ℕ → List ℕ) → ℕ
total zero chain = 0
total (suc n) chain = length (chain n) + total n chain

total-erased_le : (n : ℕ) (chain : ℕ → List ℕ) (t : ℕ) → total n (erased chain t) ≤ total n chain
total-erased_le zero chain t = omega arith
total-erased_le (suc n) chain t = omega (arith, length-erase t (chain n), total-erased_le n chain t)

-- A token that is held is lost by taking it out.
total-erased :
    (n : ℕ) (chain : ℕ → List ℕ) (t idx : ℕ)
    → idx < n
    → has t (chain idx) ≡ true
    → total n (erased chain t) < total n chain
total-erased zero chain t idx lt m = absurd (omega arith)
total-erased (suc n) chain t idx lt m = elim (Bool-cases (idx == n)) [
  | inl last ↦
      let k : idx ≡ n = ground arith in
      let m' : has t (chain n) ≡ true = ap (λ (i : ℕ). has t (chain i)) (sym k) ∙ m in
      omega (arith, length-erase_lt t (chain n) m', total-erased_le n chain t)
  | inr before ↦
      let lt' : idx < n = ground arith in
      omega (arith, length-erase t (chain n), total-erased n chain t idx lt' m)
]

length-le_append : (xs ys : List ℕ) → length ys ≤ length (xs ++ ys)
length-le_append [] ys = omega arith
length-le_append (x ∷ xs) ys = omega (arith, length-le_append xs ys)

rounds-le : (now cur cur' room : ℕ) → cur ≤ cur' → rounds now cur' room ≤ rounds now cur room
rounds-le now cur cur' room le =
    let fewer : suc now - cur' ≤ suc now - cur = omega arith in mul-le-mul_right (suc room) fewer

-- The calls of `poll` at a time that answered the ids, and one that answered nothing.
abbrev pub polls : ℕ → List ℕ → List (Op × Option ℕ)
polls now [] = (Spec.poll now, none) ∷ []
polls now (id ∷ ids) = (Spec.poll now, some id) ∷ polls now ids

module _ {Store : Type 0} ⦃api : SlabApi Store⦄ where
  rest-le :
      (w : Wheel Store) {chain : ℕ → List ℕ} {seen rest : List ℕ}
      → IsWheel w chain seen rest
      → length rest ≤ length (chain (ticks_to_wheel_idx w w.cur_wheel_tick))
  rest-le w {chain} {seen} {rest} h =
      subst (λ l. length rest ≤ length l) (sym h.split) (length-le_append seen rest)

  drain-none :
      (fuel limit : ℕ) (w w' : Wheel Store) (now : ℕ)
      → Poll.poll limit w now ≡ ok (none, w')
      → drain (suc fuel) limit w now ≡ ok ([], w')
  unfolding drain
  drain-none fuel limit w w' now e = rw e refl

  drain-some :
      (fuel limit : ℕ) (w w1 w' : Wheel Store) (now id : ℕ) (ids : List ℕ)
      → Poll.poll limit w now ≡ ok (some id, w1)
      → drain fuel limit w1 now ≡ ok (ids, w')
      → drain (suc fuel) limit w now ≡ ok (id ∷ ids, w')
  unfolding drain
  drain-some fuel limit w w1 w' now id ids e e' = rw (e, e') refl

  called_poll :
      {w w1 w' : Wheel Store} (limit now : ℕ) (answer : Option ℕ) {calls : List (Op × Option ℕ)}
      → w.start ≤ now
      → (now - w.start) / 1_000_000 < 2 ^ 64
      → Poll.poll limit w now ≡ ok (answer, w1)
      → Trace w1 calls w'
      → Trace w ((Spec.poll now, answer) ∷ calls) w'
  unfolding Legal call
  called_poll limit now answer from_start fits e trace = called limit (from_start, fits) e trace

  -- A wheel in order with what `drain` takes: the time is not before the start and fits, no slot
  -- holds more than `room` tokens, there is more fuel than tokens, and the rounds are enough.
  pub record Ready (fuel limit room now : ℕ) (w : Wheel Store) (chain : ℕ → List ℕ) : Type 0 where
    pub seen : List ℕ
    pub rest : List ℕ
    pub is_wheel : IsWheel w chain seen rest
    pub from_start : w.start ≤ now
    pub fits : (now - w.start) / 1_000_000 < 2 ^ 64
    pub small : (i : ℕ) → length (chain i) ≤ room
    pub enough : total (suc w.mask) chain < fuel
    pub rounds_enough :
        rounds ((now - w.start) / 1_000_000 / w.tick_ms) w.cur_wheel_tick room + room ≤ limit

  -- A timer that fired is a token less.
  Ready-fired :
      {fuel limit room now : ℕ} {w w1 : Wheel Store} {chain : ℕ → List ℕ} {seen rest : List ℕ}
      (t task when idx : ℕ)
      → Ready (suc fuel) limit room now w chain
      → view (api.get w.slab t) ≡ some (some (task, when, idx))
      → IsWheel w1 (erased chain t) seen rest
      → SameSettings w w1
      → w.cur_wheel_tick ≤ w1.cur_wheel_tick
      → Ready fuel limit room now w1 (erased chain t)
  Ready-fired {fuel} {limit} {room} {now} {w} {w1} {chain} {seen} {rest} t task when idx r at_t h
        same on =
      let (_, _, slot, held, _, _) = r.is_wheel.timers t task when idx at_t in
      let below : idx < suc w.mask = omega (arith, slot, idx-lt w r.is_wheel _, r.is_wheel.size) in
      record {
        seen = seen;
        rest = rest;
        is_wheel = h;
        from_start = rw same.start r.from_start;
        fits = rw same.start r.fits;
        small = λ i. omega (arith, length-erase t (chain i), r.small i);
        enough =
            rw same.mask
              (omega (arith, total-erased (suc w.mask) chain t idx below held, r.enough));
        rounds_enough =
            rw (same.start, same.tick_ms)
              (omega (
                arith,
                rounds-le ((now - w.start) / 1_000_000 / w.tick_ms) w.cur_wheel_tick
                    w1.cur_wheel_tick room on,
                r.rounds_enough,
              ));
      }

  -- `drain` returns, and is the calls of `poll` that its ids tell of.
  abbrev Drains : ℕ → ℕ → ℕ → Wheel Store → Type 0
  Drains fuel limit now w =
      (ids : List ℕ) × (w' : Wheel Store) × (drain fuel limit w now ≡ ok (ids, w'))
      × Trace w (polls now ids) w'

  Polled-Drains :
      {fuel limit room now : ℕ} {w w1 : Wheel Store} {chain : ℕ → List ℕ} {o : Option ℕ}
      → Ready (suc fuel) limit room now w chain
      → Poll.poll limit w now ≡ ok (o, w1)
      → Polled w chain ((now - w.start) / 1_000_000 / w.tick_ms) o w1
      → ((chain1 : ℕ → List ℕ) → Ready fuel limit room now w1 chain1 → Drains fuel limit now w1)
      → Drains (suc fuel) limit now w
  Polled-Drains {fuel} {limit} {room} {now} {w} {w1} r e (idle h over views none_due same) again = (
    [],
    w1,
    drain-none fuel limit w w1 now e,
    called_poll limit now none r.from_start r.fits e stopped,
  )
  Polled-Drains {fuel} {limit} {room} {now} {w} {w1} {chain} r e
        (due t task when idx tick at_t ticks early h1 views same on at) again =
      let (ids, w', e', trace) =
        again (erased chain t) (Ready-fired t task when idx r at_t h1 same on) in
      (
        task ∷ ids,
        w',
        drain-some fuel limit w w1 w' now task ids e e',
        called_poll limit now (some task) r.from_start r.fits e trace,
      )

  drain-Drains :
      (fuel limit room now : ℕ) (w : Wheel Store) (chain : ℕ → List ℕ)
      → Ready fuel limit room now w chain
      → Drains fuel limit now w
  drain-Drains zero limit room now w chain r = let enough = r.enough in absurd (omega arith)
  drain-Drains (suc fuel) limit room now w chain r =
      let h = r.is_wheel in
      let (o, w1, e, p) = poll-Polled w h now room limit r.from_start r.fits r.small (
        omega
          (arith, rest-le w h, r.small (ticks_to_wheel_idx w w.cur_wheel_tick), r.rounds_enough)) in
      Polled-Drains r e p (λ chain1 r1. drain-Drains fuel limit room now w1 chain1 r1)

  -- The loop of `poll` over the timers ends on a wheel in order, and never panics: given more fuel
  -- than the wheel has tokens, and enough rounds for each call. The ids are the tasks of timers that
  -- were due, one call after the other, as the wheel promises; the last call found that no timer is
  -- due any more.
  pub drain-Steps :
      (c : Clock) (s : Timers) (w : Wheel Store) (r : Refines c w s) (fuel limit now : ℕ)
      → w.start ≤ now
      → (now - w.start) / 1_000_000 < 2 ^ 64
      → total (suc w.mask) r.chain < fuel
      → rounds ((now - w.start) / 1_000_000 / w.tick_ms) w.cur_wheel_tick r.room + r.room ≤ limit
      → (ids : List ℕ) × (w' : Wheel Store) × (s' : Timers) × (drain fuel limit w now
          ≡ ok (ids, w'))
        × Steps c s (polls now ids) s'
        × Refines c w' s'
  drain-Steps c s w r fuel limit now from_start fits enough rounds_enough =
      let (ids, w', e, trace) = drain-Drains fuel limit r.room now w r.chain (record {
        seen = r.seen;
        rest = r.rest;
        is_wheel = r.is_wheel;
        from_start = from_start;
        fits = fits;
        small = r.fits;
        enough = enough;
        rounds_enough = rounds_enough;
      }) in
      let (s', steps, r') = Trace-Refines c s r trace in (ids, w', s', e, steps, r')
