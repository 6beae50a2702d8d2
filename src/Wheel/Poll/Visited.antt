-- ===== src/Wheel/Poll/Visited.antt =====
-- src/wheel.rs: `poll` visits an entry of the slot.
use easyfibers.Prelude.{
  ℕ, ◌≤◌, ◌<◌, ◌≡◌, refl, sym, ap, subst, ◌∙◌, Bool, true, false, List, [], ◌∷◌, ◌++◌, Option, none,
  some, length, get_elem?, get_elem?_in, arith, ◌==◌, ==_iff, if◌then◌else◌, Bool-cases, inl, inr,
  leb,
}
use easyfibers.Prelude.Outcome.{ok_of, ok, ◌>>=◌}
use easyfibers.Prelude.Slice.{index}
use easyfibers.Wheel.{
  Slot, Wheel, time_to_ticks, ticks_to_wheel_idx, clear_timeout, set_slot, is_earliest,
}
use easyfibers.Wheel.Slab.{Timeout, timeout, SlabApi}
use easyfibers.Wheel.Tokens.{has, erase, erased}
use easyfibers.Wheel.Linked.{view, timer_fields, front_of, IsWheel}
use easyfibers.Wheel.Cancel.{timeout_at, remove_slab}
use easyfibers.Wheel.Cancel.Around.{idx-lt, after_cursor}
use easyfibers.Wheel.Cancel.Removal.{remove_slab-Removed}
use easyfibers.Wheel.Ticks.{SameSettings}
use easyfibers.Wheel.Poll.{visit, task_of}
use easyfibers.Wheel.Poll.Timeouts.{IsWheel-slots, clear_timeout_lem, set_timeout_lem}

if_same : (b : Bool) (c : ℕ) → (if b then c else c) ≡ c
if_same true c = refl
if_same false c = refl

module _ {Store : Type 0} ⦃api : SlabApi Store⦄ where
  timeout_at_lem :
      (slab : Store) (t : ℕ) (v : Timeout)
      → api.get slab t ≡ some (timeout v)
      → timeout_at slab t ≡ ok v
  unfolding timeout_at
  timeout_at_lem slab t v e = rw (e, timeout_at) refl

  -- The wheel moved on behind the entry, which is not due.
  passed-IsWheel :
      (w : Wheel Store) {chain : ℕ → List ℕ} {seen ts : List ℕ} (t : ℕ)
      → IsWheel w chain seen (t ∷ ts)
      → (v : Timeout) → api.get w.slab t ≡ some (timeout v)
      → (due : ℕ) → time_to_ticks w v.when ≡ ok due
      → w.cur_wheel_tick < due
      → IsWheel (record w { cur_slab_idx = v.next }) chain (seen ++ (t ∷ [])) ts
  unfolding time_to_ticks ticks_to_wheel_idx
  passed-IsWheel w {chain} {seen} {ts} t h v at_t due clock later = record {
    size = h.size;
    ticking = h.ticking;
    unused = h.unused;
    linked = h.linked;
    nodup = h.nodup;
    timers = λ a task when idx e.
        let (tick, ticks, at_slot, m, le, last_visit) = h.timers a task when idx e in
        (tick, ticks, at_slot, m, le, λ k. other a task when idx e tick ticks k (last_visit k));
    split = h.split ∙ shift seen;
    cursor = after_cursor w h t v ts refl at_t;
  }
    where
      shift : (xs : List ℕ) → xs ++ (t ∷ ts) ≡ (xs ++ (t ∷ [])) ++ ts
      shift [] = refl
      shift (x ∷ xs) = ap (λ l. x ∷ l) (shift xs)

      other :
          (a task when idx : ℕ)
          → view (api.get w.slab a) ≡ some (some (task, when, idx))
          → (tick : ℕ) → time_to_ticks w when ≡ ok tick
          → tick ≡ w.cur_wheel_tick
          → has a (t ∷ ts) ≡ true
          → has a ts ≡ true
      other a task when idx e tick ticks k m = elim (Bool-cases (a == t)) [
        | inl same ↦
            let q = (==_iff a t).0 same in
            let at_a : view (api.get w.slab a) ≡ some (some (v.task, v.when, v.wheel_idx)) =
              ap (λ (x : ℕ). view (api.get w.slab x)) q ∙ ap view at_t in
            let (when_a, _) = timer_fields (sym at_a ∙ e) in
            let tick_a : due ≡ tick = ok_of (sym clock ∙ ap (time_to_ticks w) when_a ∙ ticks) in
            absurd (omega arith)
        | inr else_where ↦ rw else_where at m
      ]

  visit_lem :
      (w w2 : Wheel Store) (at_time : ℕ) (s s2 : Slot) (v : Timeout) (due now : ℕ) (idx : ℕ)
      → idx ≡ ticks_to_wheel_idx w w.cur_wheel_tick
      → get_elem? w.wheel idx ≡ some s
      → (if w.cur_slab_idx == s.head then clear_timeout w idx else ok w) ≡ ok w2
      → timeout_at w2.slab w.cur_slab_idx ≡ ok v
      → time_to_ticks (record w2 { cur_slab_idx = v.next }) v.when ≡ ok due
      → time_to_ticks (record w2 { cur_slab_idx = v.next }) at_time ≡ ok now
      → get_elem? w2.wheel idx ≡ some s2
      → visit w at_time ≡ (
          if leb due now
          then (remove_slab (record w2 { cur_slab_idx = v.next }) w.cur_slab_idx >>= λ (entry, w3).
              ok (some (task_of entry), w3))
          else (if is_earliest v.when s2.next_timeout
              then set_slot
                  (record w2 { cur_slab_idx = v.next })
                  idx
                  (record s2 { next_timeout = some v.when })
              else ok (record w2 { cur_slab_idx = v.next }))
            >>= λ w3. ok (none, w3))
  unfolding visit index
  visit_lem w w2 at_time s s2 v due now idx at_cur e1 e2 e3 e4 e5 e6 =
      rw (sym at_cur, e1, e2, e3, e4, e5, e6) refl

  -- What a visit of the entry `t` of the task `task` comes to: the timer is due, is taken out of the
  -- wheel and its task is answered, or it is passed over.
  pub data Visited (w : Wheel Store) (chain : ℕ → List ℕ) (t : ℕ) (ts : List ℕ) (v : Timeout)
      (now due : ℕ) : Option (Option ℕ) → Wheel Store → Type 0 where
    fired :
        {w' : Wheel Store} {seen' rest' : List ℕ}
        → due ≤ now
        → IsWheel w' (erased chain t) seen' rest'
        → ((a : ℕ) → view (api.get w'.slab a) ≡ (if a == t then none else view (api.get w.slab a)))
        → SameSettings w w'
        → w'.cur_wheel_tick ≡ w.cur_wheel_tick
        → Visited w chain t ts v now due (some (some v.task)) w'
    passed :
        {slots : List Slot} {seen' : List ℕ}
        → now < due
        → IsWheel (record w { wheel = slots; cur_slab_idx = front_of ts }) chain seen' ts
        → Visited w chain t ts v now due none
            (record w { wheel = slots; cur_slab_idx = front_of ts })

  module _ (w : Wheel Store) {chain : ℕ → List ℕ} {seen ts : List ℕ} (t : ℕ)
      (h : IsWheel w chain seen (t ∷ ts)) (v : Timeout) (at_t : api.get w.slab t ≡ some (timeout v))
      (at_time due now : ℕ) (clock : time_to_ticks w v.when ≡ ok due)
      (clock' : time_to_ticks w at_time ≡ ok now) (current : w.cur_wheel_tick ≤ now) where
    abbrev cur : ℕ
    cur = ticks_to_wheel_idx w w.cur_wheel_tick

    -- Once the timeout of the slot may have been cleared.
    module _ (slots : List Slot) (s s2 : Slot) (at_cur : get_elem? w.wheel cur ≡ some s)
        (cleared : (if w.cur_slab_idx == s.head then clear_timeout w cur else ok w)
          ≡ ok (record w { wheel = slots }))
        (at_cur' : get_elem? slots cur ≡ some s2) (lt : cur < length slots)
        (h2 : IsWheel (record w { wheel = slots }) chain seen (t ∷ ts)) where
      abbrev w2 : Wheel Store
      w2 = record w { wheel = slots }

      visited_at : timeout_at w2.slab w.cur_slab_idx ≡ ok v
      visited_at = ap (timeout_at w.slab) h.cursor ∙ timeout_at_lem w.slab t v at_t

      fired_lem :
          (w' : Wheel Store)
          → leb due now ≡ true
          → remove_slab (record w2 { cur_slab_idx = v.next }) t ≡ ok (some (timeout v), w')
          → visit w at_time ≡ ok (some (some v.task), w')
      unfolding time_to_ticks
      fired_lem w' early done =
          visit_lem w w2 at_time s s2 v due now cur refl at_cur cleared visited_at clock clock'
            at_cur'
          ∙ rw (early, h.cursor, done) refl

      passed_lem :
          (w' : Wheel Store)
          → leb due now ≡ false
          → (if is_earliest v.when s2.next_timeout
              then set_slot
                  (record w2 { cur_slab_idx = v.next })
                  cur
                  (record s2 { next_timeout = some v.when })
              else ok (record w2 { cur_slab_idx = v.next }))
            ≡ ok w'
          → visit w at_time ≡ ok (none, w')
      unfolding time_to_ticks
      passed_lem w' late done =
          visit_lem w w2 at_time s s2 v due now cur refl at_cur cleared visited_at clock clock'
            at_cur'
          ∙ rw (late, done) refl

      visited :
          (o : Option (Option ℕ)) × (w' : Wheel Store) × (visit w at_time ≡ ok (o, w'))
          × Visited w chain t ts v now due o w'
      unfolding time_to_ticks
      visited = elim (Bool-cases (leb due now)) [
        | inl early ↦
            let (slots', slab', done, r) = remove_slab-Removed w2 h2 t v at_t in
            let at_cursor : (if w.cur_slab_idx == t then v.next else w.cur_slab_idx) ≡ v.next =
              rw ((==_iff w.cur_slab_idx t).1 h.cursor) refl in
            (
              some (some v.task),
              _,
              fired_lem _ early (done v.next ∙ rw (if_same (v.next == t) v.next) refl),
              fired (ground arith)
                  (subst
                    (λ (c : ℕ).
                      IsWheel (record w { wheel = slots'; slab = slab'; cur_slab_idx = c })
                        (erased chain t) (erase t seen) (erase t (t ∷ ts)))
                    at_cursor r.is_wheel)
                  r.views (record { start = refl; tick_ms = refl; mask = refl }) refl,
            )
        | inr late ↦
            let w3 = record w2 { cur_slab_idx = v.next } in
            let h3 = passed-IsWheel w2 t h2 v at_t due clock (ground arith) in
            let (slots', done, same) =
              set_timeout_lem w3 (is_earliest v.when s2.next_timeout) cur s2 (some v.when) at_cur'
                lt in
            let next = after_cursor w h t v ts refl at_t in
            let w' = λ (c : ℕ). record w { wheel = slots'; cur_slab_idx = c } in
            (
              none,
              w' (front_of ts),
              passed_lem (w' v.next) late done ∙ ap (λ (c : ℕ). ok (none, w' c)) next,
              passed (ground arith) (
                  subst (λ (c : ℕ). IsWheel (w' c) chain (seen ++ (t ∷ [])) ts) next
                    (IsWheel-slots w3 slots' h3 same)),
            )
      ]

    -- A visit never panics on a wheel that is in order.
    pub visit-Visited :
        (o : Option (Option ℕ)) × (w' : Wheel Store) × (visit w at_time ≡ ok (o, w'))
        × Visited w chain t ts v now due o w'
    unfolding ticks_to_wheel_idx
    visit-Visited =
        let lt = idx-lt w h w.cur_wheel_tick in
        let (s, at_cur) = get_elem?_in w.wheel cur lt in
        let (slots, cleared, same) =
          clear_timeout_lem w (w.cur_slab_idx == s.head) cur s at_cur lt in
        let lt' = subst (λ (n : ℕ). cur < n) (sym same.size) lt in
        let (s2, at_cur') = get_elem?_in slots cur lt' in
        visited slots s s2 at_cur cleared at_cur' lt' (IsWheel-slots w slots h same)
