-- ===== src/Wheel/Insert/Inserted.antt =====
-- src/wheel.rs: `set_timeout` keeps the invariant.
use easyfibers.Prelude.{
  ℕ, ◌*◌, ◌/◌, ◌-◌, ◌^◌, ◌≤◌, ◌<◌, ◌≡◌, ◌≢◌, refl, sym, ap, subst, ◌∙◌, Bool, true, false, List,
  ◌∷◌, ◌++◌, none, some, set, get_elem?, get_elem?_in, arith, ◌==◌, ==_iff, if◌then◌else◌,
  Bool-cases, inl, inr, ne→==_false,
}
use easyfibers.Prelude.Outcome.{ok}
use easyfibers.Wheel.{Slot, Wheel, deferred, time_to_ticks, ticks_to_wheel_idx, actual_tick}
use easyfibers.Wheel.Slab.{empty, Timeout, reserved, timeout, SlabApi}
use easyfibers.Wheel.Chain.{Seg, Seg-frame}
use easyfibers.Wheel.Tokens.{has}
use easyfibers.Wheel.Linked.{coming_tick, timer_fields, view, view-none, IsChain, IsWheel}
use easyfibers.Wheel.Ticks.{time_to_ticks_lem, time_to_ticks-actual_tick}
use easyfibers.Wheel.Cancel.Around.{idx-lt, chain-timer}
use easyfibers.Wheel.Cancel.Cancelled.{not_chained}
use easyfibers.Wheel.Cancel.Relink.{SlotSet, SlotSet-set, Relinked}
use easyfibers.Wheel.Insert.{schedule, set_timeout}
use easyfibers.Wheel.Insert.Heads.{
  pushed, push_if, headed, entry_for, link_head, link_head-Seg, schedule_lem,
}

module _ {Store : Type 0} ⦃api : SlabApi Store⦄ (w : Wheel Store) {chain : ℕ → List ℕ}
    {seen rest : List ℕ} (h : IsWheel w chain seen rest) (t tick task : ℕ) where
  -- The slot of the tick, and whether it is the current one.
  abbrev idx : ℕ
  idx = ticks_to_wheel_idx w tick

  abbrev here : Bool
  here = ticks_to_wheel_idx w w.cur_wheel_tick == idx

  -- What `set_timeout` leaves: the wheel in order, with the timer.
  pub record Inserted (slots : List Slot) (slab : Store) : Type 0 where
    pub is_wheel :
        IsWheel
          (record w { wheel = slots; slab = slab })
          (pushed chain idx t)
          (push_if here t seen)
          rest
    pub views :
        (a : ℕ)
        → view (api.get slab a) ≡ (
            if a == t then some (some (task, actual_tick w tick, idx)) else view (api.get w.slab a))

  module _ (vacant : api.get w.slab t ≡ some reserved) (ahead : w.cur_wheel_tick < tick)
      (clock : time_to_ticks w (actual_tick w tick) ≡ ok tick) where
    idle : (v : Timeout) → api.get w.slab t ≢ some (timeout v)
    idle v k = cc

    module _ (s : Slot) (at_idx : get_elem? w.wheel idx ≡ some s) where
      entry : Timeout
      entry = entry_for w tick task s.head

      stored : Store
      unfolding entry
      stored = api.put w.slab t (timeout entry)

      stored_get :
          (a : ℕ) → api.get stored a ≡ (if a == t then some (timeout entry) else api.get w.slab a)
      unfolding stored
      stored_get a = api.get-put w.slab t a reserved (timeout entry) vacant

      stored_ne : (a : ℕ) → a ≢ t → api.get stored a ≡ api.get w.slab a
      stored_ne a ne = stored_get a ∙ rw (ne→==_false a t ne) refl

      -- No list of the wheel has the token.
      unchained : (i : ℕ) (s' : Slot) → get_elem? w.wheel i ≡ some s' → has t (chain i) ≡ false
      unchained i s' e = not_chained w h t idle i s' e

      chained_ne :
          (i a : ℕ) (s' : Slot) → get_elem? w.wheel i ≡ some s' → has a (chain i) ≡ true → a ≢ t
      chained_ne i a s' e m k = cc (ap (λ (x : ℕ). has x (chain i)) k, unchained i s' e)

      record Linked (slab : Store) : Type 0 where
        last' : ℕ
        done : link_head stored s.head t ≡ ok slab
        seg : Seg (api.get slab) idx last' empty empty t (t ∷ chain idx)
        relinked : Relinked (chain idx) stored slab

      at_head : (slab : Store) × Linked slab
      unfolding entry
      at_head =
          let (last, seg) = h.linked idx s at_idx in
          let at_t : api.get stored t ≡ some (timeout entry) =
            stored_get t ∙ rw ((==_iff t t).1 refl) refl in
          let ne : empty ≢ t = λ k. cc (ap (λ (x : ℕ). api.get w.slab x) k, h.unused) in
          let (slab, last', e, seg', rel) =
            link_head-Seg stored idx last s.head t (chain idx) entry (stored_ne empty ne ∙ h.unused)
              (h.nodup idx) (unchained idx s at_idx) at_t refl refl refl
              (Seg-frame seg λ a m. stored_ne a (chained_ne idx a s at_idx m)) in
          (slab, record { last' = last'; done = e; seg = seg'; relinked = rel })

      module _ (slab : Store) (u : Linked slab) where
        inserted_view :
            (a : ℕ)
            → view (api.get slab a) ≡ (
                if a == t
                then some (some (task, actual_tick w tick, idx))
                else view (api.get w.slab a))
        unfolding entry
        inserted_view a = u.relinked.same_view a ∙ ap view (stored_get a) ∙ ground arith

        slots' : List Slot
        slots' = set w.wheel idx (headed s t (actual_tick w tick))

        slot_set : SlotSet w.wheel slots' idx (headed s t (actual_tick w tick))
        unfolding slots'
        slot_set = SlotSet-set w.wheel idx (headed s t (actual_tick w tick)) (idx-lt w h tick)

        -- Another slot keeps its list.
        linked-other :
            (i : ℕ) (s' : Slot)
            → i ≢ idx
            → get_elem? w.wheel i ≡ some s'
            → IsChain (api.get slab) i s'.head (chain i)
        linked-other i s' ne e =
            let (last, seg) = h.linked i s' e in
            (
              last,
              Seg-frame seg
                  λ a m. u.relinked.spared a (elsewhere a m) ∙ stored_ne a (chained_ne i a s' e m),
            )
          where
            elsewhere : (a : ℕ) → has a (chain i) ≡ true → has a (chain idx) ≡ false
            elsewhere a m = elim (Bool-cases (has a (chain idx))) [
              | inl both ↦
                  let (v1, e1, i1) = chain-timer w h i a s' e m in
                  let (v2, e2, i2) = chain-timer w h idx a s at_idx both in
                  let same : v1 ≡ v2 = cc in
                  absurd (ne (sym i1 ∙ ap (λ (x : Timeout). x.wheel_idx) same ∙ i2))
              | inr out ↦ out
            ]

        split_pushed :
            (b : Bool)
            → (ticks_to_wheel_idx w w.cur_wheel_tick == idx) ≡ b
            → (if b
                then t ∷ chain (ticks_to_wheel_idx w w.cur_wheel_tick)
                else chain (ticks_to_wheel_idx w w.cur_wheel_tick))
              ≡ push_if b t seen ++ rest
        split_pushed true e = ap (λ l. t ∷ l) h.split
        split_pushed false e = h.split

        -- The slot a token is in, once the new one is pushed.
        has-pushed : (a i : ℕ) → has a (chain i) ≡ true → has a (pushed chain idx t i) ≡ true
        has-pushed a i m = ground arith

        inserted_timers :
            (a task' when i : ℕ)
            → view (api.get slab a) ≡ some (some (task', when, i))
            → (tick' : ℕ) × (time_to_ticks w when ≡ ok tick')
              × (i ≡ ticks_to_wheel_idx w tick')
              × (has a (pushed chain idx t i) ≡ true)
              × (w.cur_wheel_tick ≤ tick')
              × (tick' ≡ w.cur_wheel_tick → has a rest ≡ true)
        inserted_timers a task' when i e = elim (Bool-cases (a == t)) [
          | inl same ↦
              let same' = (==_iff a t).0 same in
              let fresh : some (some (task, actual_tick w tick, idx))
                  ≡ some (some (task', when, i)) =
                sym (inserted_view a ∙ rw same refl) ∙ e in
              let (at_when, at_slot) = timer_fields fresh in
              let own : has a (pushed chain idx t idx) ≡ true =
                rw ((==_iff idx idx).1 refl, same) refl in
              (
                tick,
                subst (λ (x : ℕ). time_to_ticks w x ≡ ok tick) at_when clock,
                sym at_slot,
                subst (λ (j : ℕ). has a (pushed chain idx t j) ≡ true) at_slot own,
                omega arith,
                λ k. absurd (omega arith),
              )
          | inr other ↦
              let old : view (api.get w.slab a) ≡ some (some (task', when, i)) =
                sym (inserted_view a ∙ rw other refl) ∙ e in
              let (tick', ticks, at_slot, m, le, last_visit) = h.timers a task' when i old in
              (tick', ticks, at_slot, has-pushed a i m, le, last_visit)
        ]

        insertion : Inserted slots' slab
        unfolding time_to_ticks ticks_to_wheel_idx
        insertion = record {
          is_wheel = record {
            size = slot_set.size ∙ h.size;
            ticking = h.ticking;
            unused = view-none (api.get slab empty) (inserted_view empty ∙ not_at_empty);
            linked = λ i s' e. elim (Bool-cases (i == idx)) [
              | inl same ↦
                  let k = (==_iff i idx).0 same in
                  let q : s' ≡ headed s t (actual_tick w tick) =
                    cc (ap (get_elem? slots') k, slot_set.here) in
                  (
                    u.last',
                    rw (same, q)
                        (subst (λ (j : ℕ). Seg (api.get slab) j u.last' empty empty t (t ∷ chain j))
                          (sym k) u.seg),
                  )
              | inr other ↦
                  let ne : i ≢ idx = ground arith in
                  rw other (linked-other i s' ne (sym (slot_set.others i ne) ∙ e))
            ];
            nodup = λ i. elim (Bool-cases (i == idx)) [
              | inl same ↦
                  let k = (==_iff i idx).0 same in
                  rw same (
                    subst (λ (j : ℕ). has t (chain j) ≡ false) (sym k) (unchained idx s at_idx),
                    h.nodup i,
                  )
              | inr other ↦ rw other (h.nodup i)
            ];
            timers = inserted_timers;
            split = split_pushed here refl;
            cursor = h.cursor;
          };
          views = inserted_view;
        }
          where
            not_at_empty :
                (if empty == t
                  then some (some (task, actual_tick w tick, idx))
                  else view (api.get w.slab empty))
                ≡ none
            not_at_empty =
                let ne : empty ≢ t = λ k. cc (ap (λ (x : ℕ). api.get w.slab x) k, h.unused) in
                rw (ne→==_false empty t ne, h.unused) refl

      headed_slot :
          (slots : List Slot) × (slab : Store) × (schedule w t tick task
            ≡ ok (record w { wheel = slots; slab = slab }))
          × Inserted slots slab
      unfolding stored slots' entry
      headed_slot =
          let (slab, u) = at_head in
          (
            slots' slab u,
            slab,
            schedule_lem w t tick task s reserved slab at_idx (idx-lt w h tick) vacant u.done,
            insertion slab u,
          )

    pub schedule-Inserted :
        (slots : List Slot) × (slab : Store) × (schedule w t tick task
          ≡ ok (record w { wheel = slots; slab = slab }))
        × Inserted slots slab
    schedule-Inserted =
        let (s, at_idx) = get_elem?_in w.wheel idx (idx-lt w h tick) in headed_slot s at_idx

-- `set_timeout` on a wheel that is in order, for a token that is reserved: it never panics, the
-- wheel stays in order, the token has the timer, at the instant of the first tick that is ahead of
-- the wheel and not before the tick of the time, and it is in the slot of that tick; every other
-- token has the timer or the reservation that it had. The time is not before the start, its
-- milliseconds fit 64 bits, and the tick fits 32 bits and its milliseconds 64.
pub set_timeout-Inserted :
    {Store : Type 0} ⦃api : SlabApi Store⦄ (w : Wheel Store) {chain : ℕ → List ℕ}
    {seen rest : List ℕ} (h : IsWheel w chain seen rest) (t at_time task : ℕ)
    → api.get w.slab t ≡ some reserved
    → w.start ≤ at_time
    → (at_time - w.start) / 1_000_000 < 2 ^ 64
    → coming_tick ((at_time - w.start) / 1_000_000 / w.tick_ms) w.cur_wheel_tick < 2 ^ 32
    → coming_tick ((at_time - w.start) / 1_000_000 / w.tick_ms) w.cur_wheel_tick * w.tick_ms
      < 2 ^ 64
    → (slots : List Slot) × (slab : Store) × (set_timeout w t at_time task
        ≡ ok (record w { wheel = slots; slab = slab }))
      × Inserted w h t
          (coming_tick ((at_time - w.start) / 1_000_000 / w.tick_ms) w.cur_wheel_tick)
          task
          slots
          slab
unfolding set_timeout
set_timeout-Inserted w h t at_time task vacant from_start fits small fits' =
    let tick0 = (at_time - w.start) / 1_000_000 / w.tick_ms in
    let tick = coming_tick tick0 w.cur_wheel_tick in
    let ahead : w.cur_wheel_tick < tick = ground arith in
    let same : deferred tick0 w.cur_wheel_tick ≡ tick = ground arith in
    let clock = time_to_ticks-actual_tick w tick small fits' h.ticking in
    let (slots, slab, e, i) = schedule-Inserted w h t tick task vacant ahead clock in
    (slots, slab, rw (time_to_ticks_lem w at_time from_start fits h.ticking, same) e, i)
