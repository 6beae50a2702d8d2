-- ===== src/Wheel/Cancel/Removal.antt =====
-- src/wheel.rs: `remove_slab` and `cancel` keep the invariant.
use easyfibers.Prelude.{
  ℕ, ◌≡◌, ◌≢◌, refl, sym, ap, subst, ◌∙◌, Bool, true, false, List, ◌∷◌, ◌++◌, none, some, get_elem?,
  arith, ◌==◌, ==_iff, if◌then◌else◌, Bool-cases, inl, inr, ne→==_false,
}
use easyfibers.Prelude.Outcome.{ok}
use easyfibers.Wheel.{Slot, Wheel, time_to_ticks, ticks_to_wheel_idx}
use easyfibers.Wheel.Slab.{empty, Timeout, timeout, SlabApi}
use easyfibers.Wheel.Chain.{Seg, Seg-frame, Seg-join}
use easyfibers.Wheel.Tokens.{
  has, IsNodup, erase, erased, has-append, Parts, IsNodup-Parts, erase-append, has-erase_ne,
  erase-absent, erase-parts, IsNodup-erase,
}
use easyfibers.Wheel.Linked.{view, view-none, IsChain, IsWheel}
use easyfibers.Wheel.Cancel.{remove_slab, unlink}
use easyfibers.Wheel.Cancel.Around.{Around, around, chain-timer, cursor_after, cursor-erase}
use easyfibers.Wheel.Cancel.Relink.{SlotSet, unlink_prev_lem, unlink_next_lem}

if_cursor :
    {Store : Type 0} (b : Bool) (c : ℕ) (w : Wheel Store)
    → (if b then record w { cur_slab_idx = c } else w)
      ≡ record w { cur_slab_idx = if b then c else w.cur_slab_idx }
if_cursor true c w = refl
if_cursor false c w = refl

module _ {Store : Type 0} ⦃api : SlabApi Store⦄ (w : Wheel Store) {chain : ℕ → List ℕ}
    {seen rest : List ℕ} (h : IsWheel w chain seen rest) where
  -- What `remove_slab` leaves of the wheel, once the timer `t` is taken out.
  pub record Removed (t : ℕ) (slots : List Slot) (slab : Store) (cursor : ℕ) : Type 0 where
    pub is_wheel :
        IsWheel
          (record w { wheel = slots; slab = slab; cur_slab_idx = cursor })
          (erased chain t)
          (erase t seen)
          (erase t rest)
    pub views : (a : ℕ) → view (api.get slab a) ≡ (if a == t then none else view (api.get w.slab a))

  module _ (t : ℕ) (v : Timeout) (at_t : api.get w.slab t ≡ some (timeout v))
      (r : Around w h t v) where
    parts : Parts t r.xs r.ys
    parts = IsNodup-Parts t r.xs r.ys (subst IsNodup r.whole (h.nodup v.wheel_idx))

    removed : Store
    removed = api.remove w.slab t

    in_chain-front : (a : ℕ) → has a r.xs ≡ true → has a (chain v.wheel_idx) ≡ true
    in_chain-front a m = rw r.whole (has-append a r.xs (t ∷ r.ys) ∙ rw m refl)

    in_chain-back : (a : ℕ) → has a r.ys ≡ true → has a (chain v.wheel_idx) ≡ true
    in_chain-back a m = rw r.whole (has-append a r.xs (t ∷ r.ys) ∙ ground arith)

    -- Removing the entry spares a token that is not its own.
    removed_ne : (a : ℕ) → a ≢ t → api.get removed a ≡ api.get w.slab a
    unfolding removed
    removed_ne a ne = api.get-remove w.slab t a ∙ rw (ne→==_false a t ne) refl

    in_front-ne : (a : ℕ) → has a r.xs ≡ true → a ≢ t
    in_front-ne a m k = cc (ap (λ (x : ℕ). has x r.xs) k, parts.not_before)

    in_back-ne : (a : ℕ) → has a r.ys ≡ true → a ≢ t
    in_back-ne a m k = cc (ap (λ (x : ℕ). has x r.ys) k, parts.not_after)

    -- The links of the slot after both halves of `unlink`, and the frame for all other tokens.
    record Unlinked (slots : List Slot) (slab : Store) : Type 0 where
      s' : Slot
      last' : ℕ
      done :
          (c : ℕ)
          → unlink (record w { slab = removed; cur_slab_idx = c }) t v
            ≡ ok (record w {
              wheel = slots;
              slab = slab;
              cur_slab_idx = if c == t then v.next else c;
            })
      slot_set : SlotSet w.wheel slots v.wheel_idx s'
      seg : Seg (api.get slab) v.wheel_idx last' empty empty s'.head (r.xs ++ r.ys)
      spared :
          (a : ℕ) → has a r.xs ≡ false → has a r.ys ≡ false → api.get slab a ≡ api.get removed a
      same_view : (a : ℕ) → view (api.get slab a) ≡ view (api.get removed a)

    gone : api.get removed empty ≡ none
    unfolding removed
    gone = api.get-remove w.slab t empty ∙ ground (arith, h.unused)

    unlinked : (slots : List Slot) × (slab : Store) × Unlinked slots slab
    unfolding unlink
    unlinked =
        let front1 = Seg-frame r.front λ a m. removed_ne a (in_front-ne a m) in
        let back1 = Seg-frame r.back λ a m. removed_ne a (in_back-ne a m) in
        let (slots, slab1, s', e1, set1, rel1, front2) =
          unlink_prev_lem (record w { slab = removed }) v t r.s r.xs r.at_idx gone parts.front
            front1 in
        let back2 = Seg-frame back1 λ a m. rel1.spared a (front_absent a m) in
        let gone2 = view-none (api.get slab1 empty) (rel1.same_view empty ∙ ap view gone) in
        let (slab2, last', e2, rel2, back3) =
          unlink_next_lem (record w { wheel = slots; slab = slab1 }) v t r.last r.ys gone2
            parts.back back2 in
        let front3 = Seg-frame front2 λ a m. rel2.spared a (parts.apart a m) in
        (
          slots,
          slab2,
          record {
            s' = s';
            last' = last';
            done = λ c.
                rw (e1 c, e2 c)
                  (ap ok (
                    if_cursor (c == t) v.next
                      (record w { wheel = slots; slab = slab2; cur_slab_idx = c })));
            slot_set = set1;
            seg = Seg-join front3 back3;
            spared = λ a x y. rel2.spared a y ∙ rel1.spared a x;
            same_view = λ a. rel2.same_view a ∙ rel1.same_view a;
          },
        )
      where
        front_absent : (a : ℕ) → has a r.ys ≡ true → has a r.xs ≡ false
        front_absent a m = elim (Bool-cases (has a r.xs)) [
          | inl x ↦ cc (parts.apart a x)
          | inr x ↦ x
        ]

    module _ {slots : List Slot} {slab : Store} (u : Unlinked slots slab) where
      removed_view :
          (a : ℕ) → view (api.get slab a) ≡ (if a == t then none else view (api.get w.slab a))
      unfolding removed
      removed_view a = u.same_view a ∙ ap view (api.get-remove w.slab t a) ∙ ground arith

      -- The list of another slot holds neither the timer nor its neighbours.
      other_slot :
          (i a : ℕ) (s : Slot)
          → get_elem? w.wheel i ≡ some s
          → i ≢ v.wheel_idx
          → has a (chain i) ≡ true
          → (has a (chain v.wheel_idx) ≡ false) × (a ≢ t)
      other_slot i a s e ne m =
          let (v1, e1, i1) = chain-timer w h i a s e m in
          let absent : (b : Bool) → has a (chain v.wheel_idx) ≡ b → b ≡ false = λ b q.
            elim (Bool-cases b) [
              | inl yes' ↦
                  let (v2, e2, i2) = chain-timer w h v.wheel_idx a r.s r.at_idx (q ∙ yes') in
                  let same : v1 ≡ v2 = cc in
                  absurd (ne (sym i1 ∙ ap (λ (x : Timeout). x.wheel_idx) same ∙ i2))
              | inr no' ↦ no'
            ] in
          (
            absent (has a (chain v.wheel_idx)) refl,
            λ k.
                let same : v1 ≡ v = cc (ap (λ (x : ℕ). api.get w.slab x) k) in
                ne (sym i1 ∙ ap (λ (x : Timeout). x.wheel_idx) same),
          )

      linked-other :
          (i : ℕ) (s : Slot)
          → i ≢ v.wheel_idx
          → get_elem? w.wheel i ≡ some s
          → IsChain (api.get slab) i s.head (erased chain t i)
      linked-other i s ne e =
          let (last, seg) = h.linked i s e in
          let absent : has t (chain i) ≡ false = elim (Bool-cases (has t (chain i))) [
            | inl m ↦ absurd ((other_slot i t s e ne m).1 refl)
            | inr m ↦ m
          ] in
          let same = λ (a : ℕ) (m : has a (chain i) ≡ true).
            let (out, ne_t) = other_slot i a s e ne m in
            let k = sym (ap (has a) r.whole) ∙ out in
            let f = has-append a r.xs (t ∷ r.ys) in
            u.spared a (ground arith) (ground arith) ∙ removed_ne a ne_t in
          (
            last,
            subst (Seg (api.get slab) i last empty empty s.head)
                (sym (erase-absent t (chain i) absent)) (Seg-frame seg same),
          )

      linked-own : IsChain (api.get slab) v.wheel_idx u.s'.head (erased chain t v.wheel_idx)
      linked-own = (
        u.last',
        subst (Seg (api.get slab) v.wheel_idx u.last' empty empty u.s'.head)
            (sym (ap (erase t) r.whole ∙ erase-append t r.xs r.ys parts.not_before)) u.seg,
      )

      removal : Removed t slots slab ((cursor_after w h t v))
      unfolding time_to_ticks ticks_to_wheel_idx
      removal = record {
        is_wheel = record {
          size = u.slot_set.size ∙ h.size;
          ticking = h.ticking;
          unused = view-none (api.get slab empty) (removed_view empty ∙ ground (arith, h.unused));
          linked = λ i s e. elim (Bool-cases (i == v.wheel_idx)) [
            | inl same ↦
                let k = (==_iff i v.wheel_idx).0 same in
                let q : s ≡ u.s' = cc (ap (get_elem? slots) k, u.slot_set.here) in
                subst (λ (j : ℕ). IsChain (api.get slab) j s.head (erased chain t j)) (sym k)
                  (subst
                    (λ (x : Slot).
                      IsChain (api.get slab) v.wheel_idx x.head (erased chain t v.wheel_idx))
                    (sym q) linked-own)
            | inr other ↦
                let ne : i ≢ v.wheel_idx = ground arith in
                linked-other i s ne (sym (u.slot_set.others i ne) ∙ e)
          ];
          nodup = λ i. IsNodup-erase t (chain i) (h.nodup i);
          timers = λ a task when idx e.
              let (ne, e') = kept_view a task when idx (sym (removed_view a) ∙ e) in
              let (tick, tt', i, m, le, last_visit) = h.timers a task when idx e' in
              (
                tick,
                tt',
                i,
                has-erase_ne a t (chain idx) ne ∙ m,
                le,
                λ k. has-erase_ne a t rest ne ∙ last_visit k,
              );
          split =
              ap (erase t) h.split
              ∙ erase-parts t seen rest
                  (subst IsNodup h.split (h.nodup (ticks_to_wheel_idx w w.cur_wheel_tick)));
          cursor = cursor-erase w h t v at_t;
        };
        views = removed_view;
      }
        where
          kept_view :
              (a task when idx : ℕ)
              → (if a == t then none else view (api.get w.slab a)) ≡ some (some (task, when, idx))
              → (a ≢ t) × (view (api.get w.slab a) ≡ some (some (task, when, idx)))
          kept_view a task when idx e = elim (Bool-cases (a == t)) [
            | inl same ↦ cc
            | inr other ↦ let ne : a ≢ t = ground arith in (ne, rw other at e)
          ]

  remove_slab_timer :
      (t c : ℕ) (v : Timeout) (w' : Wheel Store)
      → api.get w.slab t ≡ some (timeout v)
      → unlink (record w { slab = api.remove w.slab t; cur_slab_idx = c }) t v ≡ ok w'
      → remove_slab (record w { cur_slab_idx = c }) t ≡ ok (some (timeout v), w')
  unfolding remove_slab
  remove_slab_timer t c v w' e u = rw (e, remove_slab) (rw u refl)

  -- Taking a timer out of a wheel that is in order returns it and never panics: the wheel stays in
  -- order, without the timer, and nothing but the timer is lost. So it is where the cursor was moved.
  pub remove_slab-Removed :
      (t : ℕ) (v : Timeout)
      → api.get w.slab t ≡ some (timeout v)
      → (slots : List Slot) × (slab : Store) × ((c : ℕ)
          → remove_slab (record w { cur_slab_idx = c }) t
            ≡ ok (
              some (timeout v),
              record w { wheel = slots; slab = slab; cur_slab_idx = if c == t then v.next else c },
            ))
        × Removed t slots slab (if w.cur_slab_idx == t then v.next else w.cur_slab_idx)
  unfolding removed cursor_after
  remove_slab-Removed t v e =
      let r = around w h t v e in
      let (slots, slab, u) = unlinked t v e r in
      (slots, slab, λ c. remove_slab_timer t c v _ e (u.done c), removal t v e r u)
