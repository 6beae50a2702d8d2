-- ===== src/Wheel/Cancel/Cancelled.antt =====
-- src/wheel.rs: `cancel` with every token, and `release`.
use easyfibers.Prelude.{
  ℕ, ◌≡◌, ◌≢◌, refl, sym, ap, subst, ◌∙◌, false, List, ◌++◌, Option, none, some, get_elem?,
  get_elem?_in, arith, ◌==◌, if◌then◌else◌, Bool-cases, inl, inr, ne→==_false,
}
use easyfibers.Prelude.Outcome.{ok}
use easyfibers.Wheel.{Slot, Wheel, time_to_ticks, ticks_to_wheel_idx, release}
use easyfibers.Wheel.Slab.{empty, Entry, Timeout, reserved, timeout, SlabApi}
use easyfibers.Wheel.Chain.{Seg, Seg-frame}
use easyfibers.Wheel.Tokens.{
  has, IsNodup, erase, erased, has-append, erase-absent, erase-parts, has-erase_ne, IsNodup-erase,
}
use easyfibers.Wheel.Linked.{view, view-none, front_of, IsWheel}
use easyfibers.Wheel.Cancel.{remove_slab, cancel}
use easyfibers.Wheel.Cancel.Around.{idx-lt, chain-timer}
use easyfibers.Wheel.Cancel.Removal.{Removed, remove_slab-Removed}

module _ {Store : Type 0} ⦃api : SlabApi Store⦄ (w : Wheel Store) {chain : ℕ → List ℕ}
    {seen rest : List ℕ} (h : IsWheel w chain seen rest) where
  -- A token that has no timer is in no list.
  module _ (t : ℕ) (idle : (v : Timeout) → api.get w.slab t ≢ some (timeout v)) where
    pub not_chained : (i : ℕ) (s : Slot) → get_elem? w.wheel i ≡ some s → has t (chain i) ≡ false
    not_chained i s e = elim (Bool-cases (has t (chain i))) [
      | inl m ↦ let (v, at_t, _) = chain-timer w h i t s e m in absurd (idle v at_t)
      | inr m ↦ m
    ]

    not_resting : has t rest ≡ false
    not_resting =
        let cur = ticks_to_wheel_idx w w.cur_wheel_tick in
        let (s, e) = get_elem?_in w.wheel cur (idx-lt w h w.cur_wheel_tick) in
        let out : has t (seen ++ rest) ≡ false = sym (ap (has t) h.split) ∙ not_chained cur s e in
        ground (arith, has-append t seen rest)

    kept_view :
        (a : ℕ)
        → view (api.get (api.remove w.slab t) a)
          ≡ (if a == t then none else view (api.get w.slab a))
    kept_view a = ap view (api.get-remove w.slab t a) ∙ ground arith

    removed_ne : (a : ℕ) → a ≢ t → api.get (api.remove w.slab t) a ≡ api.get w.slab a
    removed_ne a ne = api.get-remove w.slab t a ∙ rw (ne→==_false a t ne) refl

    idle-Removed : Removed w h t w.wheel (api.remove w.slab t) w.cur_slab_idx
    unfolding time_to_ticks ticks_to_wheel_idx
    idle-Removed = record {
      is_wheel = record {
        size = h.size;
        ticking = h.ticking;
        unused =
            view-none (api.get (api.remove w.slab t) empty)
              (kept_view empty ∙ ground (arith, h.unused));
        linked = λ i s e.
            let (last, seg) = h.linked i s e in
            let out = not_chained i s e in
            (
              last,
              subst (Seg (api.get (api.remove w.slab t)) i last empty empty s.head)
                  (sym (erase-absent t (chain i) out))
                  (Seg-frame seg λ a m. removed_ne a λ k. cc (ap (λ (x : ℕ). has x (chain i)) k)),
            );
        nodup = λ i. IsNodup-erase t (chain i) (h.nodup i);
        timers = λ a task when idx e.
            let (ne, e') = still a task when idx (sym (kept_view a) ∙ e) in
            let (tick, tt', i, m, le, last_visit) = h.timers a task when idx e' in
            (
              tick,
              tt',
              i,
              has-erase_ne a t (chain idx) ne ∙ m,
              le,
              λ k. has-erase_ne a t rest ne ∙ last_visit k,
            );
        split =
            ap (erase t) h.split
            ∙ erase-parts t seen rest
                (subst IsNodup h.split (h.nodup (ticks_to_wheel_idx w w.cur_wheel_tick)));
        cursor = h.cursor ∙ ap front_of (sym (erase-absent t rest not_resting));
      };
      views = kept_view;
    }
      where
        still :
            (a task when idx : ℕ)
            → (if a == t then none else view (api.get w.slab a)) ≡ some (some (task, when, idx))
            → (a ≢ t) × (view (api.get w.slab a) ≡ some (some (task, when, idx)))
        still a task when idx e = elim (Bool-cases (a == t)) [
          | inl same ↦ cc
          | inr other ↦ let ne : a ≢ t = ground arith in (ne, rw other at e)
        ]

  idle_cancel :
      (t : ℕ) (o : Option Entry)
      → api.get w.slab t ≡ o
      → ((v : Timeout) → o ≢ some (timeout v))
      → cancel w t ≡ ok (record w { slab = api.remove w.slab t })
  unfolding cancel remove_slab
  idle_cancel t none e idle = rw (e, remove_slab) refl
  idle_cancel t (some reserved) e idle = rw (e, remove_slab) refl
  idle_cancel t (some (timeout v)) e idle = absurd (idle v refl)

  timer_cancel :
      (t : ℕ) (o : Option Entry) (w' : Wheel Store)
      → remove_slab w t ≡ ok (o, w')
      → cancel w t ≡ ok w'
  unfolding cancel
  timer_cancel t o w' e = rw e refl

  -- `cancel` never panics on a wheel that is in order, whatever the token. The wheel stays in order,
  -- the token has no entry any more and is in no list, and every other token has the timer or the
  -- reservation that it had.
  pub cancel-Removed :
      (t : ℕ)
      → (slots : List Slot) × (slab : Store) × (cursor : ℕ) × (cancel w t
          ≡ ok (record w { wheel = slots; slab = slab; cur_slab_idx = cursor }))
        × Removed w h t slots slab cursor
  cancel-Removed t = go (api.get w.slab t) refl
    where
      go :
          (o : Option Entry)
          → api.get w.slab t ≡ o
          → (slots : List Slot) × (slab : Store) × (cursor : ℕ) × (cancel w t
              ≡ ok (record w { wheel = slots; slab = slab; cur_slab_idx = cursor }))
            × Removed w h t slots slab cursor
      go none e = (
        w.wheel,
        api.remove w.slab t,
        w.cur_slab_idx,
        idle_cancel t none e (λ v k. cc),
        idle-Removed t (λ v k. cc),
      )
      go (some reserved) e = (
        w.wheel,
        api.remove w.slab t,
        w.cur_slab_idx,
        idle_cancel t (some reserved) e (λ v k. cc),
        idle-Removed t (λ v k. cc),
      )
      go (some (timeout v)) e =
          let (slots, slab, done, r) = remove_slab-Removed w h t v e in
          (slots, slab, _, timer_cancel t _ _ (done w.cur_slab_idx), r)

  -- `release` of a token that has no timer keeps the wheel in order.
  pub release-IsWheel :
      (t : ℕ)
      → ((v : Timeout) → api.get w.slab t ≢ some (timeout v))
      → IsWheel (release w t) (erased chain t) (erase t seen) (erase t rest)
  unfolding release
  release-IsWheel t idle = (idle-Removed t idle).is_wheel
