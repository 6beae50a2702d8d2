-- ===== src/Wheel/Insert/Heads.antt =====
-- src/wheel.rs: what `set_timeout` makes of the head of a slot.
use easyfibers.Prelude.{
  ℕ, ◌<◌, ◌≡◌, ◌≢◌, refl, sym, ap, subst, ◌∙◌, Bool, true, false, List, [], ◌∷◌, none, some, length,
  set, get_elem?, ◌==◌, ==_iff, if◌then◌else◌, ne→==_false,
}
use easyfibers.Prelude.Outcome.{ok}
use easyfibers.Prelude.Slice.{index}
use easyfibers.Wheel.{Slot, Wheel, Run, is_earliest, ticks_to_wheel_idx, actual_tick}
use easyfibers.Wheel.Slab.{empty, Entry, Timeout, timeout, SlabApi}
use easyfibers.Wheel.Chain.{write_ne, Seg, nil, cons, Seg-frame, relink_prev}
use easyfibers.Wheel.Tokens.{has, IsNodup}
use easyfibers.Wheel.Cancel.{put_at, set_prev}
use easyfibers.Wheel.Cancel.Relink.{
  set_slot_lem, set_prev_lem, put-write, Relinked, Relinked-refl, Relinked-put,
}
use easyfibers.Wheel.Insert.{schedule}

-- The token at the front of the list of its slot.
abbrev pub pushed : (ℕ → List ℕ) → ℕ → ℕ → ℕ → List ℕ
pushed chain idx t i = if i == idx then t ∷ chain i else chain i

-- It was not visited in this tick, and is not to be.
abbrev pub push_if : Bool → ℕ → List ℕ → List ℕ
push_if true t seen = t ∷ seen
push_if false t seen = seen

-- The slot once the timer of the time `at_time` is at its head.
abbrev pub headed : Slot → ℕ → ℕ → Slot
headed s t at_time = record {
  head = t;
  next_timeout = if is_earliest at_time s.next_timeout then some at_time else s.next_timeout;
}

module _ {Store : Type 0} ⦃api : SlabApi Store⦄ where
  -- The entry that `schedule` writes, and the linking of the old head to it.
  abbrev pub entry_for : Wheel Store → ℕ → ℕ → ℕ → Timeout
  entry_for w tick task head = record {
    task = task;
    when = actual_tick w tick;
    wheel_idx = ticks_to_wheel_idx w tick;
    prev = empty;
    next = head;
  }

  abbrev pub link_head : Store → ℕ → ℕ → Run Store
  link_head slab head t = if head == empty then ok slab else set_prev slab head t

  -- A list behind a new head.
  pub link_head-Seg :
      (slab : Store) (idx last head t : ℕ) (ts : List ℕ) (v : Timeout)
      → api.get slab empty ≡ none
      → IsNodup ts
      → has t ts ≡ false
      → api.get slab t ≡ some (timeout v)
      → v.wheel_idx ≡ idx
      → v.prev ≡ empty
      → v.next ≡ head
      → Seg (api.get slab) idx last empty empty head ts
      → (slab' : Store) × (last' : ℕ) × (link_head slab head t ≡ ok slab')
        × Seg (api.get slab') idx last' empty empty t (t ∷ ts)
        × Relinked ts slab slab'
  link_head-Seg slab idx last head t [] v unused d out at_t i p n (nil l k) = (
    slab,
    t,
    rw ((==_iff head empty).1 k) refl,
    cons {v = v} refl at_t i p (nil refl (n ∙ k)),
    Relinked-refl [] slab,
  )
  link_head-Seg slab idx last head t (y ∷ ys) v unused (out_y, d) out at_t i p n
        (cons {v = u} k e iu pu s) =
      let u' = record u { prev = t } in
      let at_head : api.get slab head ≡ some (timeout u) = ap (λ (a : ℕ). api.get slab a) k ∙ e in
      let later : (head == empty) ≡ false =
        ne→==_false head empty (λ q. cc (ap (λ (a : ℕ). api.get slab a) q)) in
      let same = put-write slab y u (timeout u') e in
      let ne_t : t ≢ y = λ q. cc ((==_iff t y).1 q) in
      let at_t' : api.get (api.put slab y (timeout u')) t ≡ some (timeout v) =
        same t ∙ write_ne (api.get slab) y t _ ne_t ∙ at_t in
      let s' = Seg-frame (relink_prev u t e out_y (cons {v = u} k e iu pu s)) (λ a _. same a) in
      let whole : Seg (api.get (api.put slab y (timeout u'))) idx last empty empty t (t ∷ y ∷ ys) =
        cons {v = v} refl at_t' i p (
          subst (λ (b : ℕ). Seg (api.get (api.put slab y (timeout u'))) idx last empty t b (y ∷ ys))
            (sym n) s') in
      (
        api.put slab head (timeout u'),
        last,
        rw later (set_prev_lem slab head t u at_head),
        subst
            (λ (a : ℕ).
              Seg (api.get (api.put slab a (timeout u'))) idx last empty empty t (t ∷ y ∷ ys))
            (sym k) whole,
        subst (λ (a : ℕ). Relinked (y ∷ ys) slab (api.put slab a (timeout u'))) (sym k)
            (Relinked-put (y ∷ ys) slab y u u' e (rw ((==_iff y y).1 refl) refl) refl),
      )

  put_at_lem :
      (slab : Store) (t : ℕ) (old e : Entry)
      → api.get slab t ≡ some old
      → put_at slab t e ≡ ok (api.put slab t e)
  unfolding put_at
  put_at_lem slab t old e h = rw (h, put_at) refl

  pub schedule_lem :
      (w : Wheel Store) (t tick task : ℕ) (s : Slot) (old : Entry) (slab' : Store)
      → get_elem? w.wheel (ticks_to_wheel_idx w tick) ≡ some s
      → ticks_to_wheel_idx w tick < length w.wheel
      → api.get w.slab t ≡ some old
      → link_head (api.put w.slab t (timeout (entry_for w tick task s.head))) s.head t ≡ ok slab'
      → schedule w t tick task
        ≡ ok (record w {
          wheel = set w.wheel (ticks_to_wheel_idx w tick) (headed s t (actual_tick w tick));
          slab = slab';
        })
  unfolding schedule index
  schedule_lem w t tick task s old slab' at_idx lt at_t linked =
      rw
        (
          at_idx,
          put_at_lem w.slab t old (timeout (entry_for w tick task s.head)) at_t,
          linked,
          set_slot_lem (record w { slab = slab' }) (ticks_to_wheel_idx w tick)
              (headed s t (actual_tick w tick)) lt,
        )
        refl
