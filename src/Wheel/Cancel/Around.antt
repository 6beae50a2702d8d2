-- ===== src/Wheel/Cancel/Around.antt =====
-- src/wheel.rs: what stands around a timer in the list of its slot.
use easyfibers.Prelude.{
  ℕ, ◌<◌, ◌≡◌, refl, sym, ap, subst, ◌∙◌, true, false, List, [], ◌∷◌, ◌++◌, some, length, get_elem?,
  get_elem?_in, arith, ◌==◌, ==_iff, if◌then◌else◌, Bool-cases, inl, inr, ne→==_false,
}
use easyfibers.Prelude.Masks.{bit_and-le}
use easyfibers.Wheel.{Slot, Wheel, ticks_to_wheel_idx}
use easyfibers.Wheel.Slab.{empty, Timeout, timeout, SlabApi}
use easyfibers.Wheel.Chain.{Seg, cons, Seg-split, Seg-entry}
use easyfibers.Wheel.Tokens.{has, erase, has-split}
use easyfibers.Wheel.Linked.{view, front_of, Seg-front, IsWheel}

module _ {Store : Type 0} ⦃api : SlabApi Store⦄ (w : Wheel Store) {chain : ℕ → List ℕ}
    {seen rest : List ℕ} (h : IsWheel w chain seen rest) where
  pub idx-lt : (tick : ℕ) → ticks_to_wheel_idx w tick < length w.wheel
  unfolding ticks_to_wheel_idx
  idx-lt tick = omega (arith, h.size, bit_and-le tick w.mask)

  -- The slot of a timer.
  pub slot_of :
      (t task when idx : ℕ)
      → view (api.get w.slab t) ≡ some (some (task, when, idx))
      → (s : Slot) × (get_elem? w.wheel idx ≡ some s)
  slot_of t task when idx e =
      let (tick, _, i, _, _, _) = h.timers t task when idx e in
      get_elem?_in w.wheel idx (subst (λ (k : ℕ). k < length w.wheel) (sym i) (idx-lt tick))

  -- A token in the list of a slot that is there is a timer of that slot.
  pub chain-timer :
      (i t : ℕ) (s : Slot)
      → get_elem? w.wheel i ≡ some s
      → has t (chain i) ≡ true
      → (v : Timeout) × (api.get w.slab t ≡ some (timeout v)) × (v.wheel_idx ≡ i)
  chain-timer i t s e m = Seg-entry t (h.linked i s e).1 m

  -- What stands around the timer `t` in its slot.
  pub record Around (t : ℕ) (v : Timeout) : Type 0 where
    pub s : Slot
    pub xs : List ℕ
    pub ys : List ℕ
    pub last : ℕ
    pub at_idx : get_elem? w.wheel v.wheel_idx ≡ some s
    pub whole : chain v.wheel_idx ≡ xs ++ (t ∷ ys)
    pub front : Seg (api.get w.slab) v.wheel_idx v.prev t empty s.head xs
    pub back : Seg (api.get w.slab) v.wheel_idx last empty t v.next ys

  pub around : (t : ℕ) (v : Timeout) → api.get w.slab t ≡ some (timeout v) → Around t v
  around t v e =
      let seen_at : view (api.get w.slab t) ≡ some (some (v.task, v.when, v.wheel_idx)) =
        rw e refl in
      let (s, at_idx) = slot_of t v.task v.when v.wheel_idx seen_at in
      let (_, _, _, m, _, _) = h.timers t v.task v.when v.wheel_idx seen_at in
      let (xs, ys, whole) = has-split t (chain v.wheel_idx) m in
      let (last, seg) = h.linked v.wheel_idx s at_idx in
      let (m1, n1, front, back) =
        Seg-split xs (subst (Seg (api.get w.slab) v.wheel_idx last empty empty s.head) whole seg) in
      build s xs ys last m1 n1 at_idx whole front back
    where
      build :
          (s : Slot) (xs ys : List ℕ) (last m1 n1 : ℕ)
          → get_elem? w.wheel v.wheel_idx ≡ some s
          → chain v.wheel_idx ≡ xs ++ (t ∷ ys)
          → Seg (api.get w.slab) v.wheel_idx m1 n1 empty s.head xs
          → Seg (api.get w.slab) v.wheel_idx last empty m1 n1 (t ∷ ys)
          → Around t v
      build s xs ys last m1 n1 at_idx whole front (cons {v = v'} k e' i p back) =
          let same : v' ≡ v = cc in
          let p' : m1 ≡ v.prev = cc (ap (λ (u : Timeout). u.prev) same) in
          record {
            s = s;
            xs = xs;
            ys = ys;
            last = last;
            at_idx = at_idx;
            whole = whole;
            front =
                subst (λ (b : ℕ). Seg (api.get w.slab) v.wheel_idx b t empty s.head xs) p'
                  (subst (λ (b : ℕ). Seg (api.get w.slab) v.wheel_idx m1 b empty s.head xs) k
                    front);
            back =
                subst (λ (u : Timeout). Seg (api.get w.slab) v.wheel_idx last empty t u.next ys)
                  same back;
          }

  -- The entry that is taken out is followed by the front of what is left of the visit.
  pub after_cursor :
      (t : ℕ) (v : Timeout) (rs : List ℕ)
      → rest ≡ t ∷ rs
      → api.get w.slab t ≡ some (timeout v)
      → v.next ≡ front_of rs
  after_cursor t v rs e at_t =
      let cur = ticks_to_wheel_idx w w.cur_wheel_tick in
      let (s, at_cur) = get_elem?_in w.wheel cur (idx-lt w.cur_wheel_tick) in
      let (last, seg) = h.linked cur s at_cur in
      let (m, n, _, back) = Seg-split seen (
        subst (Seg (api.get w.slab) cur last empty empty s.head) (h.split ∙ ap (λ r. seen ++ r) e)
          seg) in
      go cur last m n back
    where
      go :
          (cur last m n : ℕ)
          → Seg (api.get w.slab) cur last empty m n (t ∷ rs)
          → v.next ≡ front_of rs
      go cur last m n (cons {v = u} k e' i p s) =
          let same : u ≡ v = cc in sym (ap (λ (x : Timeout). x.next) same) ∙ Seg-front s

  unfoldable pub cursor_after : ℕ → Timeout → ℕ
  cursor_after t v = if w.cur_slab_idx == t then v.next else w.cur_slab_idx

  pub cursor-erase :
      (t : ℕ) (v : Timeout)
      → api.get w.slab t ≡ some (timeout v)
      → cursor_after t v ≡ front_of (erase t rest)
  unfolding cursor_after
  cursor-erase t v e = go rest refl
    where
      ne_empty : (t == empty) ≡ false
      ne_empty = ne→==_false t empty (λ k. cc (ap (λ (a : ℕ). api.get w.slab a) k, h.unused))

      go : (r : List ℕ) → rest ≡ r → cursor_after t v ≡ front_of (erase t r)
      go [] q = let c : w.cur_slab_idx ≡ empty = h.cursor ∙ ap front_of q in ground arith
      go (r ∷ rs) q = elim (Bool-cases (t == r)) [
        | inl same ↦
            let k = (==_iff t r).0 same in
            let c : w.cur_slab_idx ≡ t = h.cursor ∙ ap front_of q ∙ sym k in
            let n = after_cursor t v rs (q ∙ ap (λ a. a ∷ rs) (sym k)) e in
            rw (same, (==_iff w.cur_slab_idx t).1 c) n
        | inr other ↦ let c : w.cur_slab_idx ≡ r = h.cursor ∙ ap front_of q in ground arith
      ]
