-- ===== src/Wheel/Cancel/Relink.antt =====
-- src/wheel.rs: what the two halves of `unlink` make of the list of a slot.
use easyfibers.Prelude.{
  ℕ, zero, suc, ◌<◌, ◌≡◌, ◌≢◌, refl, sym, ap, subst, ◌∙◌, true, false, List, [], ◌∷◌, none, some,
  length, set, length-set, get_elem?, get_elem?-set_self, get_elem?-set_ne, arith, ◌==◌, ==_iff,
  lt→ltb, Bool-cases, inl, inr, ne→==_false,
}
use easyfibers.Prelude.Outcome.{ok}
use easyfibers.Prelude.Slice.{index, assign}
use easyfibers.Wheel.{Slot, Wheel, set_slot}
use easyfibers.Wheel.Slab.{empty, Entry, Timeout, timeout, SlabApi}
use easyfibers.Wheel.Chain.{write, Seg, nil, cons, Seg-frame, Seg-last, relink_prev, relink_next}
use easyfibers.Wheel.Tokens.{has, IsNodup}
use easyfibers.Wheel.Linked.{view}
use easyfibers.Wheel.Cancel.{timeout_at, set_next, set_prev, unlink_prev, unlink_next}

pub get_elem?-lt {ℓ} :
    {A : Type ℓ} (xs : List A) (i : ℕ) (x : A) → get_elem? xs i ≡ some x → i < length xs
get_elem?-lt [] i x h = cc
get_elem?-lt (y ∷ xs) zero x h = omega arith
get_elem?-lt (y ∷ xs) (suc i) x h = omega (arith, get_elem?-lt xs i x h)

-- One slot of `slots` was set to `s`.
pub record SlotSet (slots slots' : List Slot) (idx : ℕ) (s : Slot) : Type 0 where
  pub size : length slots' ≡ length slots
  pub here : get_elem? slots' idx ≡ some s
  pub others : (i : ℕ) → i ≢ idx → get_elem? slots' i ≡ get_elem? slots i

pub SlotSet-set :
    (slots : List Slot) (idx : ℕ) (s : Slot)
    → idx < length slots
    → SlotSet slots (set slots idx s) idx s
SlotSet-set slots idx s h = record {
  size = length-set slots idx s;
  here = get_elem?-set_self slots idx s h;
  others = λ i ne. get_elem?-set_ne slots s (λ e. ne (sym e));
}

pub SlotSet-same :
    (slots : List Slot) (idx : ℕ) (s : Slot)
    → get_elem? slots idx ≡ some s
    → SlotSet slots slots idx s
SlotSet-same slots idx s h = record { size = refl; here = h; others = λ i ne. refl }

module _ {Store : Type 0} ⦃api : SlabApi Store⦄ where
  pub set_slot_lem :
      (w : Wheel Store) (idx : ℕ) (s : Slot)
      → idx < length w.wheel
      → set_slot w idx s ≡ ok (record w { wheel = set w.wheel idx s })
  unfolding assign
  set_slot_lem w idx s h = rw (lt→ltb idx (length w.wheel) h) refl

  -- The entries outside `ts` are the same, and those of `ts` differ in their links at most.
  pub record Relinked (ts : List ℕ) (slab slab' : Store) : Type 0 where
    pub spared : (a : ℕ) → has a ts ≡ false → api.get slab' a ≡ api.get slab a
    pub same_view : (a : ℕ) → view (api.get slab' a) ≡ view (api.get slab a)

  pub Relinked-refl : (ts : List ℕ) (slab : Store) → Relinked ts slab slab
  Relinked-refl ts slab = record { spared = λ a h. refl; same_view = λ a. refl }

  -- A write of another link to the entry `t`.
  pub Relinked-put :
      (ts : List ℕ) (slab : Store) (t : ℕ) (u u' : Timeout)
      → api.get slab t ≡ some (timeout u)
      → has t ts ≡ true
      → view (some (timeout u')) ≡ view (some (timeout u))
      → Relinked ts slab (api.put slab t (timeout u'))
  Relinked-put ts slab t u u' e m same =
      let law = λ (a : ℕ). api.get-put slab t a (timeout u) (timeout u') e in
      record {
        spared = λ a h. law a ∙ rw (ne→==_false a t (λ k. cc)) refl;
        same_view = λ a. elim (Bool-cases (a == t)) [
          | inl k ↦ let q = (==_iff a t).0 k in ap view (law a) ∙ rw (k, q, e) same
          | inr k ↦ ap view (law a) ∙ rw k refl
        ];
      }

  pub put-write :
      (slab : Store) (t : ℕ) (u : Timeout) (e : Entry)
      → api.get slab t ≡ some (timeout u)
      → (a : ℕ) → api.get (api.put slab t e) a ≡ write (api.get slab) t (some e) a
  put-write slab t u e h a = api.get-put slab t a (timeout u) e h

  set_next_lem :
      (slab : Store) (t n : ℕ) (u : Timeout)
      → api.get slab t ≡ some (timeout u)
      → set_next slab t n ≡ ok (api.put slab t (timeout (record u { next = n })))
  unfolding set_next timeout_at
  set_next_lem slab t n u e = rw (e, timeout_at) refl

  pub set_prev_lem :
      (slab : Store) (t b : ℕ) (u : Timeout)
      → api.get slab t ≡ some (timeout u)
      → set_prev slab t b ≡ ok (api.put slab t (timeout (record u { prev = b })))
  unfolding set_prev timeout_at
  set_prev_lem slab t b u e = rw (e, timeout_at) refl

  token-ne_empty :
      (slab : Store) (t : ℕ) (e : Entry)
      → api.get slab empty ≡ none
      → api.get slab t ≡ some e
      → (t == empty) ≡ false
  token-ne_empty slab t e unused h =
      ne→==_false t empty (λ k. cc (ap (λ (a : ℕ). api.get slab a) k))

  -- `unlink_prev`, where the entry `v` of the token `t` stood behind `xs`: `xs` now leads to what
  -- followed the entry.
  pub unlink_prev_lem :
      (w : Wheel Store) (v : Timeout) (t : ℕ) (s : Slot) (xs : List ℕ)
      → get_elem? w.wheel v.wheel_idx ≡ some s
      → api.get w.slab empty ≡ none
      → IsNodup xs
      → Seg (api.get w.slab) v.wheel_idx v.prev t empty s.head xs
      → (slots : List Slot) × (slab : Store) × (s' : Slot) × ((c : ℕ)
          → unlink_prev (record w { cur_slab_idx = c }) v
            ≡ ok (record w { wheel = slots; slab = slab; cur_slab_idx = c }))
        × SlotSet w.wheel slots v.wheel_idx s'
        × Relinked xs w.slab slab
        × Seg (api.get slab) v.wheel_idx v.prev v.next empty s'.head xs
  unfolding unlink_prev index
  unlink_prev_lem w v t s [] at_idx unused d (nil l h) =
      let s' = record s { head = v.next } in
      let first : (v.prev == empty) ≡ true = (==_iff v.prev empty).1 (sym l) in
      let lt = get_elem?-lt w.wheel v.wheel_idx s at_idx in
      (
        set w.wheel v.wheel_idx s',
        w.slab,
        s',
        λ c.
            rw (first, at_idx, set_slot_lem (record w { cur_slab_idx = c }) v.wheel_idx s' lt) refl,
        SlotSet-set w.wheel v.wheel_idx s' lt,
        Relinked-refl [] w.slab,
        nil l refl,
      )
  unlink_prev_lem w v t s (x ∷ xs) at_idx unused d seg =
      let (m, (u, e, i, n)) = Seg-last xs seg in
      let u' = record u { next = v.next } in
      let later = token-ne_empty w.slab v.prev (timeout u) unused e in
      let same = put-write w.slab v.prev u (timeout u') e in
      (
        w.wheel,
        api.put w.slab v.prev (timeout u'),
        s,
        λ c. rw (later, set_next_lem w.slab v.prev v.next u e) refl,
        SlotSet-same w.wheel v.wheel_idx s at_idx,
        Relinked-put (x ∷ xs) w.slab v.prev u u' e m refl,
        Seg-frame (relink_next xs u v.next e d seg) λ a _. same a,
      )

  -- `unlink_next`, where `ys` stood behind the entry `v` of the token `t`.
  pub unlink_next_lem :
      (w : Wheel Store) (v : Timeout) (t last : ℕ) (ys : List ℕ)
      → api.get w.slab empty ≡ none
      → IsNodup ys
      → Seg (api.get w.slab) v.wheel_idx last empty t v.next ys
      → (slab : Store) × (last' : ℕ) × ((c : ℕ)
          → unlink_next (record w { cur_slab_idx = c }) v
            ≡ ok (record w { slab = slab; cur_slab_idx = c }))
        × Relinked ys w.slab slab
        × Seg (api.get slab) v.wheel_idx last' empty v.prev v.next ys
  unfolding unlink_next
  unlink_next_lem w v t last [] unused d (nil l h) = (
    w.slab,
    v.prev,
    λ c. rw ((==_iff v.next empty).1 h) refl,
    Relinked-refl [] w.slab,
    nil refl h,
  )
  unlink_next_lem w v t last (y ∷ ys) unused (out, d) (cons {v = u} h e i p s) =
      let u' = record u { prev = v.prev } in
      let at_next : api.get w.slab v.next ≡ some (timeout u) =
        ap (λ (a : ℕ). api.get w.slab a) h ∙ e in
      let later = token-ne_empty w.slab v.next (timeout u) unused at_next in
      let same = put-write w.slab y u (timeout u') e in
      (
        api.put w.slab v.next (timeout u'),
        last,
        λ c. rw (later, set_prev_lem w.slab v.next v.prev u at_next) refl,
        subst (λ (a : ℕ). Relinked (y ∷ ys) w.slab (api.put w.slab a (timeout u'))) (sym h)
            (Relinked-put (y ∷ ys) w.slab y u u' e (rw ((==_iff y y).1 refl) refl) refl),
        subst
            (λ (a : ℕ).
              Seg (api.get (api.put w.slab a (timeout u'))) v.wheel_idx last empty v.prev v.next
                (y ∷ ys))
            (sym h) (Seg-frame (relink_prev u v.prev e out (cons {v = u} h e i p s)) λ a _. same a),
      )
