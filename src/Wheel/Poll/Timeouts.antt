-- ===== src/Wheel/Poll/Timeouts.antt =====
-- src/wheel.rs: the writes of `next_timeout` keep the invariant.
use easyfibers.Prelude.{
  ℕ, ◌<◌, ◌≡◌, ◌≢◌, refl, sym, ap, subst, ◌∙◌, Bool, true, false, List, Option, none, some, length,
  set, get_elem?, arith, ◌==◌, ==_iff, if◌then◌else◌, Bool-cases, inl, inr,
}
use easyfibers.Prelude.Outcome.{ok}
use easyfibers.Prelude.Slice.{index}
use easyfibers.Wheel.{Slot, Wheel, time_to_ticks, ticks_to_wheel_idx, set_slot, clear_timeout}
use easyfibers.Wheel.Slab.{SlabApi}
use easyfibers.Wheel.Linked.{IsWheel, IsChain}
use easyfibers.Wheel.Cancel.Relink.{SlotSet-set, set_slot_lem}

-- The slots have the same heads.
pub record SameHeads (slots slots' : List Slot) : Type 0 where
  pub size : length slots' ≡ length slots
  pub heads :
      (i : ℕ) (s' : Slot)
      → get_elem? slots' i ≡ some s'
      → (s : Slot) × (get_elem? slots i ≡ some s) × (s.head ≡ s'.head)

pub SameHeads-refl : (slots : List Slot) → SameHeads slots slots
SameHeads-refl slots = record { size = refl; heads = λ i s e. (s, e, refl) }

pub SameHeads-set :
    (slots : List Slot) (idx : ℕ) (s : Slot) (o : Option ℕ)
    → get_elem? slots idx ≡ some s
    → idx < length slots
    → SameHeads slots (set slots idx (record s { next_timeout = o }))
SameHeads-set slots idx s o e lt =
    let w = SlotSet-set slots idx (record s { next_timeout = o }) lt in
    record {
      size = w.size;
      heads = λ i s' e'. elim (Bool-cases (i == idx)) [
        | inl same ↦
            let k = (==_iff i idx).0 same in
            let q : s' ≡ record s { next_timeout = o } =
              cc (ap (get_elem? (set slots idx (record s { next_timeout = o }))) k, w.here) in
            (s, ap (get_elem? slots) k ∙ e, sym (ap (λ (x : Slot). x.head) q))
        | inr other ↦ let ne : i ≢ idx = ground arith in (s', sym (w.others i ne) ∙ e', refl)
      ];
    }

module _ {Store : Type 0} ⦃api : SlabApi Store⦄ where
  pub IsWheel-slots :
      (w : Wheel Store) {chain : ℕ → List ℕ} {seen rest : List ℕ} (slots : List Slot)
      → IsWheel w chain seen rest
      → SameHeads w.wheel slots
      → IsWheel (record w { wheel = slots }) chain seen rest
  unfolding time_to_ticks ticks_to_wheel_idx
  IsWheel-slots w {chain} slots h same = record {
    size = same.size ∙ h.size;
    ticking = h.ticking;
    unused = h.unused;
    linked = λ i s' e.
        let (s, e0, k) = same.heads i s' e in
        subst (λ (a : ℕ). IsChain (api.get w.slab) i a (chain i)) k (h.linked i s e0);
    nodup = h.nodup;
    timers = h.timers;
    split = h.split;
    cursor = h.cursor;
  }

  pub set_timeout_lem :
      (w : Wheel Store) (b : Bool) (idx : ℕ) (s : Slot) (o : Option ℕ)
      → get_elem? w.wheel idx ≡ some s
      → idx < length w.wheel
      → (slots : List Slot) × ((if b then set_slot w idx (record s { next_timeout = o }) else ok w)
          ≡ ok (record w { wheel = slots }))
        × SameHeads w.wheel slots
  set_timeout_lem w true idx s o e lt = (
    set w.wheel idx (record s { next_timeout = o }),
    set_slot_lem w idx (record s { next_timeout = o }) lt,
    SameHeads-set w.wheel idx s o e lt,
  )
  set_timeout_lem w false idx s o e lt = (w.wheel, refl, SameHeads-refl w.wheel)

  pub clear_timeout_lem :
      (w : Wheel Store) (b : Bool) (idx : ℕ) (s : Slot)
      → get_elem? w.wheel idx ≡ some s
      → idx < length w.wheel
      → (slots : List Slot) × ((if b then clear_timeout w idx else ok w)
          ≡ ok (record w { wheel = slots }))
        × SameHeads w.wheel slots
  unfolding index clear_timeout
  clear_timeout_lem w true idx s e lt = (
    set w.wheel idx (record s { next_timeout = none }),
    rw e (set_slot_lem w idx (record s { next_timeout = none }) lt),
    SameHeads-set w.wheel idx s none e lt,
  )
  clear_timeout_lem w false idx s e lt = (w.wheel, refl, SameHeads-refl w.wheel)
