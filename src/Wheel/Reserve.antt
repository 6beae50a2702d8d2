-- ===== src/Wheel/Reserve.antt =====
-- src/wheel.rs: what `reserve` does to the entries.
use easyfibers.Prelude.{
  ℕ, ◌-◌, ◌≤◌, ◌<◌, ◌≡◌, refl, true, Option, none, some, ◌==◌, ltb, if◌then◌else◌, arith,
  Bool-cases, ◌⊎◌, inl, inr, ◌∙◌, sym, ap, le→ltb_false,
}
use easyfibers.Prelude.Outcome.{ok}
use easyfibers.Wheel.Slab.{empty, reserved, SlabApi}
use easyfibers.Wheel.{Wheel, reserve, insert_reserved, taken}

module _ {Store : Type 0} ⦃api : SlabApi Store⦄ where
  -- The entries of `s'` after `reserve` answered `token` on those of `s`.
  abbrev pub Reserved : Store → Option ℕ → Store → Type 0
  Reserved s none s' = (t : ℕ) → api.get s' t ≡ api.get s t
  Reserved s (some token) s' =
      (api.get s token ≡ none)
      × (token < empty)
      × ((t : ℕ) → api.get s' t ≡ (if t == token then some reserved else api.get s t))

  taken-Reserved :
      (w : Wheel Store) (o : Option (ℕ × Store))
      → api.insert w.slab reserved ≡ o
      → Reserved w.slab (taken w o).0 (taken w o).1.slab
  taken-Reserved w none e = λ t. refl
  taken-Reserved w (some (token, s')) e =
      let (fresh, below) = api.insert-fresh w.slab s' reserved token e in
      (fresh, below, λ t. api.get-insert w.slab s' reserved token t e)

  taken-slab :
      (w : Wheel Store) (o : Option (ℕ × Store))
      → taken w o ≡ ((taken w o).0, record w { slab = (taken w o).1.slab })
  taken-slab w none = refl
  taken-slab w (some (token, slab)) = refl

  -- More room changes no entry.
  Reserved-reserve_exact :
      (s s' : Store) (n : ℕ) (answer : Option ℕ)
      → Reserved (api.reserve_exact s n) answer s'
      → Reserved s answer s'
  Reserved-reserve_exact s s' n none h = λ t. h t ∙ api.get-reserve_exact s n t
  Reserved-reserve_exact s s' n (some token) (fresh, below, h) = (
    sym (api.get-reserve_exact s n token) ∙ fresh,
    below,
    λ t. h t ∙ ap (λ e. if t == token then some reserved else e) (api.get-reserve_exact s n t),
  )

  -- `reserve` returns, unless the slab is full and already larger than `max_capacity`. A token that
  -- it answers had no entry, is not EMPTY, and has the reserved entry from then on; no other entry
  -- is touched, and none at all if it answers `None`. Nothing but the slab is changed.
  pub reserve-Reserved :
      (w : Wheel Store)
      → (api.has_vacant w.slab ≡ true) ⊎ (api.len w.slab ≤ w.max_capacity)
      → (answer : Option ℕ) × (slab : Store) × (reserve w ≡ ok (answer, record w { slab = slab }))
        × Reserved w.slab answer slab
  unfolding reserve
  reserve-Reserved w h = elim (Bool-cases (api.has_vacant w.slab)) [
    | inl v ↦ (
      (insert_reserved w).0,
      (insert_reserved w).1.slab,
      rw v (ap ok (taken-slab w (api.insert w.slab reserved))),
      taken-Reserved w (api.insert w.slab reserved) refl,
    )
    | inr v ↦
        let len = api.len w.slab in
        let room = w.max_capacity - len in
        let amt = if ltb room len then room else len in
        let fits : len ≤ w.max_capacity = ground arith in
        let no_panic = le→ltb_false w.max_capacity len fits in
        elim (Bool-cases (amt == 0)) [
          | inl z ↦ (none, w.slab, rw (v, no_panic, z) refl, λ t. refl)
          | inr z ↦
              let w1 = record w { slab = api.reserve_exact w.slab amt } in
              (
                (insert_reserved w1).0,
                (insert_reserved w1).1.slab,
                rw (v, no_panic, z) (ap ok (taken-slab w1 (api.insert w1.slab reserved))),
                Reserved-reserve_exact w.slab (insert_reserved w1).1.slab amt (insert_reserved w1).0
                    (taken-Reserved w1 (api.insert w1.slab reserved) refl),
              )
        ]
  ]
