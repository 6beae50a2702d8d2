-- ===== src/Wheel/Insert/Moved.antt =====
-- src/wheel.rs: `move_timeout` keeps the invariant.
use easyfibers.Prelude.{
  ℕ, ◌≡◌, refl, sym, ap, subst, ◌∙◌, true, List, Option, none, some, ◌==◌, ==_iff, if◌then◌else◌,
  Bool-cases, inl, inr, ne→==_false,
}
use easyfibers.Wheel.{Wheel}
use easyfibers.Wheel.Slab.{empty, Timeout, Entry, reserved, timeout, SlabApi}
use easyfibers.Wheel.Linked.{Timer, view, timer_fields, IsWheel}
use easyfibers.Wheel.Fresh.{IsWheel-slab}
use easyfibers.Wheel.Insert.{move_timeout}

-- The timer with another task, where the time is the one that it has.
abbrev pub retasked : ℕ → ℕ → Option (Option Timer) → Option (Option Timer)
retasked when task (some (some (old, at_time, idx))) =
    if at_time == when then some (some (task, at_time, idx)) else some (some (old, at_time, idx))
retasked when task (some none) = some none
retasked when task none = none

module _ {Store : Type 0} ⦃api : SlabApi Store⦄ where
  -- What `move_timeout` leaves.
  abbrev pub Moved : Wheel Store → (ℕ → List ℕ) → List ℕ → List ℕ → ℕ → ℕ → ℕ → Wheel Store → Type 0
  Moved w chain seen rest token when task w' =
      IsWheel w' chain seen rest
      × ((a : ℕ)
          → view (api.get w'.slab a) ≡ (
              if a == token
              then retasked when task (view (api.get w.slab a))
              else view (api.get w.slab a)))

  unmoved :
      (w : Wheel Store) {chain : ℕ → List ℕ} {seen rest : List ℕ} (token when task : ℕ)
      → IsWheel w chain seen rest
      → retasked when task (view (api.get w.slab token)) ≡ view (api.get w.slab token)
      → Moved w chain seen rest token when task w
  unmoved w token when task h same = (
    h,
    λ a. elim (Bool-cases (a == token)) [
      | inl at_token ↦
          let k = (==_iff a token).0 at_token in
          rw at_token (
            ap (λ (x : ℕ). view (api.get w.slab x)) k
            ∙ sym same
            ∙ ap (λ (x : ℕ). retasked when task (view (api.get w.slab x))) (sym k))
      | inr other ↦ rw other refl
    ],
  )

  module _ (w : Wheel Store) {chain : ℕ → List ℕ} {seen rest : List ℕ} (token task : ℕ)
      (e : Timeout) (h : IsWheel w chain seen rest)
      (at_token : api.get w.slab token ≡ some (timeout e)) where
    put_same :
        (a : ℕ)
        → api.get (api.put w.slab token (timeout (record e { task = task }))) a
          ≡ (if a == token then some (timeout (record e { task = task })) else api.get w.slab a)
    put_same a = api.get-put w.slab token a (timeout e) _ at_token

    put-Moved :
        Moved w chain seen rest token e.when task
          (record w { slab = api.put w.slab token (timeout (record e { task = task })) })
    put-Moved = (
      IsWheel-slab w _ h
          (λ a v k. elim (Bool-cases (a == token)) [
            | inl same ↦
                let q : e ≡ v = cc (ap (λ (x : ℕ). api.get w.slab x) ((==_iff a token).0 same)) in
                (
                  task,
                  put_same a
                      ∙ rw same (ap (λ (x : Timeout). some (timeout (record x { task = task }))) q),
                )
            | inr other ↦ (v.task, put_same a ∙ rw other k)
          ])
          (λ a task' when idx k. elim (Bool-cases (a == token)) [
            | inl same ↦
                let at_a : view
                      (api.get (api.put w.slab token (timeout (record e { task = task }))) a)
                    ≡ some (some (task, e.when, e.wheel_idx)) =
                  ap view (put_same a) ∙ rw same refl in
                let q = timer_fields (sym at_a ∙ k) in
                (
                  e.task,
                  ap (λ (x : ℕ). view (api.get w.slab x)) ((==_iff a token).0 same)
                      ∙ ap view at_token
                      ∙ ap (λ (x : ℕ). some (some (e.task, x, e.wheel_idx))) q.0
                      ∙ ap (λ (x : ℕ). some (some (e.task, when, x))) q.1,
                )
            | inr other ↦ (task', sym (ap view (put_same a) ∙ rw other refl) ∙ k)
          ])
          (put_same empty
            ∙ rw (ne→==_false empty token (λ k. cc (ap (λ (x : ℕ). api.get w.slab x) k, h.unused)))
                h.unused),
      λ a. ap view (put_same a) ∙ own a,
    )
      where
        self : (e.when == e.when) ≡ true
        self = (==_iff e.when e.when).1 refl

        own :
            (a : ℕ)
            → view
                (if a == token then some (timeout (record e { task = task })) else api.get w.slab a)
              ≡ (if a == token
                  then retasked e.when task (view (api.get w.slab a))
                  else view (api.get w.slab a))
        own a = elim (Bool-cases (a == token)) [
          | inl same ↦
              let k : api.get w.slab a ≡ some (timeout e) =
                ap (λ (x : ℕ). api.get w.slab x) ((==_iff a token).0 same) ∙ at_token in
              rw (same, k, self) refl
          | inr other ↦ rw other refl
        ]

  -- `move_timeout` keeps the wheel in order, and gives the timer of the token the other task if its
  -- time is the one that is asked for. Nothing else is touched, whatever the token is.
  pub move_timeout-Moved :
      (w : Wheel Store) {chain : ℕ → List ℕ} {seen rest : List ℕ} (token when task : ℕ)
      → IsWheel w chain seen rest
      → Moved w chain seen rest token when task (move_timeout w token when task)
  unfolding move_timeout
  move_timeout-Moved w {chain} {seen} {rest} token when task h = go (api.get w.slab token) refl
    where
      go :
          (o : Option Entry)
          → api.get w.slab token ≡ o
          → Moved w chain seen rest token when task (elim o [
            | none ↦ w
            | some reserved ↦ w
            | some (timeout e) ↦
                if e.when == when
                then record w { slab = api.put w.slab token (timeout (record e { task = task })) }
                else w
          ])
      go none k = unmoved w token when task h (rw k refl)
      go (some reserved) k = unmoved w token when task h (rw k refl)
      go (some (timeout e)) k = elim (Bool-cases (e.when == when)) [
        | inl same ↦ rw same (
            subst
              (λ (x : ℕ).
                Moved w chain seen rest token x task
                  (record w { slab = api.put w.slab token (timeout (record e { task = task })) }))
              ((==_iff e.when when).0 same) (put-Moved w token task e h k))
        | inr other ↦ rw other (unmoved w token when task h (rw (k, other) refl))
      ]
