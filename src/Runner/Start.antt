-- ===== src/Runner/Start.antt =====
-- src/runner.rs and src/tls.c: the runners of a thread. The table of tls.c holds a runner or nothing
-- at each position; of the poller it is known whether there is one.
use easyfibers.Prelude.{
  ℕ, zero, suc, ◌+◌, ◌<◌, ◌≡◌, refl, ap, subst, Bool, true, false, List, [], ◌∷◌, Option, none,
  some, length, set, get_elem?, arith, if◌then◌else◌,
}
use easyfibers.Fiber.Net.{other, IoResult, done, failed, NetApi}
use easyfibers.Runner.{RunnerInt}
use easyfibers.Runner.Api

set-back :
    {A : Type 0} (xs : List A) (i : ℕ) (x y : A)
    → get_elem? xs i ≡ some x
    → set (set xs i y) i x ≡ xs
set-back [] i x y e = cc
set-back (a ∷ xs) zero x y e = cc
set-back (a ∷ xs) (suc i) x y e = ap (λ l. a ∷ l) (set-back xs i x y e)

module _ ⦃net : NetApi⦄ (P R Func : Type 0) where
  pub record Thread : Type 0 where
    pub has_poller : Bool
    pub runners : List (Option (RunnerInt P R Func))

module _ ⦃net : NetApi⦄ {P R Func : Type 0} where
  -- The loop of `find_empty` from the position `i` on; `none` is -1.
  unfoldable pub find_from : List (Option (RunnerInt P R Func)) → ℕ → Option ℕ
  find_from [] i = none
  find_from (none ∷ runners) i = some i
  find_from (some _ ∷ runners) i = find_from runners (i + 1)

  unfoldable pub find_empty : Thread P R Func → Option ℕ
  find_empty t = find_from t.runners 0

  unfoldable pub set_runner : Thread P R Func → ℕ → Option (RunnerInt P R Func) → Thread P R Func
  set_runner t pos r = record t { runners = set t.runners pos r }

  unfoldable pub start_runner : Thread P R Func → IoResult ℕ × Thread P R Func
  start_runner t =
      if t.has_poller
      then elim (find_empty t) [
        | none ↦ (failed other, t)
        | some pos ↦ (done pos, set_runner t pos (some (Api.new pos)))
      ]
      else (failed other, t)

  -- `Runner::drop`
  unfoldable pub drop_runner : Thread P R Func → ℕ → Thread P R Func
  drop_runner t pos = set_runner t pos none

  -- The position holds a runner.
  abbrev Used : List (Option (RunnerInt P R Func)) → ℕ → Type 0
  Used runners i = (r : RunnerInt P R Func) × (get_elem? runners i ≡ some (some r))

  -- The first position with no runner.
  pub record IsFirst (runners : List (Option (RunnerInt P R Func))) (pos : ℕ) : Type 0 where
    pub free : get_elem? runners pos ≡ some none
    pub used : (i : ℕ) → i < pos → (r : RunnerInt P R Func) × (get_elem? runners i ≡ some (some r))

  abbrev AllUsed : List (Option (RunnerInt P R Func)) → Type 0
  AllUsed runners = (i : ℕ) → i < length runners → Used runners i

  Used-later :
      (r : RunnerInt P R Func) (runners : List (Option (RunnerInt P R Func))) (n : ℕ)
      → ((i : ℕ) → i < n → Used runners i)
      → (i : ℕ) → i < suc n
      → Used (some r ∷ runners) i
  Used-later r runners n used zero lt = (r, refl)
  Used-later r runners n used (suc i) lt = used i (omega arith)

  -- What is found is the first free position, and nothing is found where all are used.
  pub data Finds (runners : List (Option (RunnerInt P R Func))) (i : ℕ) : Option ℕ → Type 0 where
    full : AllUsed runners → Finds runners i none
    first : (k : ℕ) → IsFirst runners k → Finds runners i (some (i + k))

  Finds-later :
      {r : RunnerInt P R Func} {runners : List (Option (RunnerInt P R Func))} {i : ℕ} {o : Option ℕ}
      → Finds runners (i + 1) o
      → Finds (some r ∷ runners) i o
  Finds-later {r} {runners} {i} (full used) = full (Used-later r runners (length runners) used)
  Finds-later {r} {runners} {i} (first k found) =
      let same : i + suc k ≡ i + 1 + k = omega arith in
      rw (← same)
        (first (suc k) (record { free = found.free; used = Used-later r runners k found.used }))

  find_from-Finds :
      (runners : List (Option (RunnerInt P R Func))) (i : ℕ) → Finds runners i (find_from runners i)
  unfolding find_from
  find_from-Finds [] i = full (λ j lt. absurd (omega arith))
  find_from-Finds (none ∷ runners) i =
      let same : i + 0 ≡ i = omega arith in
      subst (λ (n : ℕ). Finds (none ∷ runners) i (some n)) same
        (first 0 (record { free = refl; used = λ j lt. absurd (omega arith) }))
  find_from-Finds (some r ∷ runners) i = Finds-later (find_from-Finds runners (i + 1))

  -- What `start_runner` leaves of a thread.
  pub data Started (t : Thread P R Func) : IoResult ℕ × Thread P R Func → Type 0 where
    no_poller : t.has_poller ≡ false → Started t (failed other, t)
    no_space :
        t.has_poller ≡ true
        → ((i : ℕ)
            → i < length t.runners
            → (r : RunnerInt P R Func) × (get_elem? t.runners i ≡ some (some r)))
        → Started t (failed other, t)
    started :
        (pos : ℕ)
        → t.has_poller ≡ true
        → IsFirst t.runners pos
        → Started t (done pos, record t { runners = set t.runners pos (some (Api.new pos)) })

  found-Started :
      (t : Thread P R Func) (o : Option ℕ)
      → t.has_poller ≡ true
      → Finds t.runners 0 o
      → Started t (elim o [
        | none ↦ (failed other, t)
        | some pos ↦ (done pos, set_runner t pos (some (Api.new pos)))
      ])
  unfolding set_runner
  found-Started t none polled (full used) = no_space polled used
  found-Started t (some pos) polled (first k found) =
      let same : k ≡ 0 + k = omega arith in
      started pos polled (subst (IsFirst t.runners) same found)

  -- A runner that is started has the first position of the table that was free, and is as new there,
  -- while every other one is as it was; the thread has a poller then. It is an error, and nothing is
  -- changed, where the thread has no poller, or where it has one and each position of the table has
  -- a runner.
  pub start_runner-Started : (t : Thread P R Func) → Started t (start_runner t)
  unfolding start_runner find_empty
  start_runner-Started t = go t.has_poller refl
    where
      go :
          (b : Bool)
          → t.has_poller ≡ b
          → Started t (
              if b
              then elim (find_from t.runners 0) [
                | none ↦ (failed other, t)
                | some pos ↦ (done pos, set_runner t pos (some (Api.new pos)))
              ]
              else (failed other, t))
      go true e = found-Started t (find_from t.runners 0) e (find_from-Finds t.runners 0)
      go false e = no_poller e

  -- A runner that is started and dropped leaves the table as it was.
  pub drop_runner-start_runner :
      (t : Thread P R Func) (pos : ℕ) (t' : Thread P R Func)
      → start_runner t ≡ (done pos, t')
      → drop_runner t' pos ≡ t
  unfolding drop_runner set_runner
  drop_runner-start_runner t pos t' e = go (start_runner-Started t) e
    where
      go :
          {x : IoResult ℕ × Thread P R Func}
          → Started t x
          → x ≡ (done pos, t')
          → record t' { runners = set t'.runners pos none } ≡ t
      go (no_poller b) k = cc (ap (λ x. x.0) k)
      go (no_space polled used) k = cc (ap (λ x. x.0) k)
      go (started p polled found) k =
          let same : p ≡ pos = cc (ap (λ x. x.0) k) in
          let base =
            ap (λ (l : List (Option (RunnerInt P R Func))). record t { runners = l })
              (set-back t.runners p none (some (Api.new p)) found.free) in
          subst (λ (q : ℕ). record t' { runners = set t'.runners q none } ≡ t) same
            (subst (λ (u : Thread P R Func). record u { runners = set u.runners p none } ≡ t)
              (ap (λ x. x.1) k) base)
