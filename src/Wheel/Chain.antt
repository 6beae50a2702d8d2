-- ===== src/Wheel/Chain.antt =====
-- src/wheel.rs: the list that the entries of a slot form by `prev` and `next`, as a segment of a
-- memory of entries, with no slab and no wheel.
use easyfibers.Prelude.{
  ℕ, ◌≡◌, ◌≢◌, refl, sym, ap, subst, ◌∙◌, true, false, List, [], ◌∷◌, ◌++◌, Option, some, ◌==◌,
  ==_iff, arith, if◌then◌else◌, inl, inr, Bool-cases,
}
use easyfibers.Wheel.Tokens.{has, has-ne, IsNodup}
use easyfibers.Wheel.Slab.{Entry, Timeout, timeout}

abbrev pub Memory : Type 0
Memory = ℕ → Option Entry

abbrev pub write : Memory → ℕ → Option Entry → Memory
write mem t o u = if u == t then o else mem u

-- From `head`, whose `prev` is `before`, the entries of the slot `idx` lead through `ts`. The last of
-- them is `last` (`before` if there is none) and its `next` is `next`.
pub data Seg (mem : Memory) (idx last next : ℕ) : ℕ → ℕ → List ℕ → Type 0 where
  nil : {before head : ℕ} → before ≡ last → head ≡ next → Seg mem idx last next before head []
  cons :
      {before head t : ℕ} {ts : List ℕ} {v : Timeout}
      → head ≡ t
      → mem t ≡ some (timeout v)
      → v.wheel_idx ≡ idx
      → v.prev ≡ before
      → Seg mem idx last next t v.next ts
      → Seg mem idx last next before head (t ∷ ts)

pub write_self : (mem : Memory) (t : ℕ) (o : Option Entry) → write mem t o t ≡ o
write_self mem t o = ground arith

pub write_ne : (mem : Memory) (t a : ℕ) (o : Option Entry) → a ≢ t → write mem t o a ≡ mem a
write_ne mem t a o h = ground arith

module _ {mem : Memory} {idx : ℕ} where
  -- A segment survives every change that spares its own entries.
  pub Seg-frame :
      {mem' : Memory} {last next before head : ℕ} {ts : List ℕ}
      → Seg mem idx last next before head ts
      → ((a : ℕ) → has a ts ≡ true → mem' a ≡ mem a)
      → Seg mem' idx last next before head ts
  Seg-frame (nil l n) same = nil l n
  Seg-frame (cons {t} {v} h e i p s) same =
      cons {v = v} h (same t (ground arith) ∙ e) i p (Seg-frame s λ a m. same a (ground arith))

  pub Seg-split :
      {last next before head : ℕ} {ys : List ℕ} (xs : List ℕ)
      → Seg mem idx last next before head (xs ++ ys)
      → (m : ℕ) × (n : ℕ) × Seg mem idx m n before head xs × Seg mem idx last next m n ys
  Seg-split {before} {head} [] s = (before, head, nil refl refl, s)
  Seg-split (x ∷ xs) (cons h e i p s) =
      let (m, n, front, back) = Seg-split xs s in (m, n, cons h e i p front, back)

  pub Seg-join :
      {last next m n before head : ℕ} {xs ys : List ℕ}
      → Seg mem idx m n before head xs
      → Seg mem idx last next m n ys
      → Seg mem idx last next before head (xs ++ ys)
  Seg-join {last} {next} {m} {head} {ys} (nil l k) s =
      subst (λ b. Seg mem idx last next b head ys) (sym l)
        (subst (λ h. Seg mem idx last next m h ys) (sym k) s)
  Seg-join (cons h e i p front) s = cons h e i p (Seg-join front s)

  pub Seg-entry :
      {last next before head : ℕ} {ts : List ℕ} (a : ℕ)
      → Seg mem idx last next before head ts
      → has a ts ≡ true
      → (v : Timeout) × (mem a ≡ some (timeout v)) × (v.wheel_idx ≡ idx)
  Seg-entry a (nil l n) h = cc
  Seg-entry a (cons {t} {v} h e i p s) m = elim (Bool-cases (a == t)) [
    | inl same ↦ (v, rw ((==_iff a t).0 same) e, i)
    | inr other ↦ Seg-entry a s (rw other at m)
  ]

  -- The last entry of a segment that has one.
  pub Seg-last :
      {last next before head x : ℕ} (xs : List ℕ)
      → Seg mem idx last next before head (x ∷ xs)
      → (has last (x ∷ xs) ≡ true)
        × ((v : Timeout) × (mem last ≡ some (timeout v)) × (v.wheel_idx ≡ idx) × (v.next ≡ next))
  Seg-last [] (cons {t} {v} h e i p (nil l n)) = (
    subst (λ a. has a (t ∷ []) ≡ true) l (ground arith),
    (v, subst (λ a. mem a ≡ some (timeout v)) l e, i, n),
  )
  Seg-last (y ∷ ys) (cons h e i p s) = let (m, r) = Seg-last ys s in (ground arith, r)

  -- The first entry gets another `prev`.
  pub relink_prev :
      {last next before head y : ℕ} {ys : List ℕ} (u : Timeout) (b : ℕ)
      → mem y ≡ some (timeout u)
      → has y ys ≡ false
      → Seg mem idx last next before head (y ∷ ys)
      → Seg (write mem y (some (timeout (record u { prev = b })))) idx last next b head (y ∷ ys)
  relink_prev {last} {next} {y} {ys} u b at_y out (cons {v} h e i p s) =
      let mem' = write mem y (some (timeout (record u { prev = b }))) in
      let same : v ≡ u = cc in
      let s' : Seg mem idx last next y u.next ys =
        subst (λ (w : Timeout). Seg mem idx last next y w.next ys) same s in
      cons {v = record u { prev = b }} h (write_self mem y _)
        (sym (ap (λ (w : Timeout). w.wheel_idx) same) ∙ i) refl
        (Seg-frame s' λ a m. write_ne mem y a _ (has-ne a y ys m out))

  -- The last entry gets another `next`.
  pub relink_next :
      {last next before head x : ℕ} (xs : List ℕ) (u : Timeout) (n : ℕ)
      → mem last ≡ some (timeout u)
      → IsNodup (x ∷ xs)
      → Seg mem idx last next before head (x ∷ xs)
      → Seg
          (write mem last (some (timeout (record u { next = n }))))
          idx
          last
          n
          before
          head
          (x ∷ xs)
  relink_next {last} [] u n at_last d (cons {t} {v} h e i p (nil l k)) =
      let mem' = write mem last (some (timeout (record u { next = n }))) in
      let same : v ≡ u = cc (ap mem l) in
      cons {v = record u { next = n }} h
        (subst (λ a. mem' a ≡ some (timeout (record u { next = n }))) (sym l)
          (write_self mem last _))
        (sym (ap (λ (w : Timeout). w.wheel_idx) same) ∙ i)
        (sym (ap (λ (w : Timeout). w.prev) same) ∙ p) (nil l refl)
  relink_next {last} (y ∷ ys) u n at_last (out, d) (cons {t} {v} h e i p s) =
      let (m, _) = Seg-last ys s in
      let ne : t ≢ last = λ q. has-ne last t (y ∷ ys) m out (sym q) in
      cons {v = v} h (write_ne mem last t _ ne ∙ e) i p (relink_next ys u n at_last d s)
