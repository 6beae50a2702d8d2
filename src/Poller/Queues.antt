-- ===== src/Poller/Queues.antt =====
-- src/poller.rs: what the queues of the runners hold once ids were pushed.
use easyfibers.Prelude.{
  ℕ, ◌<◌, ◌≡◌, ◌≢◌, refl, sym, ap, subst, ◌∙◌, List, [], ◌∷◌, ◌++◌, some, length, length-set, set,
  get_elem?, get_elem?_in, get_elem?-set_self, get_elem?-set_ne, All, arith, inl, inr, ◌==◌, ==_iff,
  Bool-cases, if◌then◌else◌, lt→ltb,
}
use mathlib.Core.Path.{fun_ext}
use mathlib.Core.List.{append_assoc, append-nil}
use easyfibers.Prelude.Outcome.{ok, ◌>>=◌}
use easyfibers.Dns.{IpAddr}
use easyfibers.Wheel.{Run}
use easyfibers.Prelude.Slice.{index, assign}
use easyfibers.Poller.{Lookup, split_id, push_at, push_ids, push_lookups}

-- The positions of one runner's ids, in order.
unfoldable pub positions : ℕ → List ℕ → List ℕ
positions runner [] = []
positions runner (id ∷ ids) =
    let rest = positions runner ids in
    if (split_id id).0 == runner then (split_id id).1 ∷ rest else rest

module _ {A : Type 0} where
  -- A push to a queue that is there puts the item at its end and leaves the others.
  pub push_at_lem :
      (queues : List (List A)) (runner : ℕ) (q : List A) (x : A)
      → runner < length queues
      → get_elem? queues runner ≡ some q
      → push_at queues runner x ≡ ok (set queues runner (q ++ (x ∷ [])))
  unfolding push_at index assign
  push_at_lem queues runner q x h e = rw (e, lt→ltb runner (length queues) h) refl

-- Items that go to queues, one after the other.
pub push_all : {A : Type 0} → List (List A) → List (ℕ × A) → Run (List (List A))
push_all queues [] = ok queues
push_all queues ((runner, x) ∷ items) = do queues ← push_at queues runner x; push_all queues items

-- Those of one runner, in order.
abbrev pub sent : {A : Type 0} → ℕ → List (ℕ × A) → List A
sent runner [] = []
sent runner ((r, x) ∷ items) =
    let rest = sent runner items in if r == runner then x ∷ rest else rest

abbrev pub InRange : {A : Type 0} → ℕ → List (ℕ × A) → Type 0
InRange n items = All (λ item. item.0 < n) items

module _ {A : Type 0} where
  -- One queue, seen from any runner, after a push to the queue of the runner `r`.
  pushed-one :
      (queues : List (List A)) (r : ℕ) (x : A) (runner : ℕ) (q0 q rest : List A)
      → r < length queues
      → get_elem? queues r ≡ some q0
      → get_elem? queues runner ≡ some q
      → (q' : List A) × (get_elem? (set queues r (q0 ++ (x ∷ []))) runner ≡ some q')
        × (q' ++ rest ≡ q ++ (if r == runner then x ∷ rest else rest))
  pushed-one queues r x runner q0 q rest h e0 e = elim (Bool-cases (r == runner)) [
    | inl same ↦
        let k = (==_iff r runner).0 same in
        let eq : q0 ≡ q = cc in
        (
          q0 ++ (x ∷ []),
          rw (← k) (get_elem?-set_self queues r (q0 ++ (x ∷ [])) h),
          rw (same, eq) (append_assoc q (x ∷ []) rest),
        )
    | inr other ↦
        let ne : r ≢ runner = ground arith in
        (q, get_elem?-set_ne queues (q0 ++ (x ∷ [])) ne ∙ e, rw other)
  ]

  -- What pushes leave: as many queues, each with its own items behind what it held.
  abbrev pub Pushed : List (List A) → List (ℕ × A) → List (List A) → Type 0
  Pushed queues items queues' =
      (length queues' ≡ length queues)
      × ((runner : ℕ) (q : List A)
          → get_elem? queues runner ≡ some q
          → get_elem? queues' runner ≡ some (q ++ sent runner items))

  pub push_all-Pushed :
      (items : List (ℕ × A)) (queues : List (List A))
      → InRange (length queues) items
      → (queues' : List (List A)) × (push_all queues items ≡ ok queues')
        × Pushed queues items queues'
  unfolding push_all
  push_all-Pushed [] queues h = (queues, refl, (refl, λ runner q e. rw append-nil e))
  push_all-Pushed ((r, x) ∷ items) queues (here, h) =
      let (q0, e0) = get_elem?_in queues r here in
      let next = set queues r (q0 ++ (x ∷ [])) in
      let l : length next ≡ length queues = length-set queues r (q0 ++ (x ∷ [])) in
      let (queues', e, (l', at)) =
        push_all-Pushed items next (subst (λ n. InRange n items) (sym l) h) in
      (
        queues',
        rw (push_at_lem queues r q0 x here e0) e,
        (
          l' ∙ l,
          λ runner q eq.
              let (q', e', k) = pushed-one queues r x runner q0 q (sent runner items) here e0 eq in
              at runner q' e' ∙ ap some k,
        ),
      )

-- The loop over ids is pushes of their positions, and that over lookups is pushes of what was found.
abbrev pub addressed : List ℕ → List (ℕ × ℕ)
addressed [] = []
addressed (id ∷ ids) = split_id id ∷ addressed ids

abbrev pub answered : List (ℕ × ℕ × IpAddr) → List (ℕ × Lookup)
answered [] = []
answered ((id, gen, addr) ∷ found) =
    ((split_id id).0, ((split_id id).1, gen, addr)) ∷ answered found

pub push_ids-push_all :
    (ids : List ℕ) (queues : List (List ℕ)) → push_ids queues ids ≡ push_all queues (addressed ids)
unfolding push_ids push_all
push_ids-push_all [] queues = refl
push_ids-push_all (id ∷ ids) queues =
    ap (λ next. push_at queues (split_id id).0 (split_id id).1 >>= next)
      (fun_ext (push_ids-push_all ids))

pub push_lookups-push_all :
    (found : List (ℕ × ℕ × IpAddr)) (queues : List (List Lookup))
    → push_lookups queues found ≡ push_all queues (answered found)
unfolding push_lookups push_all
push_lookups-push_all [] queues = refl
push_lookups-push_all ((id, gen, addr) ∷ found) queues =
    ap (λ next. push_at queues (split_id id).0 ((split_id id).1, gen, addr) >>= next)
      (fun_ext (push_lookups-push_all found))

pub sent-addressed :
    (runner : ℕ) (ids : List ℕ) → sent runner (addressed ids) ≡ positions runner ids
unfolding positions
sent-addressed runner [] = refl
sent-addressed runner (id ∷ ids) =
    ap (λ rest. if (split_id id).0 == runner then (split_id id).1 ∷ rest else rest)
      (sent-addressed runner ids)

pub addressed-InRange :
    (ids : List ℕ) (n : ℕ) → All (λ id. (split_id id).0 < n) ids → InRange n (addressed ids)
addressed-InRange [] n h = tt
addressed-InRange (id ∷ ids) n (here, h) = (here, addressed-InRange ids n h)

-- Ids of runners that have a queue are pushed without a panic. Each queue has, behind what it held,
-- the positions of its own runner's ids, in the order of the ids.
pub push_ids-positions :
    (ids : List ℕ) (queues : List (List ℕ))
    → All (λ id. (split_id id).0 < length queues) ids
    → (queues' : List (List ℕ)) × (push_ids queues ids ≡ ok queues')
      × (length queues' ≡ length queues)
      × ((runner : ℕ) (q : List ℕ)
          → get_elem? queues runner ≡ some q
          → get_elem? queues' runner ≡ some (q ++ positions runner ids))
push_ids-positions ids queues h =
    let (queues', e, (l, at)) =
      push_all-Pushed (addressed ids) queues (addressed-InRange ids (length queues) h) in
    (
      queues',
      push_ids-push_all ids queues ∙ e,
      l,
      λ runner q k. at runner q k ∙ ap (λ rest. some (q ++ rest)) (sent-addressed runner ids),
    )
