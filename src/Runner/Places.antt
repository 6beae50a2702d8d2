-- ===== src/Runner/Places.antt =====
-- src/runner.rs: the places of fibers, of which `free_fibers` lists the free ones.
use easyfibers.Prelude.{
  ℕ, zero, suc, ◌+◌, ◌<◌, ◌≡◌, ◌≢◌, refl, sym, ap, subst, ◌∙◌, true, false, ◌⊎◌, List, [], ◌∷◌,
  ◌++◌, Option, none, some, length, set, length-set, get_elem?, get_elem?-set_self,
  get_elem?-set_ne, arith, ◌==◌, ==_iff, Bool-cases, inl, inr,
}
use easyfibers.Wheel.Tokens.{has, IsNodup}
use easyfibers.Wheel.Cancel.Relink.{get_elem?-lt}
use easyfibers.Poller
use easyfibers.Fiber.Net.{NetApi}
use easyfibers.Fiber.Sock.{FiberSock}
use easyfibers.Fiber.Int.{FiberInt, nothing, unstacked}
use easyfibers.Runner.{RunnerInt}

module _ {A : Type 0} where
  get_elem?-append_self : (xs : List A) (x : A) → get_elem? (xs ++ (x ∷ [])) (length xs) ≡ some x
  get_elem?-append_self [] x = refl
  get_elem?-append_self (y ∷ xs) x = get_elem?-append_self xs x

  get_elem?-append_ne :
      (xs : List A) (x : A) (i : ℕ) → i ≢ length xs → get_elem? (xs ++ (x ∷ [])) i ≡ get_elem? xs i
  get_elem?-append_ne [] x zero ne = absurd (ne refl)
  get_elem?-append_ne [] x (suc i) ne = refl
  get_elem?-append_ne (y ∷ xs) x zero ne = refl
  get_elem?-append_ne (y ∷ xs) x (suc i) ne = get_elem?-append_ne xs x i (λ k. ne (ap suc k))

module _ ⦃net : NetApi⦄ {P R Func : Type 0} where
  -- The free places are places, none of them twice, and each fiber knows its id.
  pub record IsRunner (r : RunnerInt P R Func) : Type 0 where
    pub places : (a : ℕ) → has a r.free_fibers ≡ true → a < length r.fibers
    pub distinct : IsNodup r.free_fibers
    pub ids :
        (i : ℕ) (f : FiberInt P R Func)
        → get_elem? r.fibers i ≡ some f
        → f.me ≡ Poller.fiber_id r.pos i

  -- The fiber of a new registration.
  abbrev pub placed :
      RunnerInt P R Func → Option Func → FiberSock net → Option P → ℕ → ℕ → FiberInt P R Func
  placed r func sock param pos gen = record {
    runner = r.pos;
    ready = nothing;
    param = param;
    state = unstacked;
    me = Poller.fiber_id r.pos pos;
    generation = gen;
    func = func;
    connect_param = none;
    sock = sock;
    t = false;
    stack = none;
    parent = none;
    children = [];
    result = none;
    wtoken = none;
    timeout = some 20_000_000_000;
    timed_out = 0;
  }

  -- What `register` leaves of the runner `r`: the fiber has the place `pos`, which was free or is
  -- new, and is not free any more, in the generation after the one that the place had, or 0; all other fibers are untouched.
  pub record Registered (r : RunnerInt P R Func) (func : Option Func) (sock : FiberSock net)
      (param : Option P) (pos : ℕ) (fibers : List (FiberInt P R Func)) (free : List ℕ)
      : Type 0 where
    pub gen : ℕ
    pub order : IsRunner (record r { fibers = fibers; free_fibers = free })
    pub vacant : (has pos r.free_fibers ≡ true) ⊎ (pos ≡ length r.fibers)
    pub taken : has pos free ≡ false
    pub here : get_elem? fibers pos ≡ some (placed r func sock param pos gen)
    pub renewed : (f : FiberInt P R Func) → get_elem? r.fibers pos ≡ some f → gen ≡ f.generation + 1
    pub fresh : get_elem? r.fibers pos ≡ none → gen ≡ 0
    pub others : (i : ℕ) → i ≢ pos → get_elem? fibers i ≡ get_elem? r.fibers i

  -- The first free place is taken.
  pub reused :
      (r : RunnerInt P R Func) (func : Option Func) (sock : FiberSock net) (param : Option P)
      (pos : ℕ) (free : List ℕ) (old : FiberInt P R Func)
      → IsRunner r
      → r.free_fibers ≡ pos ∷ free
      → get_elem? r.fibers pos ≡ some old
      → Registered r func sock param pos
          (set r.fibers pos (placed r func sock param pos (old.generation + 1)))
          free
  reused r func sock param pos free old h e at_pos =
      let f = placed r func sock param pos (old.generation + 1) in
      let (out, d) = subst IsNodup e h.distinct in
      let lt = get_elem?-lt r.fibers pos old at_pos in
      let here = get_elem?-set_self r.fibers pos f lt in
      let others = λ (i : ℕ) (ne : i ≢ pos). get_elem?-set_ne r.fibers f (λ k. ne (sym k)) in
      record {
        gen = old.generation + 1;
        order = record {
          places = λ a m.
              omega (arith, length-set r.fibers pos f, h.places a (ap (has a) e ∙ behind a m));
          distinct = d;
          ids = λ i g at_i. elim (Bool-cases (i == pos)) [
            | inl same ↦
                let k = (==_iff i pos).0 same in
                let q : g ≡ f = cc (ap (get_elem? (set r.fibers pos f)) k, here) in
                ap (λ (x : FiberInt P R Func). x.me) q ∙ ap (Poller.fiber_id r.pos) (sym k)
            | inr other ↦ let ne : i ≢ pos = ground arith in h.ids i g (sym (others i ne) ∙ at_i)
          ];
        };
        vacant = inl (ap (has pos) e ∙ rw ((==_iff pos pos).1 refl) refl);
        taken = out;
        here = here;
        renewed =
            λ g at_g. let q : old ≡ g = cc in ap (λ (x : FiberInt P R Func). x.generation + 1) q;
        fresh = λ e. cc;
        others = others;
      }
    where
      behind : (a : ℕ) → has a free ≡ true → has a (pos ∷ free) ≡ true
      behind a m = ground arith

  -- No place is free: there is a new one.
  pub added :
      (r : RunnerInt P R Func) (func : Option Func) (sock : FiberSock net) (param : Option P)
      → IsRunner r
      → r.free_fibers ≡ []
      → Registered r func sock param
          (length r.fibers)
          (r.fibers ++ (placed r func sock param (length r.fibers) 0 ∷ []))
          []
  added r func sock param h e =
      let pos = length r.fibers in
      let f = placed r func sock param pos 0 in
      let here = get_elem?-append_self r.fibers f in
      let others = λ (i : ℕ) (ne : i ≢ pos). get_elem?-append_ne r.fibers f i ne in
      record {
        gen = 0;
        order = record {
          places = λ a m. cc;
          distinct = tt;
          ids = λ i g at_i. elim (Bool-cases (i == pos)) [
            | inl same ↦
                let k = (==_iff i pos).0 same in
                let q : g ≡ f = cc (ap (get_elem? (r.fibers ++ (f ∷ []))) k, here) in
                ap (λ (x : FiberInt P R Func). x.me) q ∙ ap (Poller.fiber_id r.pos) (sym k)
            | inr other ↦ let ne : i ≢ pos = ground arith in h.ids i g (sym (others i ne) ∙ at_i)
          ];
        };
        vacant = inr refl;
        taken = refl;
        here = here;
        renewed = λ g at_g. absurd (omega (arith, get_elem?-lt r.fibers pos g at_g));
        fresh = λ e. refl;
        others = others;
      }
