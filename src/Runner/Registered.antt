-- ===== src/Runner/Registered.antt =====
-- src/runner.rs: `register` keeps the places in order.
use easyfibers.Prelude.{
  ℕ, ◌+◌, ◌≡◌, refl, ap, ◌∙◌, Bool, true, false, List, [], ◌∷◌, ◌++◌, Option, none, some, length,
  set, get_elem?, get_elem?_in, ==_iff, lt→ltb,
}
use easyfibers.Prelude.Outcome.{ok, ◌>>=◌}
use easyfibers.Prelude.Slice.{index, assign, or_panic}
use easyfibers.Wheel.Tokens.{has}
use easyfibers.Wheel.Cancel.Relink.{get_elem?-lt}
use easyfibers.Wheel.{Run}
use easyfibers.Poller
use easyfibers.Poller.Queues.{push_at_lem}
use easyfibers.Fiber.Net.{done, NetApi}
use easyfibers.Fiber.Sock.{FiberSock}
use easyfibers.Fiber.Int.{FiberInt, Registry}
use easyfibers.Runner.{
  World, fiber_at, modify, push_toexec, new_fiber, is_listener, listen, enlist, place, place_at,
  place_end, register,
}
use easyfibers.Runner.Places.{IsRunner, placed, Registered, reused, added}

module _ {Store : Type 0} where
  -- The place at the end of the queue of the runner, if it is to be scheduled.
  abbrev pub queued : Poller.PollerInt Store → ℕ → ℕ → Bool → List ℕ → Poller.PollerInt Store
  queued p runner pos true q = record p {
    toexec_fibers = set p.toexec_fibers runner (q ++ (pos ∷ []));
  }
  queued p runner pos false q = p

module _ ⦃net : NetApi⦄ {Store P R Func : Type 0} where
  enlist_lem :
      (w : World Store P R Func) (pos : ℕ) (schedule : Bool) (q : List ℕ)
      → get_elem? w.poller.toexec_fibers w.runner.pos ≡ some q
      → enlist w pos none schedule
        ≡ ok (done pos, record w { poller = queued w.poller w.runner.pos pos schedule q })
  unfolding enlist push_toexec Poller.toexec_push
  enlist_lem w pos true q e =
      rw
        (push_at_lem w.poller.toexec_fibers w.runner.pos q pos
          (get_elem?-lt w.poller.toexec_fibers w.runner.pos q e) e)
        refl
  enlist_lem w pos false q e = refl

  -- Another fiber in a place.
  abbrev pub changed : World Store P R Func → ℕ → FiberInt P R Func → World Store P R Func
  changed w pos f = record w { runner = record w.runner { fibers = set w.runner.fibers pos f } }

  pub modify_lem :
      (w : World Store P R Func) (pos : ℕ) (f : FiberInt P R Func)
      (change : FiberInt P R Func → FiberInt P R Func)
      → get_elem? w.runner.fibers pos ≡ some f
      → modify w pos change
        ≡ ok (record w { runner = record w.runner { fibers = set w.runner.fibers pos (change f) } })
  unfolding modify index assign
  modify_lem w pos f change e =
      rw (e, lt→ltb pos (length w.runner.fibers) (get_elem?-lt w.runner.fibers pos f e)) refl

  module _ ⦃registry : Registry⦄ (w : World Store P R Func) (h : IsRunner w.runner)
      (func : Option Func) (sock : FiberSock net) (param : Option P) (schedule : Bool) (q : List ℕ)
      (plain : is_listener sock ≡ false)
      (at_queue : get_elem? w.poller.toexec_fibers w.runner.pos ≡ some q) where
    -- The register of what is no listener returns a place.
    abbrev Places : Type 0
    Places =
        (pos : ℕ) × (fibers : List (FiberInt P R Func)) × (free : List ℕ) × (register w func sock
            param none schedule
          ≡ ok (
            done pos,
            record w {
              runner = record w.runner { fibers = fibers; free_fibers = free };
              poller = queued w.poller w.runner.pos pos schedule q;
            },
          ))
        × Registered w.runner func sock param pos fibers free

    listen_lem : (f : FiberInt P R Func) → is_listener f.sock ≡ false → listen f ≡ (done tt, f)
    unfolding listen
    listen_lem f plain = rw plain refl

    register_reused : (pos : ℕ) (free : List ℕ) → w.runner.free_fibers ≡ pos ∷ free → Places
    unfolding register fiber_at index
    register_reused pos free e =
        let lt = h.places pos (ap (has pos) e ∙ rw ((==_iff pos pos).1 refl) refl) in
        let (old, at_pos) = get_elem?_in w.runner.fibers pos lt in
        let f = placed w.runner func sock param pos (old.generation + 1) in
        let w1 = record w { runner = record w.runner { free_fibers = free } } in
        let w2 = record w1 { runner = record w1.runner { fibers = set w.runner.fibers pos f } } in
        let popped = ap (place w (new_fiber w.runner.pos func sock param none) none schedule) e in
        let found =
          ap
            (λ (o : Option (FiberInt P R Func)). or_panic o >>= λ (x : FiberInt P R Func).
              place_at w1 pos none schedule
                (listen (placed w.runner func sock param pos (x.generation + 1))))
            at_pos in
        let listened = ap (place_at w1 pos none schedule) (listen_lem f plain) in
        let stored =
          ap (λ (m : Run (World Store P R Func)). m >>= λ x. enlist x pos none schedule)
            (modify_lem w1 pos old (λ _. f) at_pos) in
        (
          pos,
          set w.runner.fibers pos f,
          free,
          popped ∙ found ∙ listened ∙ stored ∙ enlist_lem w2 pos schedule q at_queue,
          reused w.runner func sock param pos free old h e at_pos,
        )

    register_added : w.runner.free_fibers ≡ [] → Places
    unfolding register
    register_added e =
        let pos = length w.runner.fibers in
        let f = placed w.runner func sock param pos 0 in
        let w1 = record w { runner = record w.runner { fibers = w.runner.fibers ++ (f ∷ []) } } in
        let popped = ap (place w (new_fiber w.runner.pos func sock param none) none schedule) e in
        let listened = ap (place_end w none schedule) (listen_lem f plain) in
        let free =
          ap
            (λ (l : List ℕ). ok (
              done pos,
              record w {
                runner = record w.runner { fibers = w.runner.fibers ++ (f ∷ []); free_fibers = l };
                poller = queued w.poller w.runner.pos pos schedule q;
              },
            ))
            e in
        (
          pos,
          w.runner.fibers ++ (f ∷ []),
          [],
          popped ∙ listened ∙ enlist_lem w1 pos schedule q at_queue ∙ free,
          added w.runner func sock param h e,
        )

    -- `register` of a fiber with no parent, on what is no listener, returns a place for it and never
    -- panics: the place was free or is new, is not free any more, and holds the fiber with its own
    -- id, in the generation after that of the place, or 0 in a new one; no other fiber is touched, the
    -- free places stay distinct places, and the place is behind the queue of the runner if it is to
    -- be scheduled. The runner is in order and has a queue.
    pub register-Registered :
        (pos : ℕ) × (fibers : List (FiberInt P R Func)) × (free : List ℕ) × (register w func sock
            param none schedule
          ≡ ok (
            done pos,
            record w {
              runner = record w.runner { fibers = fibers; free_fibers = free };
              poller = queued w.poller w.runner.pos pos schedule q;
            },
          ))
        × Registered w.runner func sock param pos fibers free
    register-Registered = go w.runner.free_fibers refl
      where
        go : (free : List ℕ) → w.runner.free_fibers ≡ free → Places
        go [] e = register_added e
        go (pos ∷ free) e = register_reused pos free e
