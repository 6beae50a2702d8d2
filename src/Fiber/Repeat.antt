-- ===== src/Fiber/Repeat.antt =====
-- src/fiber.rs: `write_bufs` on a TLS socket, with a small buffer.
use easyfibers.Prelude.{
  ℕ, zero, suc, ◌+◌, ◌≤◌, ◌<◌, ◌≡◌, refl, ap, ◌∙◌, true, false, List, ◌∷◌, ◌++◌, length, arith, ltb,
  lt→ltb, le→ltb_false, ne→==_false, take, drop, length-take, length-drop, length-append,
  Bool-cases, inl, inr,
}
use easyfibers.Prelude.Outcome.{ok, stuck}
use easyfibers.Prelude.Slice.{index, slice, splice}
use easyfibers.Fiber.Net.{IoResult, done, NetApi}
use easyfibers.Fiber.Sock.{tls, write_loop, write_bufs}

length-splice :
    (xs s : List ℕ) (i : ℕ)
    → i + length s ≤ length xs
    → length (splice xs i (i + length s) s) ≡ length xs
unfolding splice
length-splice xs s i h =
    length-append (take i xs ++ s) (drop (i + length s) xs)
    ∙ omega (arith, length-append (take i xs) s, length-take i xs, length-drop (i + length s) xs)

slice-front : (xs : List ℕ) (n : ℕ) → n ≤ length xs → slice {E = ⊥} xs 0 n ≡ ok (take n xs)
unfolding slice
slice-front xs n h = ground arith

module _ ⦃net : NetApi⦄
    (accepts : (t : net.Tls) (s : List ℕ)
      → (t' : net.Tls) × (net.tls_write t s ≡ (done (length s), t')))
    (b : List ℕ) (bufs : List (List ℕ)) (small : length b < 4096) where
  -- The buffer is copied, and the loop stays at it.
  copy_step :
      (fuel : ℕ) (t : net.Tls) (tmp : List ℕ) (wpos sz : ℕ)
      → ltb (wpos + length b) (length tmp) ≡ true
      → write_loop (suc fuel) t tmp (b ∷ bufs) wpos sz 0
        ≡ write_loop fuel t (splice tmp wpos (wpos + length b) b) (b ∷ bufs) (wpos + length b) sz 0
  unfolding write_loop index
  copy_step fuel t tmp wpos sz fits =
      rw (lt→ltb 0 (suc (length bufs)) (omega arith), lt→ltb (length b) 4096 small, fits) refl

  -- What was copied is sent, and the loop stays at the buffer.
  send_step :
      (fuel : ℕ) (t t' : net.Tls) (tmp : List ℕ) (wpos sz : ℕ)
      → ltb (wpos + length b) (length tmp) ≡ false
      → 0 < wpos
      → wpos ≤ length tmp
      → net.tls_write t (take wpos tmp) ≡ (done wpos, t')
      → write_loop (suc fuel) t tmp (b ∷ bufs) wpos sz 0
        ≡ write_loop fuel t' tmp (b ∷ bufs) 0 (sz + wpos) 0
  unfolding write_loop index
  send_step fuel t t' tmp wpos sz full pos low sent =
      rw
        (
          lt→ltb 0 (suc (length bufs)) (omega arith),
          lt→ltb (length b) 4096 small,
          full,
          lt→ltb 0 wpos pos,
          slice-front tmp wpos low,
          sent,
          ne→==_false wpos 0 (λ k. omega arith),
          lt→ltb 0 wpos pos,
          le→ltb_false wpos wpos (omega arith),
        )
        (ap (λ (x : net.Tls). write_loop fuel x tmp (b ∷ bufs) 0 (sz + wpos) 0)
          (ap (λ (p : IoResult ℕ × net.Tls). p.1) sent))

  write_loop-stuck :
      (fuel : ℕ) (t : net.Tls) (tmp : List ℕ) (wpos sz : ℕ)
      → length b < length tmp
      → wpos ≤ length tmp
      → write_loop fuel t tmp (b ∷ bufs) wpos sz 0 ≡ stuck
  unfolding write_loop
  write_loop-stuck zero t tmp wpos sz room low = ground arith
  write_loop-stuck (suc fuel) t tmp wpos sz room low =
      elim (Bool-cases (ltb (wpos + length b) (length tmp))) [
        | inl fits ↦
            let lt : wpos + length b < length tmp = ground arith in
            let k = length-splice tmp b wpos (omega arith) in
            copy_step fuel t tmp wpos sz fits
            ∙ write_loop-stuck fuel t (splice tmp wpos (wpos + length b) b) (wpos + length b) sz
                (omega arith) (omega arith)
        | inr full ↦
            let pos : 0 < wpos = ground arith in
            let (t', w) = accepts t (take wpos tmp) in
            let n : length (take wpos tmp) ≡ wpos = omega (arith, length-take wpos tmp) in
            send_step fuel t t' tmp wpos sz full pos low (w ∙ ap (λ (k : ℕ). (done k, t')) n)
            ∙ write_loop-stuck fuel t' tmp 0 (sz + wpos) room (omega arith)
      ]

  -- On a TLS socket that takes all that is written, `write_bufs` does not return when its first
  -- buffer is shorter than 4096 bytes and than the temporary buffer, whatever the fuel: the index is
  -- not moved when the buffer is copied, so that the buffer is sent again and again.
  pub write_bufs-stuck :
      (fuel : ℕ) (t : net.Tls) (tmp : List ℕ)
      → length b < length tmp
      → write_bufs fuel (tls t) tmp (b ∷ bufs) ≡ stuck
  unfolding write_bufs
  write_bufs-stuck fuel t tmp room = rw (write_loop-stuck fuel t tmp 0 0 room (omega arith)) refl
