-- ===== src/Prelude/Outcome.antt =====
-- What a call of the code comes to: `Ok`, `Err`, or a panic. `stuck` is no Rust value: a loop of
-- the model ran out of fuel.
use mathlib.Core.Path.{◌≡◌, refl, subst}
use mathlib.Core.Bool.{Bool, true, false}
use mathlib.Core.Logic.{◌≢◌}
use easyfibers.Prelude.Tests.{if◌then◌else◌}

pub data Outcome (E A : Type 0) : Type 0 where
  ok : A → Outcome E A
  err : E → Outcome E A
  panic : Outcome E A
  stuck : Outcome E A

module _ {E A B : Type 0} where
  abbrev pub and_then : Outcome E A → (A → Outcome E B) → Outcome E B
  and_then (ok a) f = f a
  and_then (err e) f = err e
  and_then panic f = panic
  and_then stuck f = stuck

  infixl 5 ◌>>=◌
  abbrev pub ◌>>=◌ : Outcome E A → (A → Outcome E B) → Outcome E B
  m >>= f = and_then m f

module _ {E B : Type 0} where
  infixl 5 ◌>>◌
  abbrev pub ◌>>◌ : Outcome E (Unit {0}) → Outcome E B → Outcome E B
  m >> k = and_then m (λ _. k)

-- The call returns: with a value of which `P` holds, or with an error.
pub data Ensures {E A : Type 0} (P : A → Type 0) : Outcome E A → Type 0 where
  value : {a : A} → P a → Ensures P (ok a)
  error : {e : E} → Ensures P (err e)

module _ {E A : Type 0} {P : A → Type 0} where
  pub Ensures-bind :
      {B : Type 0} {Q : B → Type 0} {m : Outcome E A} {f : A → Outcome E B}
      → Ensures P m
      → ((a : A) → P a → Ensures Q (f a))
      → Ensures Q (and_then m f)
  Ensures-bind (value p) next = next _ p
  Ensures-bind error next = error

  pub Ensures-mono :
      {Q : A → Type 0} {m : Outcome E A} → Ensures P m → ((a : A) → P a → Q a) → Ensures Q m
  Ensures-mono (value p) weaken = value (weaken _ p)
  Ensures-mono error weaken = error

  pub Ensures-ok : {m : Outcome E A} {a : A} → Ensures P m → m ≡ ok a → P a
  Ensures-ok (value p) e = subst P (cc) p
  Ensures-ok error e = cc

module _ {E A : Type 0} {P : A → Type 0} where
  pub Ensures-if :
      {m n : Outcome E A} (c : Bool)
      → (c ≡ true → Ensures P m)
      → (c ≡ false → Ensures P n)
      → Ensures P (if c then m else n)
  Ensures-if true pass fail = pass refl
  Ensures-if false pass fail = fail refl

module _ {E A : Type 0} where
  pub Ensures-of : (m : Outcome E A) → m ≢ panic → m ≢ stuck → Ensures (λ a. m ≡ ok a) m
  Ensures-of (ok a) p s = value refl
  Ensures-of (err e) p s = error
  Ensures-of panic p s = absurd (p refl)
  Ensures-of stuck p s = absurd (s refl)

abbrev ok_in : (E : Type 0) {A : Type 0} → A → Outcome E A
ok_in E a = ok a

pub ok_of : {E A : Type 0} {a b : A} → ok_in E a ≡ ok_in E b → a ≡ b
ok_of e = cc

pub bind-ok :
    {E A B : Type 0} (m : Outcome E A) (f : A → Outcome E B) (b : B)
    → and_then m f ≡ ok b
    → (a : A) × (m ≡ ok a) × (f a ≡ ok b)
bind-ok (ok a) f b h = (a, refl, h)
bind-ok (err e) f b h = cc
bind-ok panic f b h = cc
bind-ok stuck f b h = cc
