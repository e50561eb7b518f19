-- ===== src/Prelude/Results.antt =====
-- Rust's `Result`, the `?` operator as a bind, and the checks that return early.
use mathlib.Core.Path.{◌≡◌, refl}
use mirrorscope.Prelude.Tests.{if◌then◌else◌}
use mathlib.Core.Bool.{Bool, true, false}
use native.Mathlib.Omega.{arith}
use mathlib.Core.Option.{Option, none, some}

pub data Result {ℓ} (E A : Type ℓ) : Type ℓ where
  ok : A → Result E A
  err : E → Result E A

module _ {ℓ} {E : Type ℓ} where
  infixl 5 ◌>>=◌ ◌>>◌
  abbrev pub ◌>>=◌ : {A B : Type ℓ} → Result E A → (A → Result E B) → Result E B
  ok a >>= f = f a
  err e >>= f = err e

  abbrev pub ◌>>◌ : {B : Type ℓ} → Result E (Unit {ℓ}) → Result E B → Result E B
  m >> k = m >>= λ _. k

  -- `if !test { return Err(e) }`
  abbrev pub guard : Bool → E → Result E (Unit {ℓ})
  guard true e = ok tt
  guard false e = err e

  -- `Option::ok_or`
  abbrev pub ok_or : {A : Type ℓ} → Option A → E → Result E A
  ok_or (some a) e = ok a
  ok_or none e = err e

  pub Result-cases :
      {A : Type ℓ} (r : Result E A)
      → mathlib.Core.Logic.◌⊎◌ ((a : A) × (r ≡ ok a)) ((e : E) × (r ≡ err e))
  Result-cases (ok a) = mathlib.Core.Logic.inl (a, refl)
  Result-cases (err e) = mathlib.Core.Logic.inr (e, refl)

  -- A bind that succeeds, taken apart.
  pub bind-ok :
      {A B : Type ℓ} (m : Result E A) (f : A → Result E B) (b : B)
      → (m >>= f) ≡ ok b
      → (a : A) × (m ≡ ok a) × (f a ≡ ok b)
  bind-ok (ok a) f b h = (a, refl, h)
  bind-ok (err e) f b h = ground arith

pub ok-inj {ℓ} : {E A : Type ℓ} {a b : A} → Path (Result E A) (ok a) (ok b) → a ≡ b
ok-inj h = ground arith

-- What a result satisfies if it is one, and how a bind ensures it.
module _ {ℓ κ} {E A : Type ℓ} (P : A → Type κ) where
  abbrev pub Ensures : Result E A → Type κ
  Ensures (ok a) = P a
  Ensures (err e) = Unit {κ}

  pub Ensures-bind :
      {B : Type ℓ} (m : Result E B) (f : B → Result E A)
      → ((b : B) → m ≡ ok b → Ensures (f b))
      → Ensures (m >>= f)
  Ensures-bind (ok b) f h = h b refl
  Ensures-bind (err e) f h = tt

  pub Ensures-ok : (r : Result E A) (a : A) → Ensures r → r ≡ ok a → P a
  Ensures-ok r a h same = mathlib.Core.Path.subst Ensures same h

  pub Ensures-intro : (r : Result E A) → ((a : A) → r ≡ ok a → P a) → Ensures r
  Ensures-intro (ok a) h = h a refl
  Ensures-intro (err e) h = tt

  pub Ensures-if :
      (b : Bool) (r s : Result E A) → Ensures r → Ensures s → Ensures (if b then r else s)
  Ensures-if true r s h k = h
  Ensures-if false r s h k = k

-- The same, of results that moreover do not end with a given error, as that of a loop that has
-- used up its fuel.
module _ {ℓ} {E : Type ℓ} (stop : E) where
  abbrev pub Ends : {A : Type ℓ} (P : A → Type ℓ) → Result E A → Type ℓ
  Ends P (ok a) = P a
  Ends P (err e) = mathlib.Core.Logic.◌≢◌ e stop

  pub Ends-bind :
      {A B : Type ℓ} (Q : B → Type ℓ) (P : A → Type ℓ) (m : Result E B) (f : B → Result E A)
      → Ends Q m
      → ((b : B) → m ≡ ok b → Q b → Ends P (f b))
      → Ends P (m >>= f)
  Ends-bind Q P (ok b) f h k = k b refl h
  Ends-bind Q P (err e) f h k = h

  pub Ends-guard :
      {A : Type ℓ} (P : A → Type ℓ) (b : Bool) (e : E) (r : Result E A)
      → mathlib.Core.Logic.◌≢◌ e stop
      → (b ≡ true → Ends P r)
      → Ends P (guard b e >> r)
  Ends-guard P true e r other h = h refl
  Ends-guard P false e r other h = other

  pub Ends-if :
      {A : Type ℓ} (P : A → Type ℓ) (b : Bool) (r s : Result E A)
      → (b ≡ true → Ends P r)
      → (b ≡ false → Ends P s)
      → Ends P (if b then r else s)
  Ends-if P true r s h k = h refl
  Ends-if P false r s h k = k refl

  pub Ends-weaken :
      {A : Type ℓ} (P Q : A → Type ℓ) (r : Result E A) → Ends P r → ((a : A) → P a → Q a) → Ends Q r
  Ends-weaken P Q (ok a) h f = f a h
  Ends-weaken P Q (err e) h f = h
