-- ===== src/Base/Outcomes.antt =====
-- What a Rust call ends in: a value, an error that `?` hands on, or a panic.
use mathlib.Core.Path.{◌≡◌, refl, ap}
use mathlib.Core.Bool.{Bool, true, false}
use mathlib.Core.Logic.{◌≢◌}
use mathlib.Core.Option.{Option, none, some}

pub data Outcome {ℓ κ} (E : Type ℓ) (A : Type κ) : Type (ℓ ⊔ κ) where
  ok : A → Outcome E A
  err : E → Outcome E A
  panic : Outcome E A

-- `Option::ok_or`
abbrev pub ok_or {ℓ κ} : {E : Type ℓ} {A : Type κ} → Option A → E → Outcome E A
ok_or none e = err e
ok_or (some a) e = ok a

-- `v[i]`, which panics out of bounds, after `get`; also `Option::unwrap`.
abbrev pub unwrap {ℓ κ} : {E : Type ℓ} {A : Type κ} → Option A → Outcome E A
unwrap none = panic
unwrap (some a) = ok a

-- `if !test { return Err(e) }`
abbrev pub guard {ℓ} : {E : Type ℓ} → Bool → E → Outcome E (Unit {0})
guard false reason = err reason
guard true reason = ok tt

-- `Result::map_err`
abbrev pub map_err {ℓ κ μ} :
    {E : Type ℓ} {F : Type κ} {A : Type μ} → (E → F) → Outcome E A → Outcome F A
map_err f (ok a) = ok a
map_err f (err e) = err (f e)
map_err f panic = panic

-- `Result::map`
abbrev pub map_ok {ℓ κ μ} :
    {E : Type ℓ} {A : Type κ} {B : Type μ} → (A → B) → Outcome E A → Outcome E B
map_ok f panic = panic
map_ok f (err e) = err e
map_ok f (ok a) = ok (f a)

infixl 5 ◌>>=◌
-- `?`: an error or a panic skips what follows.
abbrev pub ◌>>=◌ {ℓ κ μ} :
    {E : Type ℓ} {A : Type κ} {B : Type μ} → Outcome E A → (A → Outcome E B) → Outcome E B
panic >>= rest = panic
err e >>= rest = err e
ok a >>= rest = rest a

infixl 5 ◌>>◌
abbrev pub ◌>>◌ {ℓ κ} : {E : Type ℓ} {B : Type κ} → Outcome E (Unit {0}) → Outcome E B → Outcome E B
check >> rest = check >>= λ _. rest

-- A bind panics only where a part of it does.
pub >>=-ne-panic {ℓ κ μ} :
    {E : Type ℓ} {A : Type κ} {B : Type μ} (m : Outcome E A) (f : A → Outcome E B)
    → m ≢ panic
    → ((a : A) → m ≡ ok a → f a ≢ panic)
    → (m >>= f) ≢ panic
>>=-ne-panic (ok a) f hm hf = hf a refl
>>=-ne-panic (err e) f hm hf = cc
>>=-ne-panic panic f hm hf = absurd (hm refl)

-- What a successful run went through.
pub bind_inv {ℓ κ μ} :
    {E : Type ℓ} {B : Type μ} {A : Type κ} {b : B} (rest : A → Outcome E B) (m : Outcome E A)
    → (m >>= rest) ≡ ok b
    → (a : A) × (m ≡ ok a) × (rest a ≡ ok b)
bind_inv rest panic h = cc
bind_inv rest (err e) h = cc
bind_inv rest (ok a) h = (a, refl, h)

abbrev value_or {ℓ κ} : {E : Type ℓ} {A : Type κ} → A → Outcome E A → A
value_or a (ok b) = b
value_or a (err e) = a
value_or a panic = a

pub ok-injective {ℓ κ} :
    {E : Type ℓ} {A : Type κ} {a b : A} → ◌≡◌ {A = Outcome E A} (ok a) (ok b) → a ≡ b
ok-injective {a = a} e = ap (value_or a) e

-- What a test that passed, or a value that was there, says.
pub guard_passed {ℓ} :
    {E : Type ℓ} (test : Bool) (e : E) (u : Unit {0}) → guard test e ≡ ok u → test ≡ true
guard_passed true e u passed = refl
guard_passed false e u passed = cc

pub ok_or_found {ℓ κ} :
    {E : Type ℓ} {A : Type κ} (o : Option A) (e : E) (a : A) → ok_or o e ≡ ok a → o ≡ some a
ok_or_found (some b) e a found = ap some (ok-injective found)
ok_or_found none e a found = cc

pub map_err-ok {ℓ κ μ} :
    {E : Type ℓ} {F : Type κ} {A : Type μ} (f : E → F) (m : Outcome E A) {a : A}
    → map_err f m ≡ ok a
    → m ≡ ok a
map_err-ok f (ok b) done = ap ok (ok-injective done)
map_err-ok f (err e) done = cc
map_err-ok f panic done = cc

-- The outcome of a call that also returns a state.
abbrev pub second {ℓ κ} : {A : Type ℓ} {B : Type κ} → A × B → B
second p = p.1
