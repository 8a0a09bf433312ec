-- ===== src/Base/Loops.antt =====
-- `for (i, x) in xs.iter().enumerate()` over a state, where a round may return early or panic.
use mathlib.Core.Path.{◌≡◌, refl, ap, sym, ◌∙◌, fun_ext}
use mathlib.Core.Logic.{◌≢◌}
use mathlib.Core.List.{List, [], ◌∷◌, map}
use Prim.Native.Nat.{ℕ, suc, ◌+◌, ◌<◌, ◌≤◌}
use native.Mathlib.Omega.{arith}
use tiny_sp1_rollup.Base.Lists.{length}
use tiny_sp1_rollup.Base.Outcomes.{Outcome, ok, err, panic, ◌>>=◌, >>=-ne-panic, bind_inv, map_ok}

module _ {ℓ κ μ} {E : Type ℓ} {A : Type κ} {S : Type μ} where
  unfoldable pub for_enumerate : (ℕ → A → S → Outcome E S) → ℕ → List A → S → Outcome E S
  for_enumerate round i [] s = ok s
  for_enumerate round i (x ∷ xs) s = do s' ← round i x s; for_enumerate round (suc i) xs s'

  -- Rounds that agree index by index, one of them at a shifted index, make loops that agree.
  pub for_enumerate_shift :
      (f g : ℕ → A → S → Outcome E S)
      → ((i : ℕ) (x : A) (s : S) → f (suc i) x s ≡ g i x s)
      → (i : ℕ) (xs : List A) (s : S) → for_enumerate f (suc i) xs s ≡ for_enumerate g i xs s
  unfolding for_enumerate
  for_enumerate_shift f g h i [] s = refl
  for_enumerate_shift f g h i (x ∷ xs) s =
      rw (h i x s) (ap (◌>>=◌ (g i x s)) (fun_ext (λ s'. for_enumerate_shift f g h (suc i) xs s')))

  -- A round that never panics at an index below `n` makes a loop that never panics up to there.
  pub for_enumerate-ne-panic :
      (n : ℕ) (f : ℕ → A → S → Outcome E S)
      → ((i : ℕ) (x : A) (s : S) → i < n → f i x s ≢ panic)
      → (i : ℕ) (xs : List A) (s : S) → i + length xs ≤ n
      → for_enumerate f i xs s ≢ panic
  unfolding for_enumerate
  for_enumerate-ne-panic n f h i [] s le = cc
  for_enumerate-ne-panic n f h i (x ∷ xs) s le =
      >>=-ne-panic (f i x s) _ (h i x s (omega arith))
        (λ s' _. for_enumerate-ne-panic n f h (suc i) xs s' (omega arith))

module _ {ℓ κ μ} {E : Type ℓ} {A B : Type κ} {S : Type μ} where
  -- A change of the items that no round can see does not change the loop.
  pub for_enumerate-map :
      (f : ℕ → A → S → Outcome E S) (g : ℕ → B → S → Outcome E S) (change : A → B)
      → ((i : ℕ) (x : A) (s : S) → g i (change x) s ≡ f i x s)
      → (i : ℕ) (xs : List A) (s : S) → for_enumerate g i (map change xs) s ≡ for_enumerate f i xs s
  unfolding for_enumerate
  for_enumerate-map f g change h i [] s = refl
  for_enumerate-map f g change h i (x ∷ xs) s =
      rw (h i x s)
        (ap (◌>>=◌ (f i x s)) (fun_ext (λ s'. for_enumerate-map f g change h (suc i) xs s')))

abbrev pushed {ℓ κ μ} : {E : Type ℓ} {S : Type κ} {P : Type μ} → Outcome E (S × List P) → List P
pushed (ok (s, ps)) = ps
pushed (err e) = []
pushed panic = []

module _ {ℓ κ μ ν} {E : Type ℓ} {A : Type κ} {S : Type μ} {P : Type ν} where
  -- `for x in xs` over a state, where each round pushes one item to a vector.
  unfoldable pub for_push : (S → A → Outcome E (S × P)) → S → List A → Outcome E (S × List P)
  for_push round s [] = ok (s, [])
  for_push round s (x ∷ xs) = do
    (s', p) ← round s x
    (s'', ps) ← for_push round s' xs
    ok (s'', p ∷ ps)

  -- The vector has an item for each round.
  pub length-for_push :
      (round : S → A → Outcome E (S × P)) (s s' : S) (xs : List A) (ps : List P)
      → for_push round s xs ≡ ok (s', ps)
      → length ps ≡ length xs
  unfolding for_push
  length-for_push round s s' [] ps e = ground arith
  length-for_push round s s' (x ∷ xs) ps e =
      let ((s₁, p), _, e₁) = bind_inv _ (round s x) e in
      let ((s₂, qs), e₂, e₃) = bind_inv _ (for_push round s₁ xs) e₁ in
      let counted = length-for_push round s₁ s₂ xs qs e₂ in grind (arith, ap pushed e₃, counted)

  -- The first round of a run that returns, and the item that it pushes.
  pub first_round :
      (round : S → A → Outcome E (S × P)) (s s' : S) (x : A) (xs : List A) (ps : List P)
      → for_push round s (x ∷ xs) ≡ ok (s', ps)
      → (r : S × P) × (qs : List P) × (round s x ≡ ok r) × (ps ≡ r.1 ∷ qs)
  unfolding for_push
  first_round round s s' x xs ps e =
      let ((s₁, p), e₁, k₁) = bind_inv _ (round s x) e in
      let ((s₂, qs), _, k₂) = bind_inv _ (for_push round s₁ xs) k₁ in
      ((s₁, p), qs, e₁, sym (ap pushed k₂))

module _ {ℓ κ μ} {E : Type ℓ} {A : Type κ} {S : Type μ} where
  -- `for x in xs` over a state.
  unfoldable pub for_each : (A → S → Outcome E S) → List A → S → Outcome E S
  for_each round [] s = ok s
  for_each round (x ∷ xs) s = do s' ← round x s; for_each round xs s'

pub map_ok->>= {ℓ κ μ} :
    {E : Type ℓ} {S : Type κ} {V : Type μ} (view : S → V) (m : Outcome E S) (f : S → Outcome E S)
    (g : V → Outcome E V)
    → ((s : S) → map_ok view (f s) ≡ g (view s))
    → map_ok view (m >>= f) ≡ (map_ok view m >>= g)
map_ok->>= view (ok s) f g h = h s
map_ok->>= view (err e) f g h = refl
map_ok->>= view panic f g h = refl

module _ {ℓ κ μ ν} {E : Type ℓ} {A : Type κ} {S : Type μ} {V : Type ν} where
  -- Rounds that agree through a view make loops that agree through it.
  pub for_each-map_ok :
      (view : S → V) (f : A → S → Outcome E S) (g : A → V → Outcome E V)
      → ((x : A) (s : S) → map_ok view (f x s) ≡ g x (view s))
      → (xs : List A) (s : S) → map_ok view (for_each f xs s) ≡ for_each g xs (view s)
  unfolding for_each
  for_each-map_ok view f g h [] s = refl
  for_each-map_ok view f g h (x ∷ xs) s =
      map_ok->>= view (f x s) (for_each f xs) (for_each g xs) (for_each-map_ok view f g h xs)
      ∙ ap (λ m. m >>= for_each g xs) (h x s)

module _ {ℓ κ μ} {E : Type ℓ} {A : Type κ} {B : Type μ} where
  -- `for x in xs { out.push(f(x)?) }`
  unfoldable pub collect : (A → Outcome E B) → List A → Outcome E (List B)
  collect f [] = ok []
  collect f (x ∷ xs) = do y ← f x; ys ← collect f xs; ok (y ∷ ys)
