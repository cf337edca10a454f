-- ===== src/Prelude/Action.antt =====
-- Fallible code that changes a store: a Rust function `fn(&store) -> Result<A, E>` is an action
-- that returns its outcome beside the store it leaves, which an error does not undo. A panic is an
-- outcome of its own, and so is a loop of the model that runs out of fuel.
use mathlib.Core.Path.{◌≡◌}
use mathlib.Core.List.{List, [], ◌∷◌}

pub data Result {ℓ} (E A : Type ℓ) : Type ℓ where
  ok : A → Result E A
  err : E → Result E A
  panic : Result E A
  out_of_fuel : Result E A

abbrev pub Exec : Type 0 → Type 0 → Type 0 → Type 0
Exec S E A = S → Result E A × S

unfoldable pub bind_result : {S E A B : Type 0} → Result E A → (A → Exec S E B) → S → Result E B × S
bind_result (ok a) f s = f a s
bind_result (err e) f s = (err e, s)
bind_result panic f s = (panic, s)
bind_result out_of_fuel f s = (out_of_fuel, s)

module _ {S E : Type 0} where
  infixl 5 ◌>>=◌ ◌>>◌
  unfoldable pub ◌>>=◌ : {A B : Type 0} → Exec S E A → (A → Exec S E B) → Exec S E B
  unfolding bind_result
  ◌>>=◌ m f s = bind_result (m s).0 f (m s).1

  unfoldable pub ◌>>◌ : {B : Type 0} → Exec S E (Unit {0}) → Exec S E B → Exec S E B
  unfolding ◌>>=◌
  m >> k = m >>= λ _. k

  abbrev pub pure : {A : Type 0} → A → Exec S E A
  pure a s = (ok a, s)

  abbrev pub raise : {A : Type 0} → E → Exec S E A
  raise e s = (err e, s)

  abbrev pub lift : {A : Type 0} → Result E A → Exec S E A
  lift r s = (r, s)

  -- `for row in rows { body(row)?; }`
  unfoldable pub for_each : {A : Type 0} → List A → (A → Exec S E (Unit {0})) → Exec S E (Unit {0})
  for_each [] body = pure tt
  for_each (x ∷ xs) body = body x >> for_each xs body

  -- A step that succeeds hands its value and its store to the rest.
  pub bind_ok :
      {A B : Type 0} (m : Exec S E A) (f : A → Exec S E B) (s : S) {a : A} {s' : S}
      → m s ≡ (ok a, s')
      → (m >>= f) s ≡ f a s'
  unfolding ◌>>=◌
  bind_ok m f s h = rw (h, bind_result)

  pub then_ok :
      {B : Type 0} (m : Exec S E (Unit {0})) (k : Exec S E B) (s : S) {s' : S}
      → m s ≡ (ok tt, s')
      → (m >> k) s ≡ k s'
  unfolding ◌>>◌
  then_ok m k s h = bind_ok m (λ _. k) s h

  -- The first error is the outcome of the whole.
  pub then_err :
      {B : Type 0} (m : Exec S E (Unit {0})) (k : Exec S E B) (s : S) {e : E} {s' : S}
      → m s ≡ (err e, s')
      → (m >> k) s ≡ (err e, s')
  unfolding ◌>>◌
  then_err m k s h = rw (h, ◌>>=◌)
