-- ===== src/Prelude/Results.antt =====
-- Results of code that may throw: a value, or the exception that left the function.
use mathlib.Core.Path.{◌≡◌, refl, ap, subst}
use mathlib.Core.Bool.{Bool, true, false}
use mathlib.Core.Option.{Option, none, some}
use faabric.Prelude.Tests.{if◌then◌else◌}

pub data Result (E A : Type 0) : Type 0 where
  throws : E → Result E A
  ok : A → Result E A

module _ {E A B : Type 0} where
  -- A statement and the ones after it: an exception skips the rest of the function.
  infixl 4 ◌>>=◌
  abbrev pub ◌>>=◌ : Result E A → (A → Result E B) → Result E B
  throws e >>= next = throws e
  ok x >>= next = next x

module _ {E A : Type 0} where
  -- What holds of the value when the code does not throw.
  unfoldable pub Ensures : (A → Type 0) → Result E A → Type 0
  Ensures P (throws e) = Unit
  Ensures P (ok x) = P x

  pub Ensures-ok : (P : A → Type 0) (r : Result E A) (x : A) → Ensures P r → r ≡ ok x → P x
  unfolding Ensures
  Ensures-ok P r x h e = subst (Ensures P) e h

  pub Ensures-refl : (r : Result E A) → Ensures (λ x. r ≡ ok x) r
  unfolding Ensures
  Ensures-refl (throws e) = tt
  Ensures-refl (ok x) = refl

  pub Ensures-any : (r : Result E A) → Ensures (λ x. Unit) r
  unfolding Ensures
  Ensures-any (throws e) = tt
  Ensures-any (ok x) = tt

  pub Ensures-both :
      (P Q : A → Type 0) (r : Result E A) → Ensures P r → Ensures Q r → Ensures (λ x. P x × Q x) r
  unfolding Ensures
  Ensures-both P Q (throws e) h k = tt
  Ensures-both P Q (ok x) h k = (h, k)

  pub Ensures-if :
      (P : A → Type 0) (b : Bool) (x y : Result E A)
      → (b ≡ true → Ensures P x)
      → (b ≡ false → Ensures P y)
      → Ensures P (if b then x else y)
  Ensures-if P true x y h k = h refl
  Ensures-if P false x y h k = k refl

  pub Ensures-map :
      (P Q : A → Type 0) (r : Result E A) → Ensures P r → ((x : A) → P x → Q x) → Ensures Q r
  unfolding Ensures
  Ensures-map P Q (throws e) h k = tt
  Ensures-map P Q (ok x) h k = k x h

module _ {E A B : Type 0} where
  pub bind-ok : (r : Result E A) (x : A) (next : A → Result E B) → r ≡ ok x → (r >>= next) ≡ next x
  bind-ok r x next e = ap (λ r. r >>= next) e

  pub Ensures-option :
      (P : A → Type 0) (o : Option B) (x : Result E A) (f : B → Result E A)
      → (o ≡ none → Ensures P x)
      → ((b : B) → o ≡ some b → Ensures P (f b))
      → Ensures P (elim o [ none ↦ x | some b ↦ f b ])
  Ensures-option P none x f h k = h refl
  Ensures-option P (some b) x f h k = k b refl

  pub Ensures-bind :
      (P : A → Type 0) (Q : B → Type 0) (r : Result E A) (next : A → Result E B)
      → Ensures P r
      → ((x : A) → P x → Ensures Q (next x))
      → Ensures Q (r >>= next)
  unfolding Ensures
  Ensures-bind P Q (throws e) next h k = tt
  Ensures-bind P Q (ok x) next h k = k x h
