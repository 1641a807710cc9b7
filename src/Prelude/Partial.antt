-- ===== src/Prelude/Partial.antt =====
-- Results of code that can fail: `none` is the return value -1 or NULL.
use mathlib.Core.Path.{◌≡◌, refl}
use mathlib.Core.Bool.{Bool, true, false}
use mathlib.Core.Option.{Option, none, some}

infixl 5 ◌>>=◌ ◌>>◌
abbrev pub ◌>>=◌ {ℓ κ} : {A : Type ℓ} {B : Type κ} → Option A → (A → Option B) → Option B
none >>= f = none
some a >>= f = f a

abbrev pub ◌>>◌ {κ} : {B : Type κ} → Option (Unit {0}) → Option B → Option B
m >> k = m >>= λ _. k

-- An early return unless the test holds.
abbrev pub guard : Bool → Option (Unit {0})
guard true = some tt
guard false = none

-- What a chain has done when it succeeds, handed on to the rest of a proof.
pub >>=-eq-some {ℓ κ ι} :
    {A : Type ℓ} {B : Type κ} {G : Type ι} (m : Option A) (f : A → Option B) {b : B}
    → (m >>= f) ≡ some b
    → ((a : A) → m ≡ some a → f a ≡ some b → G)
    → G
>>=-eq-some none f h k = cc
>>=-eq-some (some a) f h k = k a refl h

pub guard-eq-some : (test : Bool) {u : Unit {0}} → guard test ≡ some u → test ≡ true
guard-eq-some true h = refl
guard-eq-some false h = cc
