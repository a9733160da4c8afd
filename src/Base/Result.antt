-- ===== src/Base/Result.antt =====
-- Rust's `Result<A, E>`, with `?` as the bind.
use mathlib.Core.Path.{◌≡◌, refl}
use mathlib.Core.Logic.{◌⊎◌, inl, inr}
use mathlib.Core.Option.{Option, none, some}

pub data Result {ℓ} (E : Type 0) (A : Type ℓ) : Type ℓ where
  err : E → Result E A
  ok : A → Result E A

infixl 5 ◌>>=◌ ◌>>◌
abbrev pub ◌>>=◌ {ℓ κ} :
    {E : Type 0} {A : Type ℓ} {B : Type κ} (outcome : Result E A) (next : A → Result E B)
    → Result E B
err e >>= next = err e
ok a >>= next = next a

abbrev pub ◌>>◌ {ℓ} :
    {E : Type 0} {B : Type ℓ} (outcome : Result E (Unit {0})) (next : Result E B) → Result E B
outcome >> next = outcome >>= λ done. next

abbrev pub ok_or {ℓ} : {E : Type 0} {A : Type ℓ} → Option A → E → Result E A
ok_or none e = err e
ok_or (some a) e = ok a

abbrev pub map_err {ℓ} : {E F : Type 0} {A : Type ℓ} → (E → F) → Result E A → Result F A
map_err f (ok a) = ok a
map_err f (err e) = err (f e)

-- The inversion of a successful bind.
pub >>=-eq-ok {ℓ κ} :
    {E : Type 0} {A : Type ℓ} {B : Type κ} (outcome : Result E A) (next : A → Result E B)
    {final : B}
    → (outcome >>= next) ≡ ok final
    → (first : A) × (outcome ≡ ok first) × (next first ≡ ok final)
>>=-eq-ok (err e) next h = cc
>>=-eq-ok (ok first) next h = (first, refl, h)

pub Result-cases {ℓ} :
    {E : Type 0} {A : Type ℓ} (r : Result E A) → ((a : A) × (r ≡ ok a)) ⊎ ((e : E) × (r ≡ err e))
Result-cases (ok a) = inl (a, refl)
Result-cases (err e) = inr (e, refl)
