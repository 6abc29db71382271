-- ===== src/Prelude/Results.antt =====
-- Results of Go functions that return an error, with `do` blocks for chains of early returns.
use mathlib.Core.Path.{◌≡◌, refl}
use mathlib.Core.Logic.{◌⊎◌, inl, inr}

pub data Result {ℓ κ} (E : Type ℓ) (A : Type κ) : Type (ℓ ⊔ κ) where
  ok : A → Result E A
  err : E → Result E A

infixl 5 ◌>>=◌
abbrev pub ◌>>=◌ {ℓ κ μ} :
    {E : Type ℓ} {S : Type κ} {T : Type μ} → Result E S → (S → Result E T) → Result E T
err e >>= k = err e
ok s >>= k = k s

pub >>=-eq-err {ℓ κ μ} :
    {E : Type ℓ} {S : Type κ} {T : Type μ} (r : Result E S) (k : S → Result E T) {x : E}
    → (r >>= k) ≡ err x
    → (r ≡ err x) ⊎ ((s : S) × (r ≡ ok s) × (k s ≡ err x))
>>=-eq-err (err e) k h = inl (cc)
>>=-eq-err (ok s) k h = inr (s, refl, h)

pub >>=-eq-ok {ℓ κ μ} :
    {E : Type ℓ} {S : Type κ} {T : Type μ} (r : Result E S) (k : S → Result E T) {t : T}
    → (r >>= k) ≡ ok t
    → (s : S) × (r ≡ ok s) × (k s ≡ ok t)
>>=-eq-ok (err e) k h = cc
>>=-eq-ok (ok s) k h = (s, refl, h)

pub ok-injective {ℓ κ} :
    {E : Type ℓ} {S : Type κ} {a b : S} → ◌≡◌ {A = Result E S} (ok a) (ok b) → a ≡ b
ok-injective h = cc

pub Result-cases {ℓ κ} :
    {E : Type ℓ} {A : Type κ} (r : Result E A) → ((a : A) × (r ≡ ok a)) ⊎ ((e : E) × (r ≡ err e))
Result-cases (ok a) = inl (a, refl)
Result-cases (err e) = inr (e, refl)
