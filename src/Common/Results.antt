-- ===== src/Common/Results.antt =====
-- `Result<A, Box<dyn Error>>`, with the error as the text that it displays.
use Prim.Native.String.{String}
use mathlib.Core.Path.{◌≡◌, refl}
use mathlib.Core.Logic.{◌⊎◌, inl, inr}
use mathlib.Core.Option.{Option, none, some}

pub data Result {ℓ} (A : Type ℓ) : Type ℓ where
  ok : A → Result A
  err : String → Result A

pub Result-cases {ℓ} :
    {A : Type ℓ} (r : Result A) → ((a : A) × (r ≡ ok a)) ⊎ ((x : String) × (r ≡ err x))
Result-cases (ok a) = inl (a, refl)
Result-cases (err x) = inr (x, refl)

-- `r.ok()`
abbrev pub to_option {ℓ} : {A : Type ℓ} → Result A → Option A
to_option (ok a) = some a
to_option (err x) = none

-- `o.ok_or(x)`
abbrev pub ok_or {ℓ} : {A : Type ℓ} → Option A → String → Result A
ok_or (some a) x = ok a
ok_or none x = err x

-- What a failed operation leaves unsaid: a claim about the value of a successful one.
abbrev pub OnOk {ℓ κ} : {A : Type ℓ} → Result A → (A → Type κ) → Type κ
OnOk (ok a) P = P a
OnOk (err x) P = Unit
