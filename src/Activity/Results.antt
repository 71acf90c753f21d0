-- ===== src/Activity/Results.antt =====
-- The two forms of a result.
use hsk_3_0_app.Base.{◌≡◌, ◌⊎◌, inl, inr, refl}
use hsk_3_0_app.Activity.{ActivityError, Result, ok, err}

pub ok-injective {ℓ} : {A : Type ℓ} {a b : A} → ok a ≡ ok b → a ≡ b
ok-injective h = cc

pub Result-cases {ℓ} :
    {A : Type ℓ} (r : Result A) → ((a : A) × (r ≡ ok a)) ⊎ ((e : ActivityError) × (r ≡ err e))
Result-cases (ok a) = inl (a, refl)
Result-cases (err e) = inr (e, refl)
