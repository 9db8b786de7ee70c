-- ===== src/IntelliCenter/Result.antt =====
-- Go's pair of a value and an `error`, as a result: a value where the error is nil.
use pentameter.Prelude.{String, ◌≡◌, refl, ◌⊎◌, inl, inr}

pub data Error : Type 0 where
  not_connected write_failed deadline_failed read_failed no_match : Error
  -- the response code that the controller sent
  rejected : String → Error
  params_required engine_not_connected : Error
  canceled resolve_failed dial_failed connect_failed : Error
  -- `fmt.Errorf("baseline: %w", err)`, `"poll: … %w"` and `"push stream: %w"`
  baseline poll push_stream : Error → Error

pub data Result {ℓ} (A : Type ℓ) : Type ℓ where
  ok : A → Result A
  err : Error → Result A

pub Result-cases {ℓ} :
    {A : Type ℓ} (r : Result A) → ((a : A) × (r ≡ ok a)) ⊎ ((e : Error) × (r ≡ err e))
Result-cases (ok a) = inl (a, refl)
Result-cases (err e) = inr (e, refl)
