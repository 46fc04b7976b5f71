-- ===== src/Store/Errors.antt =====
-- Errors as values: `ErrNotFound`, what the database reports, and `fmt.Errorf` with `%w`.
use ai_coworker.Prelude.{Bool, true, false, Text, text, ◌++◌, ◌≡◌, refl, ◌⊎◌, inl, inr}

pub data Error : Type 0 where
  not_found : Error
  fault : Text → Error
  wrap : Text → Error → Error

pub data Result {ℓ} (A : Type ℓ) : Type ℓ where
  ok : A → Result A
  err : Error → Result A

pub Result-cases :
    {A : Type 0} (r : Result A) → ((a : A) × (r ≡ ok a)) ⊎ ((e : Error) × (r ≡ err e))
Result-cases (ok a) = inl (a, refl)
Result-cases (err e) = inr (e, refl)

-- `errors.Is(err, ErrNotFound)`.
unfoldable pub is_not_found : Error → Bool
is_not_found not_found = true
is_not_found (fault _) = false
is_not_found (wrap _ e) = is_not_found e

-- `err.Error()`.
unfoldable pub message : Error → Text
message not_found = text "not found"
message (fault s) = s
message (wrap s e) = s ++ text ": " ++ message e
