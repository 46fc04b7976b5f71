-- ===== src/Engine/World/Laws.antt =====
-- A sequence whose first action succeeded, or failed.
use ai_coworker.Prelude.{◌≡◌, ap}
use ai_coworker.Store.{Error, Result, ok, err}
use ai_coworker.Engine.World.{World, Action, ◌>>=◌}
pub use ai_coworker.Store.{Result-cases}

module _ {A B : Type 0} (m : Action A) (f : A → Action B) (w w1 : World) where
  pub >>=-step : (a : A) → m w ≡ (ok a, w1) → (m >>= f) w ≡ f a w1
  unfolding ◌>>=◌
  >>=-step a e = ap (λ (p : Result A × World). ((λ _. p) >>= f) w) e

  pub >>=-stop : (e : Error) → m w ≡ (err e, w1) → (m >>= f) w ≡ (err e, w1)
  unfolding ◌>>=◌
  >>=-stop e q = ap (λ (p : Result A × World). ((λ _. p) >>= f) w) q
