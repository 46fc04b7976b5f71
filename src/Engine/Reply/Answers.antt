-- ===== src/Engine/Reply/Answers.antt =====
-- The map of the sections that an answer in the requested format yields.
use ai_coworker.Prelude.{
  ℕ, ◌+◌, ◌<◌, ◌≡◌, ◌⊎◌, true, List, [], ◌∷◌, ◌++◌, Text, get_elem?, newline, ℤ,
}
use ai_coworker.Engine.Reply.{Responses, find_response}
use ai_coworker.Engine.Reply.Scan.{IsPlain}
use ai_coworker.Engine.Reply.RoundTrip.{or_else}

-- The responses after the sections of `bs`, by their numbers from `n` on; those below stay.
abbrev Collected : ℕ → List Text → Responses → Responses → Type 0
Collected n bs rs after =
    ((i : ℕ)
      → find_response (ℤ.pos (n + i)) after
        ≡ or_else (get_elem? bs i) (find_response (ℤ.pos (n + i)) rs))
    × ((j : ℕ) → j < n → find_response (ℤ.pos j) after ≡ find_response (ℤ.pos j) rs)

-- What may stand before the first section: nothing, or whole lines that are plain.
abbrev pub IsPreface : Text → Type 0
IsPreface p = (p ≡ []) ⊎ ((t : Text) × (p ≡ t ++ newline ∷ []) × IsPlain true t)
