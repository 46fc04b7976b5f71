-- ===== src/Engine/Router/Mixed.antt =====
-- Batches of events of several threads.
use ai_coworker.Prelude.{
  ℕ, suc, ◌≡◌, refl, ◌↔◌, none, some, List, [], ◌∷◌, text_eq_iff, All, arith, Option-cases, inl,
  inr,
}
use ai_coworker.Domain.{ChannelRef, IncomingEvent}
use ai_coworker.Store.{Error, err}
use ai_coworker.Engine.World.{Env, World, Action, ◌>>=◌, ◌>>◌}
use ai_coworker.Engine.Router.{Router, mixed, unless_mixed, handle_event}

-- The event is of the thread of the reference.
abbrev pub IsOf : ChannelRef → IncomingEvent → Type 0
IsOf ref x = (x.channel_ref.channel ≡ ref.channel) × (x.channel_ref.thread_key ≡ ref.thread_key)

pub mixed_iff :
    (ref : ChannelRef) (i : ℕ) (es : List IncomingEvent)
    → (mixed ref i es ≡ none) ↔ All (IsOf ref) es
unfolding mixed
mixed_iff ref i [] = ((λ _. tt), (λ _. refl))
mixed_iff ref i (x ∷ xs) = ground (
  arith,
  text_eq_iff x.channel_ref.channel ref.channel,
  text_eq_iff x.channel_ref.thread_key ref.thread_key,
  mixed_iff ref (suc i) xs,
)

stops :
    (x : Error) (rest : Action (Unit {0})) (w : World)
    → (unless_mixed (some x) >> rest) w ≡ (err x, w)
unfolding ◌>>=◌
stops x rest w = refl

-- A batch with an event of another thread than the first one's is refused before anything is
-- acknowledged or stored: the run ends in an error and the world is as it was.
pub handle_event-mixed :
    (env : Env) (r : Router) (e : IncomingEvent) (es : List IncomingEvent) (w : World)
    → ¬ All (IsOf e.channel_ref) es
    → (x : Error) × (handle_event env r (e ∷ es) w ≡ (err x, w))
unfolding handle_event
handle_event-mixed env r e es w h = elim (Option-cases (mixed e.channel_ref 1 es)) [
  | inl one_thread ↦ absurd (h ((mixed_iff e.channel_ref 1 es).0 one_thread))
  | inr (x, found) ↦ (x, rw found (stops x _ w))
]
