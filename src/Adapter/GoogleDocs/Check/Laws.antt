-- ===== src/Adapter/GoogleDocs/Check/Laws.antt =====
-- What a check of a document's comments hands on, and what it saves before.
use ai_coworker.Prelude.{ℕ, suc, ◌≡◌, refl, ap, true, some, List, [], ◌∷◌, ◌++◌, map, Text, text, ℤ}
use ai_coworker.Domain.{IncomingEvent}
use ai_coworker.Store.{ok, get_adapter_state, set_adapter_state}
use ai_coworker.Engine.World.{Env, World, call, reading}
use ai_coworker.Adapter.GoogleDocs.{new_ref}
use ai_coworker.Adapter.GoogleDocs.Comments.{Author, DocReply, Comment}
use ai_coworker.Adapter.GoogleDocs.Context.{build_document_context-IsCutOf}
use ai_coworker.Adapter.GoogleDocs.Check.{Drive, Setup, comment_event, comment_events}

-- The last reply is the bot's own.
abbrev pub IsAnswered : Comment → Type 0
IsAnswered c =
    (rs : List DocReply) × (words : Text) × (who : Author) × (c.replies
      ≡ rs ++ record { content = words; author = some who } ∷ [])
    × (who.me ≡ true)

module _ (a : Setup) where
  -- With a limit that is not negative every comment gets an event, in the same order, whose
  -- reference is that of the comment.
  pub comment_events-refs :
      (n : ℕ) (file doc : Text) (others cs : List Comment)
      → a.content_max_size ≡ ℤ.pos n
      → (es : List IncomingEvent) × (comment_events a file doc others cs ≡ some es)
        × (map (λ e. e.channel_ref) es ≡ map (λ c. new_ref file c.id) cs)
  unfolding comment_events comment_event
  comment_events-refs n file doc others [] h = ([], refl, refl)
  comment_events-refs n file doc others (c ∷ cs) h =
      let (es, made, refs) = comment_events-refs n file doc others cs h in
      let (ms, r, marks, built, is_cut) =
        build_document_context-IsCutOf a.quote doc others c.id n in
      (
        comment_event file c r ∷ es,
        rw (h, built, made) refl,
        ap (λ rs. new_ref file c.id ∷ rs) refs,
      )

  module _ (drive : Drive) (env : Env) (file since : Text) (w w1 : World)
      (read : call env (reading (get_adapter_state (text "googledocs") file)) w
        ≡ (ok since, w1)) where
    -- The world in which the handler is started, once the time is saved.
    abbrev pub saved : Text → World
    saved time = record w1 {
      db = set_adapter_state (text "googledocs") file time (env.others w1.step w1.db);
      step = suc w1.step;
    }

    -- The world after the next check has read the time that was saved.
    abbrev pub looked_again : Text → World
    looked_again time = record (saved time) { step = suc (suc w1.step) }
