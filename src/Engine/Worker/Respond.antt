-- ===== src/Engine/Worker/Respond.antt =====
-- What a worker does with a result: failing a task, and routing responses.
use ai_coworker.Prelude.{
  ℕ, suc, Option, none, some, List, [], ◌∷◌, ◌++◌, String, Text, Dict, text, lookup, insert,
}
use ai_coworker.Domain.{TaskStatus, ChannelRef, Task, Thread}
use ai_coworker.Store.{Error, message, wrap, Result, ok, err, update_task}
use ai_coworker.Engine.World.{
  Env, responded, Action, ◌>>=◌, ◌>>◌, pure, attempt, from_result, emit, pass, call,
}
use ai_coworker.Engine.Intent.{entries}
use ai_coworker.Engine.Router.{Adapter}
use ai_coworker.Engine.Reply.{Responses, parse_comment_responses, section_or_all}

module _ (env : Env) where
  unfoldable pub save : Task → Action (Unit {0})
  save t = call env (λ n db. update_task (env.now n) t db)

  abbrev pub as_failed : Task → Error → Task
  as_failed t e = record t { status = TaskStatus.failed; result = message e }

  -- An error of the update is only logged.
  unfoldable pub fail_task : Task → Error → Action (Unit {0})
  fail_task t e = do r ← attempt (save (as_failed t e)); pure tt

  unfoldable pub fail_all : Error → List Task → Action (Unit {0})
  fail_all e [] = pure tt
  fail_all e (t ∷ ts) = do fail_task t e; fail_all e ts

-- The call of the adapter of the channel; an error is only logged.
unfoldable pub respond_by : Option Adapter → ChannelRef → Text → Action (Unit {0})
respond_by none ref msg = pure tt
respond_by (some a) ref msg = do
  n ← pass
  emit (responded ref msg)
  r ← attempt (from_result (a.send_response n ref msg))
  pure tt

module _ (get_adapter : Text → Option Adapter) where
  unfoldable pub send_response : ChannelRef → Text → Action (Unit {0})
  send_response ref msg = respond_by (get_adapter ref.channel) ref msg

  abbrev pub insert_if : String → Option Text → Dict → Dict
  insert_if key none m = m
  insert_if key (some v) m = insert key v m

  -- The properties with the comment of the task.
  unfoldable pub enriched : Dict → Option Dict → Dict
  unfolding lookup insert
  enriched props none = props
  enriched props (some meta) =
      insert_if "comment_id" (lookup "comment_id" meta)
        (insert_if "comment_type" (lookup "type" meta) props)

  -- The map of the thread's properties is shared with the reference of the response: what is put
  -- into it stays there, if the thread had a map.
  abbrev pub shared : Option Dict → Dict → Option Dict
  shared none m = none
  shared (some _) m = some m

  abbrev pub with_properties : ChannelRef → Option Dict → ChannelRef
  with_properties ref props = record ref { properties = props }

  unfoldable pub route_response : Thread → Task → Text → Action Thread
  route_response thread t response = do
    let ref = thread.channel_ref
    let props = enriched (entries ref.properties) t.metadata
    send_response (with_properties ref (some props)) response
    pure (record thread { channel_ref = with_properties ref (shared ref.properties props) })

  module _ (env : Env) where
    abbrev pub as_completed : Task → Text → Task
    as_completed t response = record t { status = TaskStatus.completed; result = response }

    -- `errs`, with the error of this update in front.
    abbrev pub gathered : Task → Result (Unit {0}) → List Error → List Error
    gathered t (ok _) errs = errs
    gathered t (err e) errs = wrap (text "completing absorbed task " ++ t.id) e ∷ errs

    -- The absorbed tasks, from index `i` of the batch on; the errors of the updates are gathered.
    unfoldable pub route_absorbed :
        Option Responses → Text → ℕ → Thread → List Task → Action (List Error)
    route_absorbed per_comment whole i thread [] = pure []
    route_absorbed per_comment whole i thread (t ∷ ts) = do
      let response = section_or_all per_comment i whole
      r ← attempt (save env (as_completed t response))
      thread' ← route_response thread t response
      errs ← route_absorbed per_comment whole (suc i) thread' ts
      pure (gathered t r errs)

    -- The first task of the batch is completed already.
    unfoldable pub route_batched_responses : Thread → Task → List Task → Text → Action (List Error)
    route_batched_responses thread primary absorbed whole = do
      let per_comment = parse_comment_responses whole
      thread' ← route_response thread primary (section_or_all per_comment 1 whole)
      route_absorbed per_comment whole 2 thread' absorbed
