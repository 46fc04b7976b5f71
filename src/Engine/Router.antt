-- ===== src/Engine/Router.antt =====
-- The router, internal/engine/router.go, over the adapters of internal/adapter/adapter.go.
pub mod Batch
pub mod Mixed
pub mod Registry
use ai_coworker.Prelude.{
  ℕ, zero, suc, ◌+◌, Bool, true, false, not, Option, none, some, List, [], ◌∷◌, ◌++◌, ◌&&◌, Text,
  text, text_eq, ℤ, pos, itoa, if◌then◌else◌,
}
use ai_coworker.Domain.{
  Role, TaskStatus, Intent, ThreadStatus, ChannelRef, IncomingEvent, Message, Task, Thread,
}
use ai_coworker.Store.{
  Error, fault, wrap, is_not_found, Result, ok, err, Db, get_thread_by_channel_ref, create_thread,
  create_message, create_task,
}
use ai_coworker.Engine.World.{
  Env, World, Output, acknowledged, Action, ◌>>=◌, ◌>>◌, pure, raise, attempt, from_result, emit,
  pass, call, reading,
}

-- `adapter.Adapter`: the calls of the channel's service, by the step at which they are made.
pub record Adapter : Type 0 where
  pub name : Text
  pub acknowledge : ℕ → ChannelRef → Result (Unit {0})
  pub send_response : ℕ → ChannelRef → Text → Result (Unit {0})

-- The map of `Router`, by the names under which the adapters were registered.
pub record Router : Type 0 where
  pub adapters : List (Text × Adapter)

abbrev pub new_router : Router
new_router = record { adapters = [] }

unfoldable pub put_adapter : Text → Adapter → List (Text × Adapter) → List (Text × Adapter)
put_adapter name a [] = (name, a) ∷ []
put_adapter name a ((k, b) ∷ rest) =
    if text_eq k name then (k, a) ∷ rest else (k, b) ∷ put_adapter name a rest

unfoldable pub register_adapter : Adapter → Router → Router
unfolding put_adapter
register_adapter a r = record r { adapters = put_adapter a.name a r.adapters }

unfoldable pub find_adapter : Text → List (Text × Adapter) → Option Adapter
find_adapter name [] = none
find_adapter name ((k, a) ∷ rest) = if text_eq k name then some a else find_adapter name rest

unfoldable pub get_adapter : Router → Text → Option Adapter
unfolding find_adapter
get_adapter r name = find_adapter name r.adapters

unfoldable pub all_adapters : List (Text × Adapter) → List Adapter
all_adapters [] = []
all_adapters ((_, a) ∷ rest) = a ∷ all_adapters rest

-- `Adapters`.
unfoldable pub adapters : Router → List Adapter
unfolding all_adapters
adapters r = all_adapters r.adapters

abbrev pub same_thread : ChannelRef → ChannelRef → Bool
same_thread ref e = text_eq e.channel ref.channel && text_eq e.thread_key ref.thread_key

unfoldable pub mixed_error : ChannelRef → ℕ → ChannelRef → Error
mixed_error ref i e = fault (
    text "batch contains mixed threads: event[0]="
    ++ (ref.channel
        ++ (text "/"
            ++ (ref.thread_key
                ++ (text ", event["
                    ++ (itoa (pos i)
                        ++ (text "]=" ++ (e.channel ++ (text "/" ++ e.thread_key)))))))))

-- The first event, from index `i` on, that is of another thread.
unfoldable pub mixed : ChannelRef → ℕ → List IncomingEvent → Option Error
mixed ref i [] = none
mixed ref i (e ∷ es) =
    if same_thread ref e.channel_ref
    then mixed ref (suc i) es
    else some (mixed_error ref i e.channel_ref)

abbrev pub unless_mixed : Option Error → Action (Unit {0})
unless_mixed none = pure tt
unless_mixed (some e) = raise e

-- The acknowledgement by the adapter of the channel; an error is only logged.
unfoldable pub acknowledge_by : Option Adapter → ChannelRef → Action (Unit {0})
acknowledge_by none ref = pure tt
acknowledge_by (some a) ref = do
  n ← pass
  emit (acknowledged ref)
  r ← attempt (from_result (a.acknowledge n ref))
  pure tt

unfoldable pub acknowledge_all : Router → List IncomingEvent → Action (Unit {0})
acknowledge_all r [] = pure tt
acknowledge_all r (e ∷ es) = do
  acknowledge_by (get_adapter r e.channel_ref.channel) e.channel_ref
  acknowledge_all r es

-- `if err := m; err != nil { return fmt.Errorf("what: %w", err) }`
abbrev pub wrapped : {A : Type 0} → Text → Action A → Action (Unit {0})
wrapped what m = do r ← attempt m; elim r [ ok _ ↦ pure tt | err e ↦ raise (wrap what e) ]

module _ (env : Env) where
  unfoldable pub open_thread : ChannelRef → Action Thread
  open_thread ref = do
    r ← attempt (
        call env (λ n db.
          create_thread (env.fresh_id n) (env.now n)
            (record {
              id = [];
              channel_ref = ref;
              status = ThreadStatus.active;
              created_at = 0;
              updated_at = 0;
            })
            db))
    elim r [ ok t ↦ pure t | err e ↦ raise (wrap (text "creating thread") e) ]

  -- The thread of the reference, which is created if the store has none.
  unfoldable pub thread_of : ChannelRef → Action Thread
  thread_of ref = do
    r ← attempt (call env (reading (get_thread_by_channel_ref ref.channel ref.thread_key)))
    elim r [
      | ok t ↦ pure t
      | err e ↦
          if is_not_found e then open_thread ref else raise (wrap (text "looking up thread") e)
    ]

  unfoldable pub user_message : Text → IncomingEvent → Message
  user_message thread_id e = record {
    id = [];
    thread_id = thread_id;
    role = Role.user;
    content = e.content;
    created_at = 0;
  }

  unfoldable pub pending_task : Text → IncomingEvent → Task
  pending_task thread_id e = record {
    id = [];
    thread_id = thread_id;
    intent = Intent.unset;
    status = TaskStatus.pending;
    input = e.content;
    result = [];
    worker_id = [];
    metadata = e.metadata;
    created_at = 0;
    updated_at = 0;
  }

  unfoldable pub save_message : Message → Action Message
  save_message m = call env (λ n db. create_message (env.fresh_id n) (env.now n) m db)

  unfoldable pub save_task : Task → Action Task
  save_task t = call env (λ n db. create_task (env.fresh_id n) (env.now n) t db)

  -- A message and a pending task for each event.
  unfoldable pub record_events : Text → List IncomingEvent → Action (Unit {0})
  record_events thread_id [] = pure tt
  record_events thread_id (e ∷ es) = do
    wrapped (text "creating message") (save_message (user_message thread_id e))
    wrapped (text "creating task") (save_task (pending_task thread_id e))
    record_events thread_id es

  unfoldable pub handle_event : Router → List IncomingEvent → Action (Unit {0})
  handle_event r [] = pure tt
  handle_event r (e ∷ es) = do
    unless_mixed (mixed e.channel_ref 1 es)
    acknowledge_all r (e ∷ es)
    thread ← thread_of e.channel_ref
    record_events thread.id (e ∷ es)
