-- ===== src/Domain.antt =====
-- The data that the components share: internal/domain. A time is a number of ticks.
use ai_coworker.Prelude.{ℕ, Bool, true, false, Option, Text, Dict, text}

-- `Role`.
pub data Role : Type 0 where
  system user assistant : Role

-- `TaskStatus`.
pub data TaskStatus : Type 0 where
  pending in_progress completed failed : TaskStatus

-- `Intent`; `unset` is the empty string of a task that was not yet classified.
pub data Intent : Type 0 where
  unset code_task question discussion review info_lookup unknown : Intent

-- `ThreadStatus`.
pub data ThreadStatus : Type 0 where
  active resolved expired : ThreadStatus

-- `properties` is `none` for a nil map.
pub record ChannelRef : Type 0 where
  pub channel : Text
  pub thread_key : Text
  pub properties : Option Dict

pub record IncomingEvent : Type 0 where
  pub channel_ref : ChannelRef
  pub thread_id : Text
  pub user_id : Text
  pub content : Text
  pub metadata : Option Dict

pub record Message : Type 0 where
  pub id : Text
  pub thread_id : Text
  pub role : Role
  pub content : Text
  pub created_at : ℕ

pub record Task : Type 0 where
  pub id : Text
  pub thread_id : Text
  pub intent : Intent
  pub status : TaskStatus
  pub input : Text
  pub result : Text
  pub worker_id : Text
  pub metadata : Option Dict
  pub created_at : ℕ
  pub updated_at : ℕ

pub record Thread : Type 0 where
  pub id : Text
  pub channel_ref : ChannelRef
  pub status : ThreadStatus
  pub created_at : ℕ
  pub updated_at : ℕ

abbrev pub is_pending : TaskStatus → Bool
is_pending TaskStatus.pending = true
is_pending _ = false

abbrev pub is_in_progress : TaskStatus → Bool
is_in_progress TaskStatus.in_progress = true
is_in_progress _ = false

-- The text of each intent.
unfoldable pub intent_text : Intent → Text
intent_text Intent.unset = text ""
intent_text Intent.code_task = text "code_task"
intent_text Intent.question = text "question"
intent_text Intent.discussion = text "discussion"
intent_text Intent.review = text "review"
intent_text Intent.info_lookup = text "info_lookup"
intent_text Intent.unknown = text "unknown"

-- The text of each role.
unfoldable pub role_text : Role → Text
role_text Role.system = text "system"
role_text Role.user = text "user"
role_text Role.assistant = text "assistant"
