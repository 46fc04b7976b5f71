-- ===== src/Engine/Worker/Safety.antt =====
-- How each part of the processing of a task keeps to what the worker holds.
use mathlib.Core.List.{append_assoc, append-nil}
use ai_coworker.Prelude.{
  ℕ, suc, ◌≡◌, refl, subst, ◌∙◌, ◌≢◌, inl, inr, Option, none, some, List, [], ◌∷◌, ◌++◌, Text,
  Bool-cases, if◌then◌else◌,
}
use ai_coworker.Domain.{TaskStatus, Task, Thread, ChannelRef}
use ai_coworker.Store.{Error, ok, Db}
use ai_coworker.Store.Rows.{All-rotate, Distinct-rotate}
use ai_coworker.Engine.World.{Env, World, ◌>>=◌}
use ai_coworker.Engine.World.Laws.{>>=-step}
use ai_coworker.Engine.Router.{Adapter}
use ai_coworker.Engine.Reply.{Responses}
use ai_coworker.Engine.Worker.Respond.{
  save, as_failed, fail_task, fail_all, respond_by, send_response, route_response, as_completed,
  route_absorbed, route_batched_responses,
}
use ai_coworker.Engine.Worker.Process.{is_review_task, released, release_other, keep_reviews}
use ai_coworker.Engine.Worker.Rely.{
  Rely, Takes, Takes-bind, Takes-call, Holding, Holding-calm, Holding-let_go, Holding-forget,
  Holding-rest,
}

-- A response leaves the tables alone.
pub respond_by-Takes :
    (P : Db → Type 0) (a : Option Adapter) (ref : ChannelRef) (msg : Text)
    → Takes P (respond_by a ref msg) P
unfolding respond_by ◌>>=◌
respond_by-Takes P none ref msg w p = p
respond_by-Takes P (some a) ref msg w p = p

pub send_response-Takes :
    (P : Db → Type 0) (get_adapter : Text → Option Adapter) (ref : ChannelRef) (msg : Text)
    → Takes P (send_response get_adapter ref msg) P
unfolding send_response
send_response-Takes P get_adapter ref msg = respond_by-Takes P (get_adapter ref.channel) ref msg

pub route_response-Takes :
    (P : Db → Type 0) (get_adapter : Text → Option Adapter) (thread : Thread) (t : Task)
    (response : Text)
    → Takes P (route_response get_adapter thread t response) P
unfolding route_response
route_response-Takes P get_adapter thread t response =
    Takes-bind P P P _ _ (send_response-Takes P get_adapter _ response) (λ _ w p. p) (λ db p. p)

module _ (env : Env) (worker : Text) where
  pub release_other-ok :
      (u : Task) (w : World)
      → release_other env worker u w ≡ (ok tt, (release_other env worker u w).1)
  unfolding release_other ◌>>=◌
  release_other-ok u w = elim (Bool-cases (is_review_task u)) [
    | inl review ↦ rw review
    | inr plain ↦ rw plain
  ]

  pub keep_reviews-cons :
      (u : Task) (us kept : List Task) (w w1 w2 : World)
      → release_other env worker u w ≡ (ok tt, w1)
      → keep_reviews env worker us w1 ≡ (ok kept, w2)
      → keep_reviews env worker (u ∷ us) w ≡ (ok (if is_review_task u then u ∷ kept else kept), w2)
  unfolding keep_reviews
  keep_reviews-cons u us kept w w1 w2 first rest =
      >>=-step (release_other env worker u) _ w w1 tt first
      ∙ >>=-step (keep_reviews env worker us) _ w1 w2 kept rest

  pub keep_reviews-nil : (w : World) → keep_reviews env worker [] w ≡ (ok [], w)
  unfolding keep_reviews
  keep_reviews-nil w = refl

module _ (env : Env) (worker other id thread_id own : Text) (watched : Type 0)
    (rely : Rely env worker other watched) (strangers : watched → worker ≢ other) where
  abbrev H : List Task → Db → Type 0
  H = Holding env worker other id thread_id own watched

  pub save-let_go :
      (t t' : Task) (ts : List Task)
      → t'.id ≡ t.id
      → t'.status ≢ TaskStatus.in_progress
      → Takes (H (t ∷ ts)) (save env t') (H ts)
  unfolding save
  save-let_go t t' ts same idle =
      Takes-call env (H (t ∷ ts)) (H ts) _
        (Holding-calm env worker other id thread_id own watched rely strangers (t ∷ ts))
        (λ n db h.
          Holding-let_go env worker other id thread_id own watched rely strangers (env.now n) t t'
            ts db same idle h)
        (Holding-rest env worker other id thread_id own watched rely strangers t ts)

  pub fail_task-Takes :
      (t t' : Task) (ts : List Task) (e : Error)
      → t'.id ≡ t.id
      → Takes (H (t ∷ ts)) (fail_task env t' e) (H ts)
  unfolding fail_task ◌>>=◌
  fail_task-Takes t t' ts e same = save-let_go t (as_failed env t' e) ts same (λ x. cc)

  pub fail_all-Takes : (e : Error) (ts : List Task) → Takes (H ts) (fail_all env e ts) (H [])
  unfolding fail_all
  fail_all-Takes e [] w h = h
  fail_all-Takes e (t ∷ ts) w h =
      Takes-bind (H (t ∷ ts)) (H ts) (H []) _ _ (fail_task-Takes t t ts e refl)
        (λ _. fail_all-Takes e ts)
        (Holding-forget env worker other id thread_id own watched rely strangers ts) w h

  pub route_absorbed-Takes :
      (get_adapter : Text → Option Adapter) (per_comment : Option Responses) (whole : Text) (i : ℕ)
      (thread : Thread) (ts : List Task)
      → Takes (H ts) (route_absorbed get_adapter env per_comment whole i thread ts) (H [])
  unfolding route_absorbed
  route_absorbed-Takes get_adapter per_comment whole i thread [] w h = h
  route_absorbed-Takes get_adapter per_comment whole i thread (t ∷ ts) w h =
      Takes-bind (H (t ∷ ts)) (H ts) (H []) _ _
        (λ w h. save-let_go t (as_completed get_adapter env t _) ts refl (λ x. cc) w h)
        (λ _.
          Takes-bind (H ts) (H ts) (H []) _ _ (route_response-Takes (H ts) get_adapter thread t _)
            (λ thread'.
              Takes-bind (H ts) (H []) (H []) _ _
                (route_absorbed-Takes get_adapter per_comment whole (suc i) thread' ts) (λ _ w h. h)
                (λ db h. h))
            (Holding-forget env worker other id thread_id own watched rely strangers ts))
        (Holding-forget env worker other id thread_id own watched rely strangers ts) w h

  pub route_batched_responses-Takes :
      (get_adapter : Text → Option Adapter) (thread : Thread) (t : Task) (ts : List Task)
      (whole : Text)
      → Takes (H ts) (route_batched_responses get_adapter env thread t ts whole) (H [])
  unfolding route_batched_responses
  route_batched_responses-Takes get_adapter thread t ts whole =
      Takes-bind (H ts) (H ts) (H []) _ _ (route_response-Takes (H ts) get_adapter thread t _)
        (λ thread'. route_absorbed-Takes get_adapter _ whole 2 thread' ts)
        (Holding-forget env worker other id thread_id own watched rely strangers ts)

  -- Releasing what is no review: what is kept moves behind what is still to be looked at.
  release_other-Takes :
      (u : Task) (ts : List Task)
      → Takes
          (H (u ∷ ts))
          (release_other env worker u)
          (H (if is_review_task u then ts ++ u ∷ [] else ts))
  unfolding release_other ◌>>=◌
  release_other-Takes u ts w h = elim (Bool-cases (is_review_task u)) [
    | inl review ↦ rw review (record {
      valid = h.valid;
      theirs = h.theirs;
      mine = All-rotate _ u ts [] (rw append-nil h.mine);
      apart = Distinct-rotate u ts [] (rw append-nil h.apart);
    })
    | inr plain ↦ rw plain (save-let_go u (released u) ts refl (λ x. cc) w h)
  ]

  -- The tasks that are kept are held, behind those that were held before.
  pub keep_reviews-Takes :
      (us acc : List Task) (w : World)
      → H (us ++ acc) w.db
      → (kept : List Task) × (w2 : World) × (keep_reviews env worker us w ≡ (ok kept, w2))
        × H (acc ++ kept) w2.db
  keep_reviews-Takes [] acc w h = ([], w, keep_reviews-nil env worker w, rw append-nil h)
  keep_reviews-Takes (u ∷ us) acc w h =
      let w1 = (release_other env worker u w).1 in
      let went = release_other-ok env worker u w in
      let held = release_other-Takes u (us ++ acc) w h in
      elim (Bool-cases (is_review_task u)) [
        | inl review ↦
            let (kept, w2, e, later) =
              keep_reviews-Takes us (acc ++ u ∷ []) w1 (rw (← append_assoc) (rw review at held)) in
            (
              u ∷ kept,
              w2,
              rw review at (keep_reviews-cons env worker u us kept w w1 w2 went e),
              subst (λ x. H x w2.db) (append_assoc acc (u ∷ []) kept) later,
            )
        | inr plain ↦
            let (kept, w2, e, later) = keep_reviews-Takes us acc w1 (rw plain at held) in
            (kept, w2, rw plain at (keep_reviews-cons env worker u us kept w w1 w2 went e), later)
      ]
