-- ===== src/Sandbox/Kubernetes.antt =====
-- The runtime that runs a sandbox as a job of Kubernetes, internal/sandbox/kubernetes/kubernetes.go.
-- What the cluster answers is an argument; what the run leaves in the cluster is its state.
pub mod Build
pub mod Cleanup
pub mod Volumes
use ai_coworker.Prelude.{
  ℕ, zero, suc, ◌*◌, Bool, true, false, Option, none, some, List, [], ◌∷◌, ◌++◌, ◌||◌, Text, String,
  Dict, text, text_eq, is_empty, show_nat, not, keep, take, map, ℤ, if◌then◌else◌,
}
use ai_coworker.Store.{Error, fault, wrap, Result, ok, err}
use ai_coworker.Engine.Intent.{entries}
use ai_coworker.Sandbox.{ExecRequest, ExecResult, prepare_env_vars}
pub use ai_coworker.Sandbox.Kubernetes.Build.{
  managed_by, Secret, VolumeMount, VolumeSource, Volume, numbered_name, Resources, Job, limited,
  limit_of, both,
}
unfoldable pub use ai_coworker.Sandbox.Kubernetes.Build.{
  build_prompt_secret, skill_mounts, skill_volumes, build_job, build_resources,
}

-- An event of a watch on a job: an error, another object, or the job's counts and the messages of
-- its conditions.
pub data Event : Type 0 where
  watch_error : Event
  other_object : Event
  job_status : ℕ → ℕ → List Text → Event

-- The statuses of a pod's containers: the exit code and the reason of one that terminated.
pub record Pod : Type 0 where
  pub name : Text
  pub statuses : List (Option (ℤ × Text))

unfoldable pub terminated : List (Option (ℤ × Text)) → ℤ × Text
terminated [] = (ℤ.pos 1, [])
terminated (some s ∷ _) = s
terminated (none ∷ rest) = terminated rest

unfoldable pub get_pod_exit_code : Result (List Pod) → ℤ × Text
unfolding terminated
get_pod_exit_code (err e) = (ℤ.pos 1, [])
get_pod_exit_code (ok []) = (ℤ.pos 1, [])
get_pod_exit_code (ok (p ∷ _)) = terminated p.statuses

abbrev pub first_message : List Text → Text
first_message [] = []
first_message (m ∷ _) = m

abbrev pub failed_with : List Text → ℤ × Text → Result (ℤ × Text)
failed_with conditions (code, []) = ok (code, first_message conditions)
failed_with conditions (code, c ∷ reason) = ok (code, c ∷ reason)

-- The events until the watch is closed.
unfoldable pub watched : Text → Result (List Pod) → List Event → Result (ℤ × Text)
unfolding get_pod_exit_code
watched name pods [] = err (fault (text "job watch closed unexpectedly for " ++ name))
watched name pods (Event.watch_error ∷ _) = err (fault (text "watch error for job " ++ name))
watched name pods (Event.other_object ∷ events) = watched name pods events
watched name pods (Event.job_status (suc succeeded) failed conditions ∷ _) = ok (ℤ.pos 0, [])
watched name pods (Event.job_status zero (suc failed) conditions ∷ _) =
    failed_with conditions (get_pod_exit_code pods)
watched name pods (Event.job_status zero zero conditions ∷ events) = watched name pods events

unfoldable pub wait_for_job : Text → Result (List Pod) → Result (List Event) → Result (ℤ × Text)
unfolding watched
wait_for_job name pods (err e) = err (wrap (text "failed to watch job") e)
wait_for_job name pods (ok events) = watched name pods events

-- What the cluster answers to a run; `pods` is asked after the run, for its logs.
pub record Answers : Type 0 where
  pub create_secret : Result (Unit {0})
  pub create_job : Result (Unit {0})
  pub events : Result (List Event)
  pub failed_pods : Result (List Pod)
  pub pods : Result (List Pod)
  pub open_logs : Text → Result (Unit {0})
  pub read_logs : Text → Result Text
  pub delete_job : Result (Unit {0})
  pub delete_secret : Result (Unit {0})

abbrev pub max_log_bytes : ℕ
max_log_bytes = 10 * 1024 * 1024

abbrev pub data_read : Result Text → Result Text
data_read (ok t) = ok (take max_log_bytes t)
data_read (err e) = err (wrap (text "failed to read pod logs") e)

abbrev pub streamed : Result (Unit {0}) → Result Text → Result Text
streamed (err e) logs = err (wrap (text "failed to stream pod logs") e)
streamed (ok _) logs = data_read logs

unfoldable pub read_pod_logs : Text → Answers → Result (List Pod) → Result Text
read_pod_logs name a (err e) = err (wrap (text "failed to list pods for job " ++ name) e)
read_pod_logs name a (ok []) = err (fault (text "no pods found for job " ++ name))
read_pod_logs name a (ok (p ∷ _)) = streamed (a.open_logs p.name) (a.read_logs p.name)

-- The jobs and the secrets of the namespace.
pub record Cluster : Type 0 where
  pub jobs : List Job
  pub secrets : List Secret

abbrev pub deleted_job : Result (Unit {0}) → Text → List Job → List Job
deleted_job (ok _) name jobs = keep (λ j. not (text_eq j.name name)) jobs
deleted_job (err e) name jobs = jobs

abbrev pub deleted_secret : Result (Unit {0}) → Text → List Secret → List Secret
deleted_secret (ok _) name secrets = keep (λ s. not (text_eq s.name name)) secrets
deleted_secret (err e) name secrets = secrets

-- Both are deleted, if they are there; the errors of that are ignored.
unfoldable pub cleanup : Answers → Text → Cluster → Cluster
unfolding keep text_eq
cleanup a name c = record {
  jobs = deleted_job a.delete_job name c.jobs;
  secrets = deleted_secret a.delete_secret name c.secrets;
}

-- `Runtime`, with the order of maps, the parser of quantities and the verb %q.
pub record Runtime : Type 0 where
  pub namespace : Text
  pub service_account : Text
  pub range : Dict → Dict
  pub quantity : Text → Result Text
  pub quote : Text → Text

abbrev pub told : ℤ → Result Text → Result ExecResult
told code (err e) = err e
told code (ok output) = ok (record { output = output; exit_code = code; error = [] })

abbrev pub finished : Text → Answers → Result (ℤ × Text) → Result ExecResult
finished name a (err e) = err e
finished name a (ok (code, [])) = told code (read_pod_logs name a a.pods)
finished name a (ok (code, c ∷ failure)) =
    ok (record { output = []; exit_code = code; error = c ∷ failure })

module _ (r : Runtime) (name : Text) (a : Answers) where
  -- With the job created, it is cleaned up whatever happens.
  abbrev pub with_job : Result (Unit {0}) → Job → Cluster → Result ExecResult × Cluster
  with_job (err e) job c = (err (wrap (text "failed to create sandbox job") e), cleanup a name c)
  with_job (ok _) job c = (
    finished name a (wait_for_job name a.failed_pods a.events),
    cleanup a name (record c { jobs = job ∷ c.jobs }),
  )

  abbrev pub with_resources : ExecRequest → Result Resources → Cluster → Result ExecResult × Cluster
  with_resources req (err e) c = (err e, c)
  with_resources req (ok resources) c =
      with_job a.create_job (build_job r.range name r.namespace r.service_account req resources) c

  abbrev pub with_secret : ExecRequest → Result (Unit {0}) → Cluster → Result ExecResult × Cluster
  with_secret req (err e) c = (err (wrap (text "failed to create prompt secret") e), c)
  with_secret req (ok _) c =
      with_resources req (build_resources r.quantity r.quote req.cpu_limit req.mem_limit)
        (record c { secrets = build_prompt_secret name r.namespace req.prompt ∷ c.secrets })

  -- `name` is the fresh name of the run.
  unfoldable pub exec : ExecRequest → Cluster → Result ExecResult × Cluster
  unfolding prepare_env_vars build_prompt_secret build_resources build_job wait_for_job
      read_pod_logs cleanup
  exec req c = with_secret (prepare_env_vars req) a.create_secret c
