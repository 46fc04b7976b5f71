-- ===== src/Sandbox/Kubernetes/Cleanup.antt =====
-- What a run leaves in the cluster.
use ai_coworker.Prelude.{
  ◌≡◌, refl, ap, ◌∙◌, true, false, not, List, [], ◌∷◌, keep, All, Text, text_eq, text_eq_refl,
}
use ai_coworker.Store.{Result, ok, err}
use ai_coworker.Sandbox.{ExecRequest, prepare_env_vars}
use ai_coworker.Sandbox.Kubernetes.{
  Secret, Job, Resources, build_prompt_secret, build_job, build_resources, Answers, Cluster,
  cleanup, deleted_job, deleted_secret, Runtime, with_job, with_secret, exec,
}

-- Nothing in the cluster has this name.
abbrev pub IsFresh : Text → Cluster → Type 0
IsFresh name c =
    All (λ j. text_eq j.name name ≡ false) c.jobs × All (λ s. text_eq s.name name ≡ false) c.secrets

keep-others :
    {A : Type 0} (name_of : A → Text) (name : Text) (xs : List A)
    → All (λ x. text_eq (name_of x) name ≡ false) xs
    → keep (λ x. not (text_eq (name_of x) name)) xs ≡ xs
unfolding keep
keep-others name_of name [] h = refl
keep-others name_of name (x ∷ xs) (p, h) = rw (p, keep-others name_of name xs h) refl

keep-own :
    {A : Type 0} (name_of : A → Text) (name : Text) (x : A) (xs : List A)
    → name_of x ≡ name
    → All (λ x. text_eq (name_of x) name ≡ false) xs
    → keep (λ x. not (text_eq (name_of x) name)) (x ∷ xs) ≡ xs
unfolding keep
keep-own name_of name x xs e h =
    let own : text_eq (name_of x) name ≡ true = rw e (text_eq_refl name) in
    rw own (keep-others name_of name xs h)

cleanup-same :
    (a : Answers) (name : Text) (c d : Cluster)
    → deleted_job a.delete_job name d.jobs ≡ c.jobs
    → deleted_secret a.delete_secret name d.secrets ≡ c.secrets
    → cleanup a name d ≡ c
unfolding cleanup
cleanup-same a name c d jobs secrets =
    ap (λ js. record { jobs = js; secrets = deleted_secret a.delete_secret name d.secrets }) jobs
    ∙ ap (λ ss. record { jobs = c.jobs; secrets = ss }) secrets

-- A job that is not there is not deleted.
deleted_job-others :
    (r : Result (Unit {0})) (name : Text) (js : List Job)
    → All (λ j. text_eq j.name name ≡ false) js
    → deleted_job r name js ≡ js
deleted_job-others (ok _) name js h = keep-others (λ (j : Job). j.name) name js h
deleted_job-others (err e) name js h = refl

secret-name : (name space prompt : Text) → (build_prompt_secret name space prompt).name ≡ name
unfolding build_prompt_secret
secret-name name space prompt = refl

job-name :
    (r : Runtime) (name : Text) (req : ExecRequest) (resources : Resources)
    → (build_job r.range name r.namespace r.service_account req resources).name ≡ name
unfolding build_job
job-name r name req resources = refl

module _ (r : Runtime) (name : Text) (a : Answers) (req : ExecRequest) (c : Cluster) where
  abbrev prepared : ExecRequest
  prepared = prepare_env_vars req

  abbrev pub the_secret : Secret
  the_secret = build_prompt_secret name r.namespace prepared.prompt

  abbrev pub with_the_secret : Cluster
  with_the_secret = record c { secrets = the_secret ∷ c.secrets }

  keep-the_secret :
      IsFresh name c
      → a.delete_secret ≡ ok tt
      → deleted_secret a.delete_secret name (the_secret ∷ c.secrets) ≡ c.secrets
  keep-the_secret (jobs, secrets) deletes = rw deletes (
      keep-own (λ (s : Secret). s.name) name the_secret c.secrets
        (secret-name name r.namespace prepared.prompt) secrets)

  with_job-same :
      (created : Result (Unit {0})) (job : Job)
      → job.name ≡ name
      → IsFresh name c
      → (created ≡ ok tt → a.delete_job ≡ ok tt)
      → a.delete_secret ≡ ok tt
      → (with_job r name a created job with_the_secret).1 ≡ c
  with_job-same (err e) job named fresh job_gone secret_gone =
      cleanup-same a name c with_the_secret (deleted_job-others a.delete_job name c.jobs fresh.0)
        (keep-the_secret fresh secret_gone)
  with_job-same (ok _) job named fresh job_gone secret_gone =
      cleanup-same a name c (record with_the_secret { jobs = job ∷ c.jobs })
        (rw (job_gone refl) (keep-own (λ (j : Job). j.name) name job c.jobs named fresh.0))
        (keep-the_secret fresh secret_gone)

  with_secret-same :
      (created : Result (Unit {0})) (resources : Resources)
      → build_resources r.quantity r.quote req.cpu_limit req.mem_limit ≡ ok resources
      → IsFresh name c
      → (a.create_job ≡ ok tt → a.delete_job ≡ ok tt)
      → (created ≡ ok tt → a.delete_secret ≡ ok tt)
      → (with_secret r name a prepared created c).1 ≡ c
  unfolding prepare_env_vars
  with_secret-same (err e) resources built fresh job_gone secret_gone = refl
  with_secret-same (ok _) resources built fresh job_gone secret_gone = rw built (
      with_job-same a.create_job
        (build_job r.range name r.namespace r.service_account prepared resources)
        (job-name r name prepared resources) fresh job_gone (secret_gone refl))

  -- With limits that can be read, and if the cluster deletes what it created when it is asked to,
  -- the run leaves the cluster as it found it, whatever else the cluster answers to its calls, if
  -- nothing in it had the name of the run: the secret with the prompt and the job are deleted also
  -- when the job is refused, the watch breaks off or the logs fail. An error of a deletion is
  -- ignored, as in the code.
  pub exec-cluster :
      (resources : Resources)
      → build_resources r.quantity r.quote req.cpu_limit req.mem_limit ≡ ok resources
      → IsFresh name c
      → (a.create_job ≡ ok tt → a.delete_job ≡ ok tt)
      → (a.create_secret ≡ ok tt → a.delete_secret ≡ ok tt)
      → (exec r name a req c).1 ≡ c
  unfolding exec
  exec-cluster resources built fresh job_gone secret_gone =
      with_secret-same a.create_secret resources built fresh job_gone secret_gone
