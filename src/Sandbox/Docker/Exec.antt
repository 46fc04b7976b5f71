-- ===== src/Sandbox/Docker/Exec.antt =====
-- A whole run of the Docker runtime, Exec of internal/sandbox/docker/docker.go, and what it mounts.
use ai_coworker.Prelude.{ℕ, suc, true, List, [], ◌∷◌, ◌++◌, Text, Dict, text, show_nat, ℤ}
use ai_coworker.Store.{wrap, Result, ok, err}
use ai_coworker.Engine.Intent.{entries}
use ai_coworker.Sandbox.{ExecRequest, ExecResult, prepare_env_vars}
use ai_coworker.Sandbox.Docker.{
  parse_resources, ensure_image, await_container_status, Host, remove_path, add_container,
  remove_container, then_removed, ContainerConfig, build_env, cleanup_skill_dirs, Answers,
  prepare_prompt_file, mount_skills,
}

-- `%s:/opt/skills-%d:ro`
unfoldable pub skill_binds : ℕ → List Text → List Text
unfolding show_nat
skill_binds i [] = []
skill_binds i (dir ∷ dirs) =
    (dir ++ (text ":/opt/skills-" ++ (show_nat i ++ text ":ro"))) ∷ skill_binds (suc i) dirs

-- What the sandbox sees of the host: the binds of the request, the prompt and the skills.
unfoldable pub binds_of : List Text → Text → List Text → List Text
unfolding skill_binds
binds_of binds prompt_path dirs =
    binds ++ ((prompt_path ++ text ":/tmp/prompt.txt:ro") ∷ skill_binds 0 dirs)

abbrev pub read_out : ℤ → Result (Unit {0}) → Result Text → Result ExecResult
read_out code (err e) logs = err (wrap (text "failed to read container logs") e)
read_out code (ok _) (err e) = err (wrap (text "failed to copy container logs") e)
read_out code (ok _) (ok output) = ok (record { output = output; exit_code = code; error = [] })

abbrev pub collected : Answers → Result (ℤ × Text) → Result ExecResult
collected a (err e) = err e
collected a (ok (code, [])) = read_out code a.open_logs a.read_logs
collected a (ok (code, c ∷ message)) =
    ok (record { output = []; exit_code = code; error = c ∷ message })

unfoldable pub wait_and_collect_logs : Answers → Result ExecResult
unfolding await_container_status
wait_and_collect_logs a =
    collected a (await_container_status a.last_code a.last_message true a.signals)

-- Deferred clean-ups.
abbrev pub then_cleaned : {A : Type 0} → Answers → List Text → A × Host → A × Host
then_cleaned a dirs (r, h) = (r, cleanup_skill_dirs a dirs h)

abbrev pub then_unlinked : {A : Type 0} → Answers → Text → A × Host → A × Host
then_unlinked a path (r, h) = (r, remove_path a path h)

abbrev pub started : Answers → Text → Result (Unit {0}) → Host → Result ExecResult × Host
started a id (err e) h = (err (wrap (text "failed to start container") e), remove_container a id h)
started a id (ok _) h = then_removed a id (wait_and_collect_logs a, h)

abbrev pub created : Answers → Result Text → Host → Result ExecResult × Host
created a (err e) h = (err (wrap (text "failed to create container") e), h)
created a (ok id) h = started a id a.start (add_container id h)

abbrev pub image_ready :
    Answers → ContainerConfig → Result (Unit {0}) → Host → Result ExecResult × Host
image_ready a cfg (err e) h = (err e, h)
image_ready a cfg (ok _) h = created a (a.create cfg) h

-- `range` is the order in which Go goes over a map.
unfoldable pub config_of : (Dict → Dict) → ExecRequest → ℤ × ℤ → Text → List Text → ContainerConfig
unfolding build_env binds_of
config_of range req (cpus, memory) prompt_path dirs = record {
  image = req.image;
  env = build_env (range (entries req.env_vars));
  nano_cpus = cpus;
  memory = memory;
  binds = binds_of req.binds prompt_path dirs;
  cap_drop = text "ALL" ∷ [];
  security_opt = text "no-new-privileges" ∷ [];
}

-- The container is run with the skills mounted, if they all could be; its image is pulled before.
abbrev pub with_skills :
    Answers
    → (List Text → ContainerConfig)
    → Text
    → Result (List Text) × Host
    → Result ExecResult × Host
with_skills a cfg img (err e, h) = (err e, h)
with_skills a cfg img (ok dirs, h) =
    then_cleaned a dirs (image_ready a (cfg dirs) (ensure_image img (a.pulls img)).0 h)

module _ (range : Dict → Dict) (scaled : Text → ℕ → Result ℤ) (quote : Text → Text)
    (a : Answers) where
  abbrev pub with_prompt : ExecRequest → ℤ × ℤ → Result Text × Host → Result ExecResult × Host
  with_prompt req resources (err e, h) = (err e, h)
  with_prompt req resources (ok path, h) = then_unlinked a path (
      with_skills a (config_of range req resources path) req.image
        (mount_skills a [] 0 req.skill_images h))

  abbrev pub with_resources : ExecRequest → Result (ℤ × ℤ) → Host → Result ExecResult × Host
  with_resources req (err e) h = (err e, h)
  with_resources req (ok resources) h = with_prompt req resources (prepare_prompt_file a h)

  unfoldable pub exec : ExecRequest → Host → Result ExecResult × Host
  unfolding prepare_env_vars parse_resources prepare_prompt_file mount_skills ensure_image
      cleanup_skill_dirs wait_and_collect_logs config_of
  exec req h =
      with_resources (prepare_env_vars req)
        (parse_resources scaled quote req.cpu_limit req.mem_limit) h
