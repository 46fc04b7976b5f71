-- ===== src/Sandbox/Docker/Cleanup.antt =====
-- What a run leaves on the host.
pub mod Removal
use ai_coworker.Prelude.{
  ℕ, suc, Dict, ◌≡◌, refl, sym, ap, ◌∙◌, true, false, not, Bool, Option, none, some, List, [], ◌∷◌,
  ◌++◌, ◌||◌, keep, any, Text, text_eq, text_eq_refl, text_eq_iff, arith, Bool-cases, inl, inr, ℤ,
}
use ai_coworker.Store.{Error, Result, ok, err}
use ai_coworker.Engine.World.Laws.{Result-cases}
use ai_coworker.Sandbox.{ExecRequest, ExecResult, prepare_env_vars}
use ai_coworker.Sandbox.Docker.{
  ContainerConfig, ensure_image, Host, remove, remove_all, remove_path, add_path, remove_container,
  add_container, cleanup_skill_dirs, Answers, prepare_prompt_file, temp_created, written,
  then_removed, dir_made, copied, skill_created, extract_skill_image, skill_extracted, skill_pulled,
  mount_skills,
}
use ai_coworker.Sandbox.Docker.Exec.{
  config_of, started, created, image_ready, with_skills, with_prompt, with_resources, exec,
}
use ai_coworker.Sandbox.Docker.Cleanup.Removal.{
  IsNew, sure, remove_self, IsClean, Clean-cleanup, Kept, dir_made-Kept, then_removed-Kept,
  Host-same, remove_path-add_path,
}

-- What is created in a run is new on the host.
pub record IsFresh (a : Answers) (host : Host) : Type 0 where
  pub prompt : (d : Text) → a.create_temp ≡ ok d → IsNew d host.paths
  pub skill_dir : (i : ℕ) (d : Text) → a.make_dir i ≡ ok d → IsNew d host.paths
  pub skill_container : (i : ℕ) (d : Text) → a.create_skill i ≡ ok d → IsNew d host.containers
  pub container : (cfg : ContainerConfig) (d : Text) → a.create cfg ≡ ok d → IsNew d host.containers

module _ (b : Answers) (host : Host) (fresh : IsFresh b host) (p : Text) where
  abbrev a : Answers
  a = sure b

  abbrev C : List Text → Host → Type 0
  C = IsClean b p host.containers host.paths

  skill_created-Kept :
      (i : ℕ) (made : Result Text) (dirs : List Text) (h : Host)
      → ((d : Text) → made ≡ ok d → IsNew d host.containers)
      → C dirs h
      → Kept b p host.containers host.paths dirs (skill_created a i made h)
  skill_created-Kept i (err e) dirs h new c = c
  skill_created-Kept i (ok id) dirs h new (same, clean) =
      then_removed-Kept b p host.containers host.paths id dirs
        (dir_made a (a.make_dir i) (a.copy i) (a.extract i) (add_container id h)) (new id refl)
        (dir_made-Kept b p (id ∷ host.containers) host.paths (a.make_dir i) (a.copy i) (a.extract i)
          dirs (add_container id h) (fresh.skill_dir i) (ap (λ cs. id ∷ cs) same, clean))

  extract_skill_image-Kept :
      (i : ℕ) (dirs : List Text) (h : Host)
      → C dirs h
      → Kept b p host.containers host.paths dirs (extract_skill_image a i h)
  unfolding extract_skill_image
  extract_skill_image-Kept i dirs h c =
      skill_created-Kept i (a.create_skill i) dirs h (fresh.skill_container i) c

  abbrev Mounted : Result (List Text) × Host → Type 0
  Mounted (err e, h) = C [] h
  Mounted (ok dirs, h) = C dirs h

  skill_extracted-Mounted :
      (img : Text) (dirs : List Text) (x : Result Text × Host)
      (next : Text → Host → Result (List Text) × Host)
      → Kept b p host.containers host.paths dirs x
      → ((d : Text) (h : Host) → C (dirs ++ d ∷ []) h → Mounted (next d h))
      → Mounted (skill_extracted a img dirs x next)
  skill_extracted-Mounted img dirs (err e, h) next k more =
      Clean-cleanup b p host.containers host.paths dirs h k
  skill_extracted-Mounted img dirs (ok d, h) next k more = more d h k

  skill_pulled-Mounted :
      (img : Text) (dirs : List Text) (r : Result (Unit {0})) (h : Host)
      (next : Result (List Text) × Host)
      → C dirs h
      → Mounted next
      → Mounted (skill_pulled a img dirs r h next)
  skill_pulled-Mounted img dirs (err e) h next c more =
      Clean-cleanup b p host.containers host.paths dirs h c
  skill_pulled-Mounted img dirs (ok _) h next c more = more

  mount_skills-Mounted :
      (dirs : List Text) (i : ℕ) (imgs : List Text) (h : Host)
      → C dirs h
      → Mounted (mount_skills a dirs i imgs h)
  unfolding mount_skills
  mount_skills-Mounted dirs i [] h c = c
  mount_skills-Mounted dirs i (img ∷ imgs) h c =
      skill_pulled-Mounted img dirs (ensure_image img (a.pulls img)).0 h _ c (
        skill_extracted-Mounted img dirs (extract_skill_image a i h) _
          (extract_skill_image-Kept i dirs h c)
          (λ d g k. mount_skills-Mounted (dirs ++ d ∷ []) (suc i) imgs g k))

  created-Clean :
      (made : Result Text) (begun : Result (Unit {0})) (dirs : List Text) (h : Host)
      → ((d : Text) → made ≡ ok d → IsNew d host.containers)
      → C dirs h
      → C dirs (created (record a { start = begun }) made h).1
  created-Clean (err e) begun dirs h new c = c
  created-Clean (ok id) (err e) dirs h new (same, clean) =
      (remove_self id h.containers ∙ ap (remove id) same ∙ new id refl, clean)
  created-Clean (ok id) (ok _) dirs h new (same, clean) =
      (remove_self id h.containers ∙ ap (remove id) same ∙ new id refl, clean)

  image_ready-Clean :
      (cfg : ContainerConfig) (r : Result (Unit {0})) (dirs : List Text) (h : Host)
      → C dirs h
      → C dirs (image_ready a cfg r h).1
  image_ready-Clean cfg (err e) dirs h c = c
  image_ready-Clean cfg (ok _) dirs h c =
      created-Clean (a.create cfg) a.start dirs h (fresh.container cfg) c

  with_skills-Clean :
      (cfg : List Text → ContainerConfig) (img : Text) (x : Result (List Text) × Host)
      → Mounted x
      → C [] (with_skills a cfg img x).1
  with_skills-Clean cfg img (err e, h) c = c
  with_skills-Clean cfg img (ok dirs, h) c =
      Clean-cleanup b p host.containers host.paths dirs _
        (image_ready-Clean (cfg dirs) (ensure_image img (a.pulls img)).0 dirs h c)

  -- The prompt goes at the end.
  with_prompt-same :
      (range : Dict → Dict) (scaled : Text → ℕ → Result ℤ) (quote : Text → Text) (req : ExecRequest)
      (resources : ℤ × ℤ) (h : Host)
      → C [] h
      → (with_prompt range scaled quote a req resources (ok p, h)).1 ≡ host
  unfolding remove_all
  with_prompt-same range scaled quote req resources h c =
      let (same, clean) =
        with_skills-Clean (config_of range req resources p) req.image
          (mount_skills a [] 0 req.skill_images h)
          (mount_skills-Mounted [] 0 req.skill_images h c) in
      Host-same b p _ host same clean

module _ (range : Dict → Dict) (scaled : Text → ℕ → Result ℤ) (quote : Text → Text) (b : Answers)
    (req : ExecRequest) (resources : ℤ × ℤ) (host : Host) (fresh : IsFresh b host) where
  abbrev sure_a : Answers
  sure_a = sure b

  abbrev run_with : Result Text × Host → Result ExecResult × Host
  run_with = with_prompt range scaled quote sure_a req resources

  written-same :
      (path : Text)
      → IsNew path host.paths
      → (wrote chmod : Result (Unit {0}))
      → (run_with (written sure_a path wrote chmod (add_path path host))).1 ≡ host
  unfolding remove_all
  written-same path new (err e) chmod = remove_path-add_path b path host new
  written-same path new (ok _) (err e) = remove_path-add_path b path host new
  written-same path new (ok _) (ok _) =
      with_prompt-same b host fresh path range scaled quote req resources (add_path path host)
        (refl, remove_self path host.paths ∙ new)

  temp_created-same :
      (made : Result Text)
      → ((d : Text) → made ≡ ok d → IsNew d host.paths)
      → (run_with (temp_created sure_a made host)).1 ≡ host
  temp_created-same (err e) new = refl
  temp_created-same (ok path) new = written-same path (new path refl) b.write b.chmod

  prompt-same : (run_with (prepare_prompt_file sure_a host)).1 ≡ host
  unfolding prepare_prompt_file
  prompt-same = temp_created-same b.create_temp fresh.prompt

module _ (range : Dict → Dict) (scaled : Text → ℕ → Result ℤ) (quote : Text → Text)
    (a : Answers) where
  with_resources-same :
      (req : ExecRequest) (resources : Result (ℤ × ℤ)) (host : Host)
      → IsFresh a host
      → (with_resources range scaled quote (sure a) req resources host).1 ≡ host
  with_resources-same req (err e) host fresh = refl
  with_resources-same req (ok resources) host fresh =
      prompt-same range scaled quote a req resources host fresh

  exec-sure :
      (req : ExecRequest) (host : Host)
      → IsFresh a host
      → (exec range scaled quote (sure a) req host).1 ≡ host
  unfolding exec
  exec-sure req host fresh = with_resources-same (prepare_env_vars req) _ host fresh

  -- If Docker and the operating system do what they are asked when a run removes a container, a file
  -- or a directory, the run leaves the host as it found it, whatever else they answer: on each path,
  -- failures included, the containers, the file of the prompt and the directories of the skills are
  -- removed, if what is created has a new name. An error of a removal is ignored, as in the code.
  pub exec-host :
      (req : ExecRequest) (host : Host)
      → IsFresh a host
      → ((id : Text) → a.remove_container id ≡ ok tt)
      → ((path : Text) → a.remove_path path ≡ ok tt)
      → (exec range scaled quote a req host).1 ≡ host
  exec-host req host fresh containers paths =
      let same : a ≡ sure a = λ i. record a {
        remove_container = λ id. containers id i;
        remove_path = λ path. paths path i;
      } in
      ap (λ b. (exec range scaled quote b req host).1) same ∙ exec-sure req host fresh
