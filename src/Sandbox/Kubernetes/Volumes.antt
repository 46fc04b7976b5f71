-- ===== src/Sandbox/Kubernetes/Volumes.antt =====
-- The volumes of a job and where they are mounted.
use ai_coworker.Prelude.{
  ℕ, suc, ◌<◌, ◌≡◌, ◌≢◌, refl, sym, ap, ◌∙◌, ◌==◌, true, some, List, [], ◌∷◌, ◌++◌, map, All, Text,
  Dict, text, strip_prefix, show_nat, read_nat, read_nat-show_nat, arith, ==_iff,
}
use ai_coworker.Sandbox.{ExecRequest}
use ai_coworker.Sandbox.Kubernetes.{
  VolumeMount, numbered_name, skill_mounts, skill_volumes, Resources, build_job,
}

strip_prefix-append : (s t : Text) → strip_prefix s (s ++ t) ≡ some t
unfolding strip_prefix
strip_prefix-append [] t = refl
strip_prefix-append (a ∷ s) t =
    let same : (a == a) ≡ true = (==_iff a a).1 refl in rw same (strip_prefix-append s t)

numbered_name-ne : (s : Text) (i j : ℕ) → i < j → numbered_name s j ≢ numbered_name s i
numbered_name-ne s i j lt e =
    let shown : some (show_nat j) ≡ some (show_nat i) =
      sym (strip_prefix-append s (show_nat j))
      ∙ ap (strip_prefix s) e
      ∙ strip_prefix-append s (show_nat i) in
    let digits : show_nat j ≡ show_nat i = cc shown in
    let same : some j ≡ some i =
      sym (read_nat-show_nat j) ∙ ap read_nat digits ∙ read_nat-show_nat i in
    let equal : j ≡ i = cc same in absurd (omega arith)

-- No two mounts have the same path.
abbrev pub DistinctPaths : List VolumeMount → Type 0
DistinctPaths [] = Unit
DistinctPaths (m ∷ ms) = All (λ n. n.mount_path ≢ m.mount_path) ms × DistinctPaths ms

skill_mounts-later :
    (i j : ℕ) (imgs : List Text)
    → i < j
    → All (λ n. n.mount_path ≢ numbered_name (text "/opt/skills-") i) (skill_mounts j imgs)
unfolding skill_mounts
skill_mounts-later i j [] lt = tt
skill_mounts-later i j (img ∷ imgs) lt =
    (numbered_name-ne (text "/opt/skills-") i j lt, skill_mounts-later i (suc j) imgs (omega arith))

DistinctPaths-skill_mounts : (i : ℕ) (imgs : List Text) → DistinctPaths (skill_mounts i imgs)
unfolding skill_mounts
DistinctPaths-skill_mounts i [] = tt
DistinctPaths-skill_mounts i (img ∷ imgs) =
    (skill_mounts-later i (suc i) imgs (omega arith), DistinctPaths-skill_mounts (suc i) imgs)

second : Text → ℕ
second (a ∷ b ∷ t) = b
second _ = 0

apart : (a b : ℕ) → a ≡ 111 → b ≡ 116 → a ≢ b
apart a b p q e = omega arith

opt_tmp : {s t : Text} → text "/op" ++ s ≢ text "/tm" ++ t
unfolding second
opt_tmp e = apart 111 116 refl refl (ap second e)

skill_mounts-prompt :
    (i : ℕ) (imgs : List Text)
    → All (λ n. n.mount_path ≢ text "/tmp/prompt.txt") (skill_mounts i imgs)
unfolding skill_mounts
skill_mounts-prompt i [] = tt
skill_mounts-prompt i (img ∷ imgs) = ((λ e. opt_tmp e), skill_mounts-prompt (suc i) imgs)

skill_mounts-volumes :
    (i : ℕ) (imgs : List Text)
    → map (λ m. m.name) (skill_mounts i imgs) ≡ map (λ v. v.name) (skill_volumes i imgs)
unfolding skill_mounts skill_volumes
skill_mounts-volumes i [] = refl
skill_mounts-volumes i (img ∷ imgs) =
    ap (λ names. numbered_name (text "skill-") i ∷ names) (skill_mounts-volumes (suc i) imgs)

-- The mounts of a job are those of its volumes, in the same order, and no two have the same path,
-- however many skill images there are.
pub build_job-volumes :
    (range : Dict → Dict) (name space account : Text) (req : ExecRequest) (resources : Resources)
    → (map (λ m. m.name) (build_job range name space account req resources).volume_mounts
        ≡ map (λ v. v.name) (build_job range name space account req resources).volumes)
      × DistinctPaths (build_job range name space account req resources).volume_mounts
unfolding build_job
build_job-volumes range name space account req resources = (
  ap (λ names. text "prompt" ∷ names) (skill_mounts-volumes 0 req.skill_images),
  (skill_mounts-prompt 0 req.skill_images, DistinctPaths-skill_mounts 0 req.skill_images),
)
