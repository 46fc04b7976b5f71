-- ===== src/Sandbox/Kubernetes/Build.antt =====
-- The secret and the job of a run, as internal/sandbox/kubernetes/kubernetes.go builds them.
use ai_coworker.Prelude.{
  ℕ, suc, Bool, true, false, Option, none, some, List, [], ◌∷◌, ◌++◌, Text, Dict, text, is_empty,
  show_nat, if◌then◌else◌,
}
use ai_coworker.Store.{wrap, Result, ok, err}
use ai_coworker.Engine.Intent.{entries}
use ai_coworker.Sandbox.{ExecRequest}

abbrev pub managed_by : Dict
managed_by = ("app.kubernetes.io/managed-by", text "ai-coworker") ∷ []

-- `corev1.Secret`, `corev1.VolumeMount` and `corev1.Volume`, as far as they are set.
pub record Secret : Type 0 where
  pub name : Text
  pub namespace : Text
  pub labels : Dict
  pub files : Dict

unfoldable pub build_prompt_secret : Text → Text → Text → Secret
build_prompt_secret name namespace prompt = record {
  name = name;
  namespace = namespace;
  labels = managed_by;
  files = ("prompt.txt", prompt) ∷ [];
}

pub record VolumeMount : Type 0 where
  pub name : Text
  pub mount_path : Text
  pub sub_path : Text
  pub read_only : Bool

pub data VolumeSource : Type 0 where
  secret : Text → VolumeSource
  image : Text → VolumeSource

pub record Volume : Type 0 where
  pub name : Text
  pub source : VolumeSource

abbrev pub numbered_name : Text → ℕ → Text
numbered_name prefix i = prefix ++ show_nat i

unfoldable pub skill_mounts : ℕ → List Text → List VolumeMount
unfolding show_nat
skill_mounts i [] = []
skill_mounts i (img ∷ imgs) =
    record {
      name = numbered_name (text "skill-") i;
      mount_path = numbered_name (text "/opt/skills-") i;
      sub_path = [];
      read_only = true;
    }
    ∷ skill_mounts (suc i) imgs

unfoldable pub skill_volumes : ℕ → List Text → List Volume
unfolding show_nat
skill_volumes i [] = []
skill_volumes i (img ∷ imgs) =
    record { name = numbered_name (text "skill-") i; source = VolumeSource.image img }
    ∷ skill_volumes (suc i) imgs

-- The quantities of CPU and of memory, where they are limited: limits and requests alike.
abbrev pub Resources : Type 0
Resources = Option Text × Option Text

-- `batchv1.Job`: one container that runs as no root, without privilege escalation and capabilities,
-- and is tried once.
pub record Job : Type 0 where
  pub name : Text
  pub namespace : Text
  pub labels : Dict
  pub backoff_limit : ℕ
  pub ttl_seconds : ℕ
  pub service_account : Text
  pub image : Text
  pub env : Dict
  pub resources : Resources
  pub volume_mounts : List VolumeMount
  pub volumes : List Volume
  pub run_as_non_root : Bool
  pub allow_privilege_escalation : Bool
  pub dropped_capabilities : List Text

-- `range` is the order in which Go goes over a map.
unfoldable pub build_job : (Dict → Dict) → Text → Text → Text → ExecRequest → Resources → Job
unfolding skill_mounts skill_volumes
build_job range name namespace service_account req resources = record {
  name = name;
  namespace = namespace;
  labels = managed_by;
  backoff_limit = 0;
  ttl_seconds = 3600;
  service_account = service_account;
  image = req.image;
  env = range (entries req.env_vars);
  resources = resources;
  volume_mounts =
      record {
        name = text "prompt";
        mount_path = text "/tmp/prompt.txt";
        sub_path = text "prompt.txt";
        read_only = true;
      }
      ∷ skill_mounts 0 req.skill_images;
  volumes =
      record { name = text "prompt"; source = VolumeSource.secret name }
      ∷ skill_volumes 0 req.skill_images;
  run_as_non_root = true;
  allow_privilege_escalation = false;
  dropped_capabilities = text "ALL" ∷ [];
}

-- `quantity` is `resource.ParseQuantity`, `quote` the verb %q of fmt.
module _ (quantity : Text → Result Text) (quote : Text → Text) where
  abbrev pub limited : Text → Text → Result Text → Result (Option Text)
  limited what limit (ok q) = ok (some q)
  limited what limit (err e) =
      err (wrap (text "invalid " ++ (what ++ (text " limit " ++ quote limit))) e)

  abbrev pub limit_of : Text → Text → Result (Option Text)
  limit_of what limit = if is_empty limit then ok none else limited what limit (quantity limit)

  abbrev pub both : Result (Option Text) → Result (Option Text) → Result Resources
  both (err e) memory = err e
  both (ok c) (err e) = err e
  both (ok c) (ok m) = ok (c, m)

  unfoldable pub build_resources : Text → Text → Result Resources
  build_resources cpu_limit mem_limit =
      both (limit_of (text "CPU") cpu_limit) (limit_of (text "memory") mem_limit)
