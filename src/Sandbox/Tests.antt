-- ===== src/Sandbox/Tests.antt =====
-- The sandboxes on small runs.
use ai_coworker.Prelude.{
  ◌≡◌, refl, subst, false, none, some, List, [], ◌∷◌, ◌++◌, All, Text, text, text_eq, keep, ℤ,
}
use ai_coworker.Store.{fault, ok, err}
use ai_coworker.Sandbox.{ExecRequest}
use ai_coworker.Sandbox.Kubernetes as Kubernetes
use ai_coworker.Sandbox.Kubernetes.Cleanup.{IsFresh, exec-cluster}
use ai_coworker.Sandbox.Docker as Docker
use ai_coworker.Sandbox.Docker.Exec as Run
use ai_coworker.Sandbox.Docker.Cleanup as Host
use ai_coworker.Sandbox.Docker.Cleanup.Removal.{IsNew}
use ai_coworker.Sandbox.Docker.Tar.{
  EntryType, Header, Paths, IsInside, extract_tar, extract_tar-IsInside,
}

abbrev request : ExecRequest
request = record {
  image = text "agent";
  clone_url = text "https://github.com/o/r";
  branch = [];
  prompt = text "fix it";
  env_vars = none;
  binds = [];
  timeout = ℤ.pos 60;
  cpu_limit = text "2";
  mem_limit = [];
  skill_images = text "skills" ∷ [];
}

-- A job that runs and fails.
abbrev answers : Kubernetes.Answers
answers = record {
  create_secret = ok tt;
  create_job = ok tt;
  events = ok (Kubernetes.Event.job_status 0 0 [] ∷ Kubernetes.Event.job_status 0 1 [] ∷ []);
  failed_pods = ok [];
  pods = ok [];
  open_logs = λ pod. ok tt;
  read_logs = λ pod. ok [];
  delete_job = ok tt;
  delete_secret = ok tt;
}

abbrev runtime : Kubernetes.Runtime
runtime = record {
  namespace = text "bots";
  service_account = [];
  range = λ m. m;
  quantity = λ s. ok s;
  quote = λ s. s;
}

abbrev another : Kubernetes.Secret
another = record { name = text "tls"; namespace = text "bots"; labels = []; files = [] }

abbrev cluster : Kubernetes.Cluster
cluster = record { jobs = []; secrets = another ∷ [] }

limits :
    Kubernetes.build_resources runtime.quantity runtime.quote (text "2") []
    ≡ ok (some (text "2"), none)
unfolding Kubernetes.build_resources
limits = refl

cluster-IsFresh : IsFresh (text "sandbox-1") cluster
unfolding text_eq
cluster-IsFresh = (tt, (refl, tt))

exec-cluster_example :
    (Kubernetes.exec runtime (text "sandbox-1") answers request cluster).1 ≡ cluster
exec-cluster_example =
    exec-cluster runtime (text "sandbox-1") answers request cluster (some (text "2"), none) limits
      cluster-IsFresh (λ e. refl) (λ e. refl)

-- The copy of the skills breaks off.
abbrev broken : Docker.Answers
broken = record {
  create_temp = ok (text "/tmp/prompt");
  write = ok tt;
  chmod = ok tt;
  pulls = λ img. record { cancelled = λ n. none; pull = λ n. ok tt };
  create_skill = λ i. ok (text "skill");
  make_dir = λ i. ok (text "/tmp/skill");
  copy = λ i. ok tt;
  extract = λ i. err (fault (text "unexpected EOF"));
  create = λ cfg. ok (text "run");
  start = ok tt;
  signals = [];
  last_code = ℤ.pos 0;
  last_message = none;
  open_logs = ok tt;
  read_logs = ok [];
  remove_container = λ id. ok tt;
  remove_path = λ path. ok tt;
}

abbrev host : Docker.Host
host = record { containers = text "db" ∷ []; paths = text "/tmp/x" ∷ [] }

renamed : (ys : List Text) (x d : Text) → IsNew x ys → ok x ≡ ok d → IsNew d ys
renamed ys x d new e = let same : x ≡ d = cc in subst (λ y. IsNew y ys) same new

host-IsFresh : Host.IsFresh broken host
unfolding Docker.remove keep text_eq
host-IsFresh = record {
  prompt = λ d. renamed host.paths (text "/tmp/prompt") d refl;
  skill_dir = λ i d. renamed host.paths (text "/tmp/skill") d refl;
  skill_container = λ i d. renamed host.containers (text "skill") d refl;
  container = λ cfg d. renamed host.containers (text "run") d refl;
}

exec-host_example : (Run.exec (λ m. m) (λ s n. ok (ℤ.pos n)) (λ s. s) broken request host).1 ≡ host
exec-host_example =
    Host.exec-host (λ m. m) (λ s n. ok (ℤ.pos n)) (λ s. s) broken request host host-IsFresh
      (λ id. refl) (λ path. refl)

-- Names without dots.
abbrev paths : Paths
paths = record {
  clean = λ t. t;
  join = λ a b. a ++ (text "/" ++ b);
  dir_of = λ t. t;
  is_abs = λ t. false;
  quote = λ t. t;
}

abbrev archive : List Header
archive =
    record {
      name = text "a.md";
      type_flag = EntryType.regular;
      size = 2;
      link_name = [];
      content_size = 2;
    }
    ∷ record {
      name = text "b.md";
      type_flag = EntryType.symbolic_link;
      size = 0;
      link_name = text "a.md";
      content_size = 0;
    }
    ∷ []

extract_tar-IsInside_example :
    All
      (IsInside paths (text "/tmp/s"))
      (extract_tar paths (text "/tmp/s") (λ s. ok tt) (ok tt) archive).1
extract_tar-IsInside_example =
    extract_tar-IsInside paths (text "/tmp/s") (λ s. ok tt) (ok tt) archive
