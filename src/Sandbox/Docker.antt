-- ===== src/Sandbox/Docker.antt =====
-- The runtime that runs a sandbox as a container, internal/sandbox/docker/docker.go. What Docker and
-- the operating system answer is an argument; what the run leaves on the host is its state.
pub mod Tar
pub mod Exec
pub mod Pulling
pub mod Cleanup
use ai_coworker.Prelude.{
  ℕ, zero, suc, ◌+◌, ◌*◌, Bool, true, false, not, Option, none, some, List, [], ◌∷◌, ◌++◌, Text,
  Dict, text, text_eq, cut_suffix, is_empty, show_nat, keep, take, length, ltb, ℤ, if◌then◌else◌,
}
use ai_coworker.Store.{Error, fault, wrap, Result, ok, err}
use ai_coworker.Sandbox.{ExecRequest, ExecResult}

unfoldable pub short_id : Text → Text
short_id id = if ltb 12 (length id) then take 12 id else id

-- `scaled` is `strconv.ParseFloat`, times a factor, as int64; `quote` is the verb %q of fmt.
module _ (scaled : Text → ℕ → Result ℤ) (quote : Text → Text) where
  abbrev pub in_units : Text → Option Text → Option Text → Result ℤ
  in_units s (some digits) mega = scaled digits (1024 * 1024 * 1024)
  in_units s none (some digits) = scaled digits (1024 * 1024)
  in_units s none none =
      err (fault (text "unsupported memory unit in " ++ (quote s ++ text " (use Mi or Gi)")))

  unfoldable pub parse_mem_limit : Text → Result ℤ
  unfolding cut_suffix
  parse_mem_limit s = in_units s (cut_suffix s (text "Gi")) (cut_suffix s (text "Mi"))

  -- The CPUs in billionths, and the memory; 0 is no limit.
  abbrev pub Resources : Type 0
  Resources = ℤ × ℤ

  abbrev pub named : Text → Text → Result ℤ → Result ℤ
  named what limit (ok n) = ok n
  named what limit (err e) =
      err (wrap (text "invalid " ++ (what ++ (text " limit " ++ quote limit))) e)

  abbrev pub limit_of : Text → Text → (Text → Result ℤ) → Result ℤ
  limit_of what limit parse =
      if is_empty limit then ok (ℤ.pos 0) else named what limit (parse limit)

  abbrev pub both : Result ℤ → Result ℤ → Result Resources
  both (err e) memory = err e
  both (ok c) (err e) = err e
  both (ok c) (ok m) = ok (c, m)

  unfoldable pub parse_resources : Text → Text → Result Resources
  unfolding parse_mem_limit
  parse_resources cpu_limit mem_limit =
      both (limit_of (text "CPU") cpu_limit (λ s. scaled s 1000000000))
        (limit_of (text "memory") mem_limit parse_mem_limit)

-- What the context and a registry answer, by the number of the attempt.
pub record Pulls : Type 0 where
  pub cancelled : ℕ → Option Error
  pub pull : ℕ → Result (Unit {0})

abbrev pub pulled : Result (Unit {0}) → (Error → Result (Unit {0}) × ℕ) → ℕ → Result (Unit {0}) × ℕ
pulled (ok _) again made = (ok tt, made)
pulled (err e) again made = again e

abbrev pub unless : Option Error → ℕ → Result (Unit {0}) × ℕ → Result (Unit {0}) × ℕ
unless (some e) made next = (err e, made)
unless none made next = next

-- The attempts that are left after a failed one, and how many pulls were made.
unfoldable pub pull_again : Text → Pulls → ℕ → ℕ → Error → Result (Unit {0}) × ℕ
pull_again img p zero made last = (err (wrap (text "failed to pull image " ++ img) last), made)
pull_again img p (suc left) made last =
    unless (p.cancelled made) made
      (pulled (p.pull made) (λ e. pull_again img p left (suc made) e) (suc made))

-- The first attempt is made at once.
unfoldable pub ensure_image : Text → Pulls → Result (Unit {0}) × ℕ
unfolding pull_again
ensure_image img p = pulled (p.pull 0) (λ e. pull_again img p 2 1 e) 1

-- What arrives while a container is waited for: an error or nil, or its status.
pub data Signal : Type 0 where
  failed : Error → Signal
  no_error : Signal
  status : ℤ → Option Text → Signal

abbrev pub message_of : Option Text → Text
message_of none = []
message_of (some m) = m

-- After a nil error the errors are not read any more; `code` and `message` are the status that comes
-- when nothing else is left.
unfoldable pub await_container_status : ℤ → Option Text → Bool → List Signal → Result (ℤ × Text)
await_container_status code m listening [] = ok (code, message_of m)
await_container_status code m true (failed e ∷ _) =
    err (wrap (text "error waiting for container") e)
await_container_status code m false (failed e ∷ signals) =
    await_container_status code m false signals
await_container_status code m listening (no_error ∷ signals) =
    await_container_status code m false signals
await_container_status code m listening (status c n ∷ _) = ok (c, message_of n)

-- The containers and the temporary files and directories of the host.
pub record Host : Type 0 where
  pub containers : List Text
  pub paths : List Text

unfoldable pub remove : Text → List Text → List Text
unfolding keep text_eq
remove x xs = keep (λ y. not (text_eq y x)) xs

-- `container.Config` and `container.HostConfig`, as far as they are set.
pub record ContainerConfig : Type 0 where
  pub image : Text
  pub env : List Text
  pub nano_cpus : ℤ
  pub memory : ℤ
  pub binds : List Text
  pub cap_drop : List Text
  pub security_opt : List Text

-- `KEY=value`, in the order in which Go goes over the map.
unfoldable pub build_env : Dict → List Text
build_env [] = []
build_env ((k, v) ∷ m) = (text k ++ (text "=" ++ v)) ∷ build_env m

-- What a run is answered; the calls for a skill image go by its number.
pub record Answers : Type 0 where
  pub create_temp : Result Text
  pub write : Result (Unit {0})
  pub chmod : Result (Unit {0})
  pub pulls : Text → Pulls
  pub create_skill : ℕ → Result Text
  pub make_dir : ℕ → Result Text
  pub copy : ℕ → Result (Unit {0})
  pub extract : ℕ → Result (Unit {0})
  pub create : ContainerConfig → Result Text
  pub start : Result (Unit {0})
  pub signals : List Signal
  pub last_code : ℤ
  pub last_message : Option Text
  pub open_logs : Result (Unit {0})
  pub read_logs : Result Text
  -- `ContainerRemove`, and `os.Remove` or `os.RemoveAll`
  pub remove_container : Text → Result (Unit {0})
  pub remove_path : Text → Result (Unit {0})

-- What a removal leaves: an error of it is ignored or only logged.
abbrev pub unless_removed : Result (Unit {0}) → Text → List Text → List Text
unless_removed (ok _) x xs = remove x xs
unless_removed (err e) x xs = xs

unfoldable pub remove_all : Answers → List Text → List Text → List Text
unfolding remove
remove_all a [] ps = ps
remove_all a (d ∷ ds) ps = remove_all a ds (unless_removed (a.remove_path d) d ps)

abbrev pub remove_path : Answers → Text → Host → Host
remove_path a p h = record h { paths = unless_removed (a.remove_path p) p h.paths }

abbrev pub add_path : Text → Host → Host
add_path p h = record h { paths = p ∷ h.paths }

abbrev pub remove_container : Answers → Text → Host → Host
remove_container a id h = record h {
  containers = unless_removed (a.remove_container id) id h.containers;
}

abbrev pub add_container : Text → Host → Host
add_container id h = record h { containers = id ∷ h.containers }

unfoldable pub cleanup_skill_dirs : Answers → List Text → Host → Host
unfolding remove_all
cleanup_skill_dirs a ds h = record h { paths = remove_all a ds h.paths }

-- `os.Chmod`, after the prompt was written.
abbrev pub made_readable : Answers → Text → Result (Unit {0}) → Host → Result Text × Host
made_readable a path (ok _) h = (ok path, h)
made_readable a path (err e) h =
    (err (wrap (text "failed to chmod prompt file") e), remove_path a path h)

abbrev pub written :
    Answers → Text → Result (Unit {0}) → Result (Unit {0}) → Host → Result Text × Host
written a path (ok _) chmod h = made_readable a path chmod h
written a path (err e) chmod h =
    (err (wrap (text "failed to write prompt file") e), remove_path a path h)

abbrev pub temp_created : Answers → Result Text → Host → Result Text × Host
temp_created a (err e) h = (err (wrap (text "failed to create prompt file") e), h)
temp_created a (ok path) h = written a path a.write a.chmod (add_path path h)

unfoldable pub prepare_prompt_file : Answers → Host → Result Text × Host
unfolding remove
prepare_prompt_file a h = temp_created a a.create_temp h

-- The directory stays, if the files of the image were extracted.
abbrev pub extracted : Answers → Text → Result (Unit {0}) → Host → Result Text × Host
extracted a dir (ok _) h = (ok dir, h)
extracted a dir (err e) h =
    (err (wrap (text "failed to extract skill files") e), remove_path a dir h)

abbrev pub copied :
    Answers → Text → Result (Unit {0}) → Result (Unit {0}) → Host → Result Text × Host
copied a dir (err e) files h =
    (err (wrap (text "failed to copy /skills from image") e), remove_path a dir h)
copied a dir (ok _) files h = extracted a dir files h

abbrev pub dir_made :
    Answers → Result Text → Result (Unit {0}) → Result (Unit {0}) → Host → Result Text × Host
dir_made a (err e) copy files h =
    (err (wrap (text "failed to create temp dir for skill image") e), h)
dir_made a (ok dir) copy files h = copied a dir copy files (add_path dir h)

-- The deferred removal of a container.
abbrev pub then_removed : {A : Type 0} → Answers → Text → A × Host → A × Host
then_removed a id (r, h) = (r, remove_container a id h)

abbrev pub skill_created : Answers → ℕ → Result Text → Host → Result Text × Host
skill_created a i (err e) h = (err (wrap (text "failed to create container from skill image") e), h)
skill_created a i (ok id) h =
    then_removed a id (dir_made a (a.make_dir i) (a.copy i) (a.extract i) (add_container id h))

unfoldable pub extract_skill_image : Answers → ℕ → Host → Result Text × Host
unfolding remove
extract_skill_image a i h = skill_created a i (a.create_skill i) h

abbrev pub skill_failed :
    Answers → Text → Text → List Text → Error → Host → Result (List Text) × Host
skill_failed a what img dirs e h = (
  err (wrap (text "failed to " ++ (what ++ (text " skill image " ++ img))) e),
  cleanup_skill_dirs a dirs h,
)

abbrev pub skill_extracted :
    Answers
    → Text
    → List Text
    → Result Text × Host
    → (Text → Host → Result (List Text) × Host)
    → Result (List Text) × Host
skill_extracted a img dirs (err e, h) next = skill_failed a (text "extract") img dirs e h
skill_extracted a img dirs (ok dir, h) next = next dir h

abbrev pub skill_pulled :
    Answers
    → Text
    → List Text
    → Result (Unit {0})
    → Host
    → Result (List Text) × Host
    → Result (List Text) × Host
skill_pulled a img dirs (err e) h next = skill_failed a (text "pull") img dirs e h
skill_pulled a img dirs (ok _) h next = next

-- The directories of the skill images, from number `i` on.
unfoldable pub mount_skills : Answers → List Text → ℕ → List Text → Host → Result (List Text) × Host
unfolding ensure_image extract_skill_image cleanup_skill_dirs
mount_skills a dirs i [] h = (ok dirs, h)
mount_skills a dirs i (img ∷ imgs) h =
    skill_pulled a img dirs (ensure_image img (a.pulls img)).0 h (
      skill_extracted a img dirs (extract_skill_image a i h)
        (λ dir h'. mount_skills a (dirs ++ dir ∷ []) (suc i) imgs h'))
