-- ===== src/Sandbox/Docker/Cleanup/Removal.antt =====
-- Removing what a run adds to the host.
use ai_coworker.Prelude.{
  ◌≡◌, refl, sym, ap, ◌∙◌, false, List, [], ◌∷◌, ◌++◌, keep, Text, text_eq, text_eq_refl,
  Bool-cases, inl, inr,
}
use ai_coworker.Store.{Result, ok, err}
use ai_coworker.Sandbox.Docker.{
  Host, Answers, remove, remove_all, remove_path, add_path, cleanup_skill_dirs, then_removed,
  dir_made,
}

-- The text is not in the list.
abbrev pub IsNew : Text → List Text → Type 0
IsNew x ys = remove x ys ≡ ys

pub remove_self : (x : Text) (ys : List Text) → remove x (x ∷ ys) ≡ remove x ys
unfolding remove keep
remove_self x ys = rw (text_eq_refl x) refl

remove-other :
    (x y : Text) (ys : List Text) → text_eq y x ≡ false → remove x (y ∷ ys) ≡ y ∷ remove x ys
unfolding remove keep
remove-other x y ys h = rw h refl

remove_comm : (x y : Text) (zs : List Text) → remove x (remove y zs) ≡ remove y (remove x zs)
unfolding remove keep
remove_comm x y [] = refl
remove_comm x y (z ∷ zs) = elim (Bool-cases (text_eq z x)) [
  | inl zx ↦ elim (Bool-cases (text_eq z y)) [
    | inl zy ↦ rw (zx, zy) (remove_comm x y zs)
    | inr ny ↦ rw (zx, ny, zx) (remove_comm x y zs)
  ]
  | inr nx ↦ elim (Bool-cases (text_eq z y)) [
    | inl zy ↦ rw (nx, zy) (remove_comm x y zs)
    | inr ny ↦ rw (nx, ny, nx) (ap (λ us. z ∷ us) (remove_comm x y zs))
  ]
]

-- The same answers, but every removal succeeds.
abbrev pub sure : Answers → Answers
sure b = record b { remove_container = λ _. ok tt; remove_path = λ _. ok tt }

remove_all_comm :
    (b : Answers) (d : Text) (ds ps : List Text)
    → remove_all (sure b) ds (remove d ps) ≡ remove d (remove_all (sure b) ds ps)
unfolding remove_all
remove_all_comm b d [] ps = refl
remove_all_comm b d (e ∷ ds) ps =
    ap (remove_all (sure b) ds) (remove_comm e d ps) ∙ remove_all_comm b d ds (remove e ps)

remove_all-append :
    (b : Answers) (ds : List Text) (d : Text) (ps : List Text)
    → remove_all (sure b) (ds ++ d ∷ []) ps ≡ remove d (remove_all (sure b) ds ps)
unfolding remove_all
remove_all-append b [] d ps = refl
remove_all-append b (e ∷ ds) d ps = remove_all-append b ds d (remove e ps)

-- The containers are these, and without the prompt and the directories the paths are those.
abbrev pub IsClean : Answers → Text → List Text → List Text → List Text → Host → Type 0
IsClean b p cs ps dirs h = (h.containers ≡ cs) × (remove p (remove_all (sure b) dirs h.paths) ≡ ps)

module _ (b : Answers) (p : Text) (cs ps : List Text) where
  abbrev Clean : List Text → Host → Type 0
  Clean = IsClean b p cs ps

  -- A new path does not matter once it is removed.
  remove_all-new :
      (d : Text) (dirs qs : List Text)
      → IsNew d ps
      → remove p (remove_all (sure b) dirs qs) ≡ ps
      → remove p (remove d (remove_all (sure b) dirs qs)) ≡ ps
  remove_all-new d dirs qs new h =
      remove_comm p d (remove_all (sure b) dirs qs) ∙ ap (remove d) h ∙ new

  -- The new path in front goes with the others.
  remove_all-front :
      (d : Text) (dirs qs : List Text)
      → remove d (remove_all (sure b) dirs (d ∷ qs)) ≡ remove d (remove_all (sure b) dirs qs)
  remove_all-front d dirs qs =
      sym (remove_all_comm b d dirs (d ∷ qs))
      ∙ ap (remove_all (sure b) dirs) (remove_self d qs)
      ∙ remove_all_comm b d dirs qs

  Clean-grow :
      (d : Text) (dirs : List Text) (h : Host)
      → IsNew d ps
      → Clean dirs h
      → Clean (dirs ++ d ∷ []) (add_path d h)
  Clean-grow d dirs h new (same, clean) = (
    same,
    ap (remove p) (remove_all-append b dirs d (d ∷ h.paths) ∙ remove_all-front d dirs h.paths)
        ∙ remove_all-new d dirs h.paths new clean,
  )

  Clean-drop :
      (d : Text) (dirs : List Text) (h : Host)
      → IsNew d ps
      → Clean dirs h
      → Clean dirs (remove_path (sure b) d (add_path d h))
  Clean-drop d dirs h new (same, clean) = (
    same,
    ap (λ qs. remove p (remove_all (sure b) dirs qs)) (remove_self d h.paths)
        ∙ ap (remove p) (remove_all_comm b d dirs h.paths)
        ∙ remove_all-new d dirs h.paths new clean,
  )

  pub Clean-cleanup :
      (dirs : List Text) (h : Host) → Clean dirs h → Clean [] (cleanup_skill_dirs (sure b) dirs h)
  unfolding cleanup_skill_dirs remove_all
  Clean-cleanup dirs h c = c

  -- Where a directory was made it is one more to remove.
  abbrev pub Kept : List Text → Result Text × Host → Type 0
  Kept dirs (err e, h) = Clean dirs h
  Kept dirs (ok d, h) = Clean (dirs ++ d ∷ []) h

  pub dir_made-Kept :
      (made : Result Text) (copy files : Result (Unit {0})) (dirs : List Text) (h : Host)
      → ((d : Text) → made ≡ ok d → IsNew d ps)
      → Clean dirs h
      → Kept dirs (dir_made (sure b) made copy files h)
  dir_made-Kept (err e) copy files dirs h new c = c
  dir_made-Kept (ok d) (err e) files dirs h new c = Clean-drop d dirs h (new d refl) c
  dir_made-Kept (ok d) (ok _) (err e) dirs h new c = Clean-drop d dirs h (new d refl) c
  dir_made-Kept (ok d) (ok _) (ok _) dirs h new c = Clean-grow d dirs h (new d refl) c

module _ (b : Answers) (p : Text) (cs ps : List Text) where
  pub then_removed-Kept :
      (id : Text) (dirs : List Text) (x : Result Text × Host)
      → IsNew id cs
      → Kept b p (id ∷ cs) ps dirs x
      → Kept b p cs ps dirs (then_removed (sure b) id x)
  then_removed-Kept id dirs (err e, h) new (same, clean) =
      (ap (remove id) same ∙ remove_self id cs ∙ new, clean)
  then_removed-Kept id dirs (ok d, h) new (same, clean) =
      (ap (remove id) same ∙ remove_self id cs ∙ new, clean)

pub Host-same :
    (b : Answers) (p : Text) (h host : Host)
    → h.containers ≡ host.containers
    → remove p h.paths ≡ host.paths
    → remove_path (sure b) p h ≡ host
Host-same b p h host same clean =
    ap (λ cs. record { containers = cs; paths = remove p h.paths }) same
    ∙ ap (λ ps. record { containers = host.containers; paths = ps }) clean

-- A path that was just added is removed again.
pub remove_path-add_path :
    (b : Answers) (p : Text) (host : Host)
    → IsNew p host.paths
    → remove_path (sure b) p (add_path p host) ≡ host
remove_path-add_path b p host new =
    Host-same b p (add_path p host) host refl (remove_self p host.paths ∙ new)
