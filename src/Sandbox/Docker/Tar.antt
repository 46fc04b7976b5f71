-- ===== src/Sandbox/Docker/Tar.antt =====
-- The files of a skill image: extractTar of internal/sandbox/docker/docker.go.
use mathlib.Core.List.{append_assoc}
use ai_coworker.Prelude.{
  ◌∙◌, Option-cases, strip_prefix-some, text_eq_iff, ℕ, ◌*◌, ◌≡◌, ◌⊎◌, refl, inl, inr, Bool, true,
  false, not, List, [], ◌∷◌, ◌++◌, ◌||◌, Text, text, text_eq, strip_prefix, is_some, ltb, show_nat,
  Option, none, some, All, Bool-cases, if◌then◌else◌,
}
use ai_coworker.Store.{Error, fault, Result, ok, err}

-- `tar.Header`, as far as it is read, and how many bytes follow it.
pub data EntryType : Type 0 where
  directory regular symbolic_link other : EntryType

pub record Header : Type 0 where
  pub name : Text
  pub type_flag : EntryType
  pub size : ℕ
  pub link_name : Text
  pub content_size : ℕ

-- What is asked of the file system.
pub data FileStep : Type 0 where
  make_dirs : Text → FileStep
  create : Text → FileStep
  -- the path, the entry's name and how many bytes follow it
  fill : Text → Text → ℕ → FileStep
  link : Text → Text → FileStep

-- 10 MiB per file
abbrev pub max_skill_file_size : ℕ
max_skill_file_size = 10 * 1024 * 1024

-- Of `path/filepath`, and the verb %q of fmt.
pub record Paths : Type 0 where
  pub clean : Text → Text
  pub join : Text → Text → Text
  pub dir_of : Text → Text
  pub is_abs : Text → Bool
  pub quote : Text → Text

module _ (p : Paths) (dst : Text) where
  -- The path is the destination or begins with it and the separator.
  unfoldable pub is_inside : Text → Bool
  unfolding strip_prefix text_eq
  is_inside t =
      is_some (strip_prefix (p.clean dst ++ text "/") (p.clean t ++ text "/"))
      || text_eq (p.clean t) (p.clean dst)

  abbrev pub target_of : Header → Text
  target_of h = p.join dst h.name

  abbrev pub link_target : Header → Text
  link_target h = p.join (p.dir_of (target_of h)) h.link_name

  abbrev pub refused : Text → Result (List FileStep)
  refused why = err (fault why)

  abbrev pub file_steps : Header → Result (List FileStep)
  file_steps h =
      if ltb max_skill_file_size h.size
      then refused (
          text "tar entry "
          ++ (p.quote h.name
              ++ (text " is "
                  ++ (show_nat h.size
                      ++ (text " bytes, exceeds "
                          ++ (show_nat max_skill_file_size ++ text " byte limit"))))))
      else ok (
          make_dirs (p.dir_of (target_of h))
          ∷ create (target_of h)
          ∷ fill (target_of h) h.name h.content_size
          ∷ [])

  abbrev pub link_steps : Header → Result (List FileStep)
  link_steps h =
      if p.is_abs h.link_name
      then refused (
          text "tar symlink "
          ++ (p.quote h.name ++ (text " has absolute target " ++ p.quote h.link_name)))
      else if not (is_inside (link_target h))
      then refused (
          text "tar symlink "
          ++ (p.quote h.name
              ++ (text " target "
                  ++ (p.quote h.link_name ++ text " escapes destination directory"))))
      else ok (make_dirs (p.dir_of (target_of h)) ∷ link h.link_name (target_of h) ∷ [])

  abbrev pub by_type : EntryType → Header → Result (List FileStep)
  by_type EntryType.directory h = ok (make_dirs (target_of h) ∷ [])
  by_type EntryType.regular h = file_steps h
  by_type EntryType.symbolic_link h = link_steps h
  by_type EntryType.other h = ok []

  -- What one entry asks for, or why it is refused.
  unfoldable pub entry_steps : Header → Result (List FileStep)
  unfolding is_inside
  entry_steps h =
      if not (is_inside (target_of h))
      then refused (text "tar entry " ++ (p.quote h.name ++ text " escapes destination directory"))
      else by_type h.type_flag h

  -- More bytes than the limit are an error, after one more than the limit was written.
  abbrev pub too_long : FileStep → Option Error
  too_long (make_dirs t) = none
  too_long (create t) = none
  too_long (fill t name n) =
      if ltb max_skill_file_size n
      then some (
          fault (
            text "tar entry "
            ++ (p.quote name
                ++ (text " exceeds " ++ (show_nat max_skill_file_size ++ text " byte limit")))))
      else none
  too_long (link l t) = none

  -- `os` is what the file system answers.
  module _ (os : FileStep → Result (Unit {0})) where
    abbrev pub first :
        FileStep → Result (Unit {0}) × List FileStep → Result (Unit {0}) × List FileStep
    first s (r, done) = (r, s ∷ done)

    abbrev pub after_step :
        Result (Unit {0})
        → Option Error
        → Result (Unit {0}) × List FileStep
        → Result (Unit {0}) × List FileStep
    after_step (err e) long rest = (err e, [])
    after_step (ok _) (some e) rest = (err e, [])
    after_step (ok _) none rest = rest

    -- The steps that were asked of the file system, until one fails, and then the rest.
    unfoldable pub perform :
        List FileStep → Result (Unit {0}) × List FileStep → Result (Unit {0}) × List FileStep
    perform [] rest = rest
    perform (s ∷ steps) rest = first s (after_step (os s) (too_long s) (perform steps rest))

    abbrev pub of_entry :
        Result (List FileStep)
        → Result (Unit {0}) × List FileStep
        → Result (Unit {0}) × List FileStep
    of_entry (err e) rest = (err e, [])
    of_entry (ok steps) rest = perform steps rest

    -- The headers until the end of the archive; `last` is what the reader answers then.
    unfoldable pub extract_tar : Result (Unit {0}) → List Header → Result (Unit {0}) × List FileStep
    unfolding entry_steps perform
    extract_tar last [] = (last, [])
    extract_tar last (h ∷ hs) = of_entry (entry_steps h) (extract_tar last hs)

  -- Cleaned and closed by the separator, the path begins with the destination that is so too: it is
  -- the destination or goes on with a separator.
  abbrev pub Inside : Text → Type 0
  Inside t =
      (p.clean t ≡ p.clean dst)
      ⊎ ((rest : Text) × (p.clean t ++ text "/" ≡ p.clean dst ++ (text "/" ++ rest)))

  is_inside-Inside : (t : Text) → is_inside t ≡ true → Inside t
  unfolding is_inside
  is_inside-Inside t h =
      let closed = p.clean dst ++ text "/" in
      elim (Option-cases (strip_prefix closed (p.clean t ++ text "/"))) [
        | inr (rest, found) ↦ inr (
          rest,
          strip_prefix-some closed (p.clean t ++ text "/") rest found
              ∙ append_assoc (p.clean dst) (text "/") rest,
        )
        | inl nothing ↦ inl ((text_eq_iff (p.clean t) (p.clean dst)).0 (rw nothing at h))
      ]

  -- The path of a step is inside of the destination, or the directory of a path that is; so is what
  -- a link names, seen from the directory of the link.
  abbrev pub IsInside : FileStep → Type 0
  IsInside (make_dirs t) = Inside t ⊎ ((s : Text) × (t ≡ p.dir_of s) × Inside s)
  IsInside (create t) = Inside t
  IsInside (fill t name n) = Inside t
  IsInside (link l t) = Inside t × Inside (p.join (p.dir_of t) l) × (p.is_abs l ≡ false)

  AllInside : Result (List FileStep) → Type 0
  AllInside (err e) = Unit
  AllInside (ok steps) = All IsInside steps

  by_type-IsInside : (t : EntryType) (h : Header) → Inside (target_of h) → AllInside (by_type t h)
  unfolding AllInside
  by_type-IsInside EntryType.directory h here = (inl here, tt)
  by_type-IsInside EntryType.regular h here = elim (Bool-cases (ltb max_skill_file_size h.size)) [
    | inl long ↦ rw long tt
    | inr fits ↦ rw fits (inr (target_of h, refl, here), (here, (here, tt)))
  ]
  by_type-IsInside EntryType.symbolic_link h here = elim (Bool-cases (p.is_abs h.link_name)) [
    | inl absolute ↦ rw absolute tt
    | inr relative ↦ elim (Bool-cases (is_inside (link_target h))) [
      | inr outside ↦ rw (relative, outside) tt
      | inl inside ↦
          rw (relative, inside)
            (
              inr (target_of h, refl, here),
              ((here, is_inside-Inside (link_target h) inside, relative), tt),
            )
    ]
  ]
  by_type-IsInside EntryType.other h here = tt

  entry_steps-IsInside : (h : Header) → AllInside (entry_steps h)
  unfolding entry_steps AllInside
  entry_steps-IsInside h = elim (Bool-cases (is_inside (target_of h))) [
    | inr outside ↦ rw outside tt
    | inl here ↦ rw here (by_type-IsInside h.type_flag h (is_inside-Inside (target_of h) here))
  ]

  module _ (os : FileStep → Result (Unit {0})) where
    after_step-IsInside :
        (r : Result (Unit {0})) (long : Option Error) (rest : Result (Unit {0}) × List FileStep)
        → All IsInside rest.1
        → All IsInside (after_step os r long rest).1
    after_step-IsInside (err e) long rest h = tt
    after_step-IsInside (ok _) (some e) rest h = tt
    after_step-IsInside (ok _) none rest h = h

    perform-IsInside :
        (steps : List FileStep) (rest : Result (Unit {0}) × List FileStep)
        → All IsInside steps
        → All IsInside rest.1
        → All IsInside (perform os steps rest).1
    unfolding perform
    perform-IsInside [] rest h k = k
    perform-IsInside (s ∷ steps) rest (here, h) k =
        (here, after_step-IsInside (os s) (too_long s) _ (perform-IsInside steps rest h k))

    of_entry-IsInside :
        (r : Result (List FileStep)) (rest : Result (Unit {0}) × List FileStep)
        → AllInside r
        → All IsInside rest.1
        → All IsInside (of_entry os r rest).1
    unfolding AllInside
    of_entry-IsInside (err e) rest h k = tt
    of_entry-IsInside (ok steps) rest h k = perform-IsInside steps rest h k

    -- Of any archive, whatever the file system answers, files and links are only asked for at paths
    -- that are the destination or below it by their cleaned names, and directories also at the
    -- directory of such a path, which for the destination itself is the one that it is in. Links are
    -- relative and name a path that is the destination or below it, seen from the name of the link.
    pub extract_tar-IsInside :
        (last : Result (Unit {0})) (hs : List Header) → All IsInside (extract_tar os last hs).1
    unfolding extract_tar
    extract_tar-IsInside last [] = tt
    extract_tar-IsInside last (h ∷ hs) =
        of_entry-IsInside (entry_steps h) _ (entry_steps-IsInside h) (extract_tar-IsInside last hs)
