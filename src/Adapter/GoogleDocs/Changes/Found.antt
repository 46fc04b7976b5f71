-- ===== src/Adapter/GoogleDocs/Changes/Found.antt =====
-- The documents that the pages of changes name, in processChanges of
-- internal/adapter/googledocs/googledocs.go.
use ai_coworker.Prelude.{
  ℕ, zero, suc, ◌≡◌, refl, sym, ap, ◌∙◌, Bool, true, false, List, [], ◌∷◌, ◌++◌, ◌&&◌, ◌||◌, Text,
  ◌≤◌, length, text_eq, text_eq_iff, any, any-append, arith, Bool-cases, inl, inr,
}
use mathlib.Core.List.{append-nil}
use ai_coworker.Store.{Result, ok}
use ai_coworker.Adapter.GoogleDocs.Changes.{
  Change, ChangePage, is_document, has_id, with_change, add_documents, changed_documents,
}

-- No text stands twice in a list.
abbrev pub Distinct : List Text → Type 0
Distinct [] = Unit
Distinct (x ∷ xs) = (has_id x xs ≡ false) × Distinct xs

text_eq_comm : (s t : Text) → text_eq s t ≡ text_eq t s
unfolding text_eq
text_eq_comm [] [] = refl
text_eq_comm [] (b ∷ t) = refl
text_eq_comm (a ∷ s) [] = refl
text_eq_comm (a ∷ s) (b ∷ t) = ground (arith, text_eq_comm s t)

Distinct-append :
    (xs : List Text) (y : Text) → has_id y xs ≡ false → Distinct xs → Distinct (xs ++ y ∷ [])
unfolding any
Distinct-append [] y h d = (refl, tt)
Distinct-append (x ∷ xs) y h (first, d) =
    let other : text_eq x y ≡ false = text_eq_comm x y ∙ ground (arith, h) in
    let new : has_id y xs ≡ false = ground arith in
    let still : has_id x (xs ++ y ∷ []) ≡ false =
      rw (any-append (text_eq x) xs (y ∷ [])) (ground (arith, other, first)) in
    (still, Distinct-append xs y new d)

any-one : (id other : Text) → has_id id (other ∷ []) ≡ text_eq id other
unfolding any
any-one id other = ground arith

-- A change of this document.
abbrev pub names : Text → Change → Bool
names id c = is_document c.mime_type && text_eq id c.file_id

has_id-with_change :
    (id : Text) (ids : List Text) (c : Change)
    → has_id id (with_change ids c) ≡ (has_id id ids || names id c)
has_id-with_change id ids c = elim (Bool-cases (is_document c.mime_type)) [
  | inr other ↦ rw other (ground arith)
  | inl document ↦ elim (Bool-cases (has_id c.file_id ids)) [
    | inr new ↦
        rw (document, new)
          (any-append (text_eq id) ids (c.file_id ∷ [])
            ∙ ap (λ b. has_id id ids || b) (any-one id c.file_id))
    | inl seen ↦ elim (Bool-cases (text_eq id c.file_id)) [
      | inr other ↦ rw (document, seen, other) (ground arith)
      | inl same ↦
          let known : has_id id ids ≡ true = rw ((text_eq_iff id c.file_id).0 same) seen in
          rw (document, seen, same, known) refl
    ]
  ]
]

Distinct-with_change : (ids : List Text) (c : Change) → Distinct ids → Distinct (with_change ids c)
Distinct-with_change ids c d = elim (Bool-cases (has_id c.file_id ids)) [
  | inl seen ↦ elim (Bool-cases (is_document c.mime_type)) [
    | inl document ↦ rw (document, seen) d
    | inr other ↦ rw other d
  ]
  | inr new ↦ elim (Bool-cases (is_document c.mime_type)) [
    | inl document ↦ rw (document, new) (Distinct-append ids c.file_id new d)
    | inr other ↦ rw other d
  ]
]

has_id-add_documents :
    (id : Text) (ids : List Text) (cs : List Change)
    → has_id id (add_documents ids cs) ≡ (has_id id ids || any (names id) cs)
unfolding add_documents
has_id-add_documents id ids [] = ground arith
has_id-add_documents id ids (c ∷ cs) =
    has_id-add_documents id (with_change ids c) cs
    ∙ ap (λ b. b || any (names id) cs) (has_id-with_change id ids c)
    ∙ ground arith

Distinct-add_documents :
    (ids : List Text) (cs : List Change) → Distinct ids → Distinct (add_documents ids cs)
unfolding add_documents
Distinct-add_documents ids [] d = d
Distinct-add_documents ids (c ∷ cs) d =
    Distinct-add_documents (with_change ids c) cs (Distinct-with_change ids c d)

module _ (list : ℕ → Text → Result ChangePage) where
  -- The service answers with these pages, from a number and a token on, and then with a new token.
  pub data Serves : ℕ → Text → List (List Change) → Text → Type 0 where
    last_page :
        (n : ℕ) (t : Text) (cs : List Change) (c : ℕ) (start next : Text)
        → list n t ≡ ok (record { changes = cs; new_start = c ∷ start; next = next })
        → Serves n t (cs ∷ []) (c ∷ start)
    one_more :
        (n : ℕ) (t : Text) (cs : List Change) (c : ℕ) (next : Text) (ps : List (List Change))
        (start : Text)
        → list n t ≡ ok (record { changes = cs; new_start = []; next = c ∷ next })
        → Serves (suc n) (c ∷ next) ps start
        → Serves n t (cs ∷ ps) start

  abbrev pub joined : List (List Change) → List Change
  joined [] = []
  joined (cs ∷ ps) = cs ++ joined ps

  -- With a limit of at least the number of pages the documents of all changes are found, each once,
  -- and nothing else, and the next call goes on from the new token.
  pub changed_documents-Serves :
      (max n : ℕ) (t : Text) (ps : List (List Change)) (start : Text) (ids : List Text)
      → Serves n t ps start
      → length ps ≤ max
      → Distinct ids
      → (found : List Text) × (changed_documents list max n t ids ≡ ok (found, start))
        × Distinct found
        × ((id : Text) → has_id id found ≡ (has_id id ids || any (names id) (joined ps)))
  unfolding changed_documents
  changed_documents-Serves zero n t _ start ids (last_page _ _ cs c s next e) le d =
      absurd (omega arith)
  changed_documents-Serves zero n t _ start ids (one_more _ _ cs c next ps _ e s) le d =
      absurd (omega arith)
  changed_documents-Serves (suc max) n t _ _ ids (last_page _ _ cs c start next e) le d = (
    add_documents ids cs,
    rw e refl,
    Distinct-add_documents ids cs d,
    λ id.
        has_id-add_documents id ids cs
        ∙ ap (λ b. has_id id ids || b) (ap (any (names id)) (sym (append-nil cs))),
  )
  changed_documents-Serves (suc max) n t _ start ids (one_more _ _ cs c next ps _ e s) le d =
      let (found, there, distinct, all) =
        changed_documents-Serves max (suc n) (c ∷ next) ps start (add_documents ids cs) s
          (omega arith) (Distinct-add_documents ids cs d) in
      (
        found,
        rw e there,
        distinct,
        λ id.
            all id
            ∙ ap (λ b. b || any (names id) (joined ps)) (has_id-add_documents id ids cs)
            ∙ ground (arith, any-append (names id) cs (joined ps)),
      )
