-- ===== src/Adapter/GoogleDocs/Check/SavedTime.antt =====
-- The time that a check of a document saves is past the comments that it hands on: the last lines of
-- checkDocumentComments of internal/adapter/googledocs/googledocs.go.
use ai_coworker.Prelude.{
  ℕ, ◌≤◌, ◌<◌, Bool, Bool-cases, inl, inr, Option, is_empty, ◌≡◌, refl, true, false, some, List, [],
  ◌∷◌, map, keep, Text, arith,
}
use ai_coworker.Store.Rows.{In, In-keep, In-keep_intro, In-map_intro}
use ai_coworker.Adapter.GoogleDocs.Comments.{Comment, is_handed}
use ai_coworker.Adapter.GoogleDocs.Check.{Setup, saved_time, text_lt, latest_modified}

-- The texts that the loop compares: the times of the comments, and the empty text it starts with.
abbrev pub times : List Comment → List Text
times listed = [] ∷ map (λ x. x.modified_time) listed

-- What the service's times say. A time names an instant, the order of these texts is that of their
-- instants, and a millisecond later is a later instant.
pub record Clock (later : Text → Option Text) (listed : List Comment) : Type 0 where
  pub instant : Text → ℕ
  pub up :
      (s : Text) (x : Comment)
      → In s (times listed)
      → In x listed
      → text_lt s x.modified_time ≡ true
      → instant s ≤ instant x.modified_time
  pub down :
      (s : Text) (x : Comment)
      → In s (times listed)
      → In x listed
      → text_lt s x.modified_time ≡ false
      → instant x.modified_time ≤ instant s
  pub passes : (s t : Text) → later s ≡ some t → instant s < instant t

module _ (later : Text → Option Text) (listed : List Comment) (clock : Clock later listed) where
  -- The latest time is not before that of any of the comments.
  latest_modified-le :
      (latest : Text) (cs : List Comment)
      → In latest (times listed)
      → ((x : Comment) → In x cs → In x listed)
      → (clock.instant latest ≤ clock.instant (latest_modified latest cs))
        × ((x : Comment)
            → In x cs
            → clock.instant x.modified_time ≤ clock.instant (latest_modified latest cs))
  unfolding latest_modified
  latest_modified-le latest [] old known = (omega arith, λ x i. absurd i)
  latest_modified-le latest (c ∷ cs) old known =
      elim (Bool-cases (text_lt latest c.modified_time)) [
        | inl newer ↦
            let (grows, covers) =
              latest_modified-le c.modified_time cs
                (inr (In-map_intro (λ x. x.modified_time) c listed (known c (inl refl))))
                (λ x i. known x (inr i)) in
            let first = clock.up latest c old (known c (inl refl)) newer in
            rw newer (
              omega (arith, grows, first),
              λ x i. elim i [ inl e ↦ rw e grows | inr j ↦ covers x j ],
            )
        | inr older ↦
            let (grows, covers) = latest_modified-le latest cs old (λ x i. known x (inr i)) in
            let first = clock.down latest c old (known c (inl refl)) older in
            rw older (
              grows,
              λ x i. elim i [ inl e ↦ rw e (omega (arith, grows, first)) | inr j ↦ covers x j ],
            )
      ]

keep-none :
    (p : Comment → Bool) (cs : List Comment)
    → ((x : Comment) → In x cs → p x ≡ false)
    → keep p cs ≡ []
unfolding keep
keep-none p [] h = refl
keep-none p (c ∷ cs) h = rw (h c (inl refl)) (keep-none p cs (λ x i. h x (inr i)))

saved_time-later :
    (a : Setup) (cs : List Comment) (time : Text)
    → saved_time a cs ≡ some time
    → a.later (latest_modified [] cs) ≡ some time
saved_time-later a cs time h = elim (Bool-cases (is_empty (latest_modified [] cs))) [
  | inl empty ↦ absurd (cc (rw empty at h))
  | inr filled ↦ rw filled at h
]

-- What is listed again from the saved time on was not handed on before.
pub none_again :
    (a : Setup) (listed again : List Comment) (clock : Clock a.later listed) (time : Text)
    → saved_time a (keep (is_handed a.bot_email) listed) ≡ some time
    → ((x : Comment)
        → In x again
        → In x listed × (clock.instant time ≤ clock.instant x.modified_time))
    → keep (is_handed a.bot_email) again ≡ []
none_again a listed again clock time stamped since =
    let relevant = keep (is_handed a.bot_email) listed in
    let (_, covers) =
      latest_modified-le a.later listed clock [] relevant (inl refl)
        (λ x i. (In-keep (is_handed a.bot_email) x listed i).0) in
    let passed =
      clock.passes (latest_modified [] relevant) time (saved_time-later a relevant time stamped) in
    keep-none (is_handed a.bot_email) again (λ x i. elim (Bool-cases (is_handed a.bot_email x)) [
      | inr other ↦ other
      | inl handed ↦
          let (old, late) = since x i in
          let early = covers x (In-keep_intro (is_handed a.bot_email) x listed old handed) in
          absurd (omega (arith, passed, late, early))
    ])
