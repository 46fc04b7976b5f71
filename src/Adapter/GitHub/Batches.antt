-- ===== src/Adapter/GitHub/Batches.antt =====
-- The batches of events that reviews become, and what the router and the worker make of them.
use ai_coworker.Prelude.{
  ℕ, suc, ◌≡◌, refl, sym, ap, ◌∙◌, true, Option, none, some, List, [], ◌∷◌, map, All, Text, String,
  Dict, text, text_eq, text_eq_refl, lookup, get, lookup-insert, ℤ, itoa, arith, if◌then◌else◌,
  Option-cases, Bool-cases, inl, inr, is_empty, trim_space, ==_iff,
}
use ai_coworker.Domain.{Intent, ChannelRef, IncomingEvent, Message}
use ai_coworker.Config.{is_zero}
use ai_coworker.Engine.Reply.{same_int}
use ai_coworker.Engine.Intent.{Provider, entries, is_review_event, classify}
use ai_coworker.Engine.Router.{same_thread, mixed}
use ai_coworker.Engine.Router.Mixed.{IsOf}
use ai_coworker.Engine.World.{World}
use ai_coworker.Store.{ok}
use ai_coworker.Adapter.GitHub.Ref.{new_ref, with_comment}
use ai_coworker.Adapter.GitHub.{
  Access, ReviewComment, Review, insert_line, body_event, comment_meta, comment_event,
  build_review_events, Lines, find_parent, with_lines, needs_lines, Fetch, resolve_one,
  resolve_from, resolve_reply_line_info,
}

mixed-none :
    (ref e : ChannelRef) (i : ℕ) (xs : List IncomingEvent)
    → e.channel ≡ ref.channel
    → e.thread_key ≡ ref.thread_key
    → All (IsOf ref) xs
    → mixed e i xs ≡ none
unfolding mixed
mixed-none ref e i [] c k h = refl
mixed-none ref e i (x ∷ xs) c k (p, h) =
    let same_c : x.channel_ref.channel ≡ e.channel = p.0 ∙ sym c in
    let same_k : x.channel_ref.thread_key ≡ e.thread_key = p.1 ∙ sym k in
    let here : same_thread e x.channel_ref ≡ true =
      rw (same_c, same_k, text_eq_refl e.channel, text_eq_refl e.thread_key) refl in
    rw here (mixed-none ref e (suc i) xs c k h)

insert_line-line : (n : ℤ) (m : Dict) → lookup "type" (insert_line "line" n m) ≡ lookup "type" m
insert_line-line n m = elim (Bool-cases (is_zero n)) [
  | inl zero_line ↦ rw zero_line refl
  | inr line ↦ rw line (lookup-insert "line" "type" (itoa n) m)
]

insert_line-start :
    (n : ℤ) (m : Dict) → lookup "type" (insert_line "start_line" n m) ≡ lookup "type" m
insert_line-start n m = elim (Bool-cases (is_zero n)) [
  | inl zero_line ↦ rw zero_line refl
  | inr line ↦ rw line (lookup-insert "start_line" "type" (itoa n) m)
]

get-lookup : (k : String) (m : Dict) (v : Text) → lookup k m ≡ some v → get k m ≡ v
unfolding get
get-lookup k m v e = rw (e, get) refl

is_review_event-typed :
    (x : IncomingEvent) (m : Dict)
    → x.metadata ≡ some m
    → get "type" m ≡ text "review_comment"
    → is_review_event x ≡ true
unfolding is_review_event
is_review_event-typed x m e h =
    let same : text_eq (get "type" (entries x.metadata)) (text "review_comment") ≡ true =
      rw (e, h) (text_eq_refl (text "review_comment")) in
    ground arith

same_int-eq : (a b : ℤ) → same_int a b ≡ true → a ≡ b
unfolding same_int
same_int-eq (ℤ.pos a) (ℤ.pos b) e = ap ℤ.pos ((==_iff a b).0 e)
same_int-eq (ℤ.negsuc a) (ℤ.negsuc b) e = ap ℤ.negsuc ((==_iff a b).0 e)
same_int-eq (ℤ.pos a) (ℤ.negsuc b) e = absurd (cc e)
same_int-eq (ℤ.negsuc a) (ℤ.pos b) e = absurd (cc e)

module _ (a : Access) (installation : ℤ) (e : Review) where
  IsOf-comments :
      (cs : List ReviewComment)
      → All (IsOf (new_ref e.repo e.pr_num)) (map (comment_event a installation e) cs)
  unfolding comment_event with_comment new_ref
  IsOf-comments [] = tt
  IsOf-comments (c ∷ cs) = ((refl, refl), IsOf-comments cs)

  IsOf-build_review_events :
      (cs : List ReviewComment)
      → All (IsOf (new_ref e.repo e.pr_num)) (build_review_events a installation e cs)
  unfolding build_review_events body_event
  IsOf-build_review_events cs = elim (Bool-cases (is_empty (trim_space e.body))) [
    | inl blank ↦ rw blank (IsOf-comments cs)
    | inr full ↦ rw full ((refl, refl), IsOf-comments cs)
  ]

  -- The events of a review are all of one thread: the router never finds their batch mixed.
  pub mixed-build_review_events :
      (cs : List ReviewComment) (x : IncomingEvent) (xs : List IncomingEvent)
      → build_review_events a installation e cs ≡ x ∷ xs
      → mixed x.channel_ref 1 xs ≡ none
  mixed-build_review_events cs x xs same =
      let all = IsOf-build_review_events cs in
      let ((c, k), rest) : All (IsOf (new_ref e.repo e.pr_num)) (x ∷ xs) = (rw same at all) in
      mixed-none (new_ref e.repo e.pr_num) x.channel_ref 1 xs c k rest

  pub comment_meta-type :
      (c : ReviewComment)
      → lookup "type" (comment_meta installation e c) ≡ some (text "review_comment")
  unfolding comment_meta lookup
  comment_meta-type c = insert_line-start c.start_line _ ∙ insert_line-line c.line _

  comment_event-review :
      (c : ReviewComment) → is_review_event (comment_event a installation e c) ≡ true
  unfolding comment_event
  comment_event-review c =
      is_review_event-typed (comment_event a installation e c) (comment_meta installation e c) refl
        (get-lookup "type" (comment_meta installation e c) (text "review_comment")
          (comment_meta-type c))

  body_event-review : is_review_event (body_event a installation e) ≡ true
  unfolding is_review_event body_event lookup
  body_event-review = refl

  module _ (table : ℕ → ℕ) (provider : Provider) (history : List Message) (w : World) where
    abbrev pub IsReview : IncomingEvent → Type 0
    IsReview x = classify table provider x history w ≡ (ok Intent.review, w)

    classify-IsReview : (x : IncomingEvent) → is_review_event x ≡ true → IsReview x
    unfolding classify
    classify-IsReview x h = rw h refl

    classify-comments :
        (cs : List ReviewComment) → All IsReview (map (comment_event a installation e) cs)
    classify-comments [] = tt
    classify-comments (c ∷ cs) = (
      classify-IsReview (comment_event a installation e c) (comment_event-review c),
      classify-comments cs,
    )

    -- Every event of a review is classified as a review, without a call of the model: the world
    -- stays as it is.
    pub classify-build_review_events :
        (cs : List ReviewComment) → All IsReview (build_review_events a installation e cs)
    unfolding build_review_events
    classify-build_review_events cs = elim (Bool-cases (is_empty (trim_space e.body))) [
      | inl blank ↦ rw blank (classify-comments cs)
      | inr full ↦
          rw full (
            classify-IsReview (body_event a installation e) body_event-review,
            classify-comments cs,
          )
    ]

-- The lines that a service gives to a parent, whenever it is asked.
module _ (fetch : Fetch) (parents : ℤ → Option Lines)
    (steady : (n : ℕ) (id : ℤ) → fetch n id ≡ parents id) where
  -- A reply without a line, with the lines of its parent.
  abbrev pub from_parent : ReviewComment → Option Lines → ReviewComment
  from_parent c none = c
  from_parent c (some p) = with_lines c p

  abbrev pub resolved : ReviewComment → ReviewComment
  resolved c = if needs_lines c then from_parent c (parents c.in_reply_to) else c

  -- What is cached is what the service gives.
  abbrev IsCache : List (ℤ × Lines) → Type 0
  IsCache cache = (id : ℤ) (p : Lines) → find_parent id cache ≡ some p → parents id ≡ some p

  IsCache-cons :
      (id : ℤ) (p : Lines) (cache : List (ℤ × Lines))
      → parents id ≡ some p
      → IsCache cache
      → IsCache ((id, p) ∷ cache)
  unfolding find_parent
  IsCache-cons id p cache known h j q e = elim (Bool-cases (same_int id j)) [
    | inl same ↦
        let here : some p ≡ some q = (rw same at e) in
        let id_is : id ≡ j = same_int-eq id j same in rw (← id_is) (known ∙ here)
    | inr other ↦ h j q (rw other at e)
  ]

  resolve_one-resolved :
      (n : ℕ) (cache : List (ℤ × Lines)) (c : ReviewComment)
      → IsCache cache
      → ((resolve_one fetch n cache c).0 ≡ resolved c) × IsCache ((resolve_one fetch n cache c).1).1
  unfolding resolve_one
  resolve_one-resolved n cache c h = elim (Bool-cases (needs_lines c)) [
    | inr fine ↦ rw fine (refl, h)
    | inl bare ↦ elim (Option-cases (find_parent c.in_reply_to cache)) [
      | inr (p, found) ↦ let known = h c.in_reply_to p found in rw (bare, found, known) (refl, h)
      | inl fresh ↦ elim (Option-cases (parents c.in_reply_to)) [
        | inl missing ↦ rw (bare, fresh, steady n c.in_reply_to, missing) (refl, h)
        | inr (p, given) ↦
            rw (bare, fresh, steady n c.in_reply_to, given)
              (refl, IsCache-cons c.in_reply_to p cache given h)
      ]
    ]
  ]

  resolve_from-map :
      (n : ℕ) (cache : List (ℤ × Lines)) (cs : List ReviewComment)
      → IsCache cache
      → resolve_from fetch n cache cs ≡ map resolved cs
  unfolding resolve_from
  resolve_from-map n cache [] h = refl
  resolve_from-map n cache (c ∷ cs) h =
      let (here, kept) = resolve_one-resolved n cache c h in
      ap
        (λ x.
          x
          ∷ resolve_from fetch ((resolve_one fetch n cache c).1).0
              ((resolve_one fetch n cache c).1).1 cs)
        here
      ∙ ap (λ xs. resolved c ∷ xs)
          (resolve_from-map ((resolve_one fetch n cache c).1).0 ((resolve_one fetch n cache c).1).1
            cs kept)

  -- With a service that answers each parent the same whenever it is asked, the pass over the
  -- comments, with its cache, gives each reply without a line the lines of its parent, and leaves the
  -- other comments as they are.
  pub resolve_reply_line_info-map :
      (cs : List ReviewComment) → resolve_reply_line_info fetch cs ≡ map resolved cs
  unfolding resolve_reply_line_info find_parent
  resolve_reply_line_info-map cs = resolve_from-map 0 [] cs (λ id p e. absurd (cc e))
