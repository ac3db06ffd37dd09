-- ===== src/Conversation/Boundaries.antt =====
-- The compaction boundaries and the last user message under compaction.
use looplet.Prelude.{
  All, All-append, All-keep_if_test, Bool, Bool-cases, List, Option, String, [], any, ap, arith,
  drop, false, inl, inr, keep_if, keep_if-All, keep_if-append, leb, length, none, refl, some, subst,
  sym, take, take-append-drop, true, ℕ, ◌++◌, ◌+◌, ◌-◌, ◌==◌, ◌||◌, ◌∙◌, ◌∷◌, ◌≡◌, ◌≤◌,
}
use mathlib.Core.List.{append-nil}
use looplet.Conversation.{
  Compactor, Conversation, Message, add_user, compact, compacted_head, find_compaction_boundaries,
  is_boundary, is_in, is_model_message, last_user, split_index, summary_input, summary_message,
  summary_of, with_summary,
}
use looplet.Conversation.Compaction.{IfSome, keep_if-add_user, last_user-All}

module _ (host_of : Compactor) (equal_refl : (m : Message) → host_of.equal m m ≡ true) where
  is_in-weaken :
      (m x : Message) (ms : List Message)
      → is_in host_of m ms ≡ true
      → is_in host_of m (x ∷ ms) ≡ true
  is_in-weaken m x ms h = elim (Bool-cases (host_of.equal m x)) [
    | inl e ↦ rw (any, e)
    | inr e ↦ rw (any, e) h
  ]

  All-is_in_weaken :
      (x : Message) (p : Message → Bool) (bs ms : List Message)
      → All (λ m. p m ≡ true → is_in host_of m bs ≡ true) ms
      → All (λ m. p m ≡ true → is_in host_of m (x ∷ bs) ≡ true) ms
  All-is_in_weaken x p bs [] h = tt
  All-is_in_weaken x p bs (m ∷ ms) (hm, h) =
      (λ e. is_in-weaken m x bs (hm e), All-is_in_weaken x p bs ms h)

  true-ne-false : true ≡ false → ⊥
  true-ne-false h = cc

  -- a filter keeps what its test selects
  is_in-keep_if :
      (p : Message → Bool) (ms : List Message)
      → All (λ m. p m ≡ true → is_in host_of m (keep_if p ms) ≡ true) ms
  is_in-keep_if p [] = tt
  is_in-keep_if p (m ∷ ms) = elim (Bool-cases (p m)) [
    | inl e ↦
        let kept : keep_if p (m ∷ ms) ≡ m ∷ keep_if p ms = rw (keep_if, e) in
        subst (λ l. All (λ x. p x ≡ true → is_in host_of x l ≡ true) (m ∷ ms)) (sym kept)
          (λ h. rw (any, equal_refl m), All-is_in_weaken m p (keep_if p ms) ms (is_in-keep_if p ms))
    | inr e ↦
        let kept : keep_if p (m ∷ ms) ≡ keep_if p ms = rw (keep_if, e) in
        subst (λ l. All (λ x. p x ≡ true → is_in host_of x l ≡ true) (m ∷ ms)) (sym kept)
          ((λ h. elim (true-ne-false (sym h ∙ e)) [ ]), is_in-keep_if p ms)
  ]

  is_in-append :
      (m : Message) (xs ys : List Message)
      → is_in host_of m xs ≡ true
      → is_in host_of m (xs ++ ys) ≡ true
  is_in-append m [] ys h = cc
  is_in-append m (x ∷ xs) ys h = elim (Bool-cases (host_of.equal m x)) [
    | inl e ↦ rw (any, e)
    | inr e ↦ rw (any, e) (is_in-append m xs ys (rw (any, e) at h))
  ]

  is_in-with_summary :
      (m : Message) (boundaries input : List Message) (summary : Message)
      → is_in host_of m boundaries ≡ true
      → is_in host_of m (with_summary host_of boundaries input summary) ≡ true
  is_in-with_summary m boundaries [] summary h = h
  is_in-with_summary m boundaries (x ∷ input) summary h = is_in-append m boundaries _ h

  boundaries-add_user :
      (u : Option Message) (head : List Message)
      → IfSome (λ m. is_boundary m ≡ true → is_in host_of m head ≡ true) u
      → keep_if is_boundary (add_user host_of u head) ≡ keep_if is_boundary head
  boundaries-add_user none head h = refl
  boundaries-add_user (some m) head h = elim (Bool-cases (is_boundary m)) [
    | inl e ↦ rw (h e)
    | inr e ↦ keep_if-add_user host_of is_boundary (some m) head e
  ]

  -- the summary, if there is one
  added_summary : List Message → Message → List Message
  added_summary [] summary = []
  added_summary (x ∷ input) summary = summary ∷ []

  boundaries-with_summary :
      (boundaries input : List Message) (typed : Bool) (summary : String) (n : ℕ)
      → All (λ m. is_boundary m ≡ true) boundaries
      → keep_if is_boundary
          (with_summary host_of boundaries input (summary_message host_of typed summary n))
        ≡ boundaries ++ added_summary input (summary_message host_of typed summary n)
  unfolding added_summary
  boundaries-with_summary boundaries [] typed summary n h =
      keep_if-All is_boundary boundaries h ∙ sym (append-nil boundaries)
  boundaries-with_summary boundaries (x ∷ input) typed summary n h =
      keep_if-All is_boundary _ (All-append (λ m. is_boundary m ≡ true) boundaries _ h (refl, tt))

  added_summary-small :
      (input : List Message) (summary : Message) → length (added_summary input summary) ≤ 1
  unfolding added_summary
  added_summary-small [] summary = omega arith
  added_summary-small (x ∷ input) summary = omega arith

  boundaries-compacted_head :
      (typed : Bool) (ms : List Message)
      → (added : List Message) × (length added ≤ 1)
        × (keep_if is_boundary (compacted_head host_of typed ms) ≡ keep_if is_boundary ms ++ added)
  unfolding compacted_head
  boundaries-compacted_head typed ms =
      let kept = last_user-All _ none ms tt (is_in-keep_if is_boundary ms) in
      let summary =
        summary_message host_of typed (summary_of host_of (summary_input host_of ms))
          (length ms - length (keep_if is_boundary ms)) in
      (
        added_summary (summary_input host_of ms) summary,
        added_summary-small (summary_input host_of ms) summary,
        boundaries-add_user (last_user none ms) _
              (weaken (last_user none ms) (summary_input host_of ms) summary kept)
            ∙ boundaries-with_summary (keep_if is_boundary ms) (summary_input host_of ms) typed _ _
                (All-keep_if_test is_boundary ms),
      )
    where
      weaken :
          (u : Option Message) (input : List Message) (summary : Message)
          → IfSome (λ m. is_boundary m ≡ true → is_in host_of m (keep_if is_boundary ms) ≡ true) u
          → IfSome
              (λ m.
                is_boundary m ≡ true
                → is_in host_of m (with_summary host_of (keep_if is_boundary ms) input summary)
                  ≡ true)
              u
      weaken none input summary h = tt
      weaken (some m) input summary h =
          λ e. is_in-with_summary m (keep_if is_boundary ms) input summary (h e)

  -- Compaction erases no record of an earlier one: every compaction boundary survives, in order, and
  -- at most one new boundary comes in between. Every message is equal to itself.
  pub boundaries-compact :
      (k : ℕ) (c : Conversation)
      → (older added newer : List Message) × (length added ≤ 1)
        × (find_compaction_boundaries c ≡ older ++ newer)
        × (find_compaction_boundaries (compact host_of k c) ≡ (older ++ added) ++ newer)
  unfolding compact find_compaction_boundaries
  boundaries-compact k c =
      elim (Bool-cases (leb (length c.messages) (k + 1) || split_index k c.messages == 0)) [
        | inl e ↦ ([], [], keep_if is_boundary c.messages, omega arith, refl, rw (compact, e))
        | inr e ↦
            let s = split_index k c.messages in
            let (added, small, headed) =
              boundaries-compacted_head (any is_model_message c.messages) (take s c.messages) in
            (
              keep_if is_boundary (take s c.messages),
              added,
              keep_if is_boundary (drop s c.messages),
              small,
              ap (keep_if is_boundary) (sym (take-append-drop s c.messages))
                  ∙ keep_if-append is_boundary (take s c.messages) (drop s c.messages),
              rw (
                compact,
                e,
                keep_if-append is_boundary
                    (compacted_head host_of (any is_model_message c.messages) (take s c.messages))
                    (drop s c.messages),
                headed,
              ),
            )
      ]

  All-is_in : (ms : List Message) → All (λ m. is_in host_of m ms ≡ true) ms
  All-is_in [] = tt
  All-is_in (m ∷ ms) = (rw (any, equal_refl m), weaken_all ms (All-is_in ms))
    where
      weaken_all :
          (xs : List Message)
          → All (λ x. is_in host_of x ms ≡ true) xs
          → All (λ x. is_in host_of x (m ∷ ms) ≡ true) xs
      weaken_all [] h = tt
      weaken_all (x ∷ xs) (hx, h) = (is_in-weaken x m ms hx, weaken_all xs h)

  is_in-add_left :
      (m : Message) (xs ys : List Message)
      → is_in host_of m ys ≡ true
      → is_in host_of m (xs ++ ys) ≡ true
  is_in-add_left m [] ys h = h
  is_in-add_left m (x ∷ xs) ys h = is_in-weaken m x (xs ++ ys) (is_in-add_left m xs ys h)

  All-is_in_right :
      (xs ys zs : List Message)
      → All (λ m. is_in host_of m ys ≡ true) zs
      → All (λ m. is_in host_of m (xs ++ ys) ≡ true) zs
  All-is_in_right xs ys [] h = tt
  All-is_in_right xs ys (z ∷ zs) (hz, h) = (is_in-add_left z xs ys hz, All-is_in_right xs ys zs h)

  user_added :
      (u : Option Message) (head rest : List Message)
      → IfSome (λ m. is_in host_of m (add_user host_of u head ++ rest) ≡ true) u
  user_added none head rest = tt
  user_added (some m) head rest = elim (Bool-cases (is_in host_of m head)) [
    | inl e ↦ rw e (is_in-append m head rest e)
    | inr e ↦ rw e (
        is_in-append m (head ++ m ∷ []) rest
          (is_in-add_left m head (m ∷ []) (rw (any, equal_refl m))))
  ]

  last_user-append :
      (previous : Option Message) (xs ys : List Message)
      → last_user previous (xs ++ ys) ≡ last_user (last_user previous xs) ys
  last_user-append previous [] ys = refl
  last_user-append previous (x ∷ xs) ys = last_user-append _ xs ys

  -- The last message of the user, or one that is equal to it, is in the thread after a compaction, if
  -- every message is equal to itself.
  pub last_user-compact :
      (k : ℕ) (c : Conversation)
      → IfSome
          (λ m. is_in host_of m (compact host_of k c).messages ≡ true)
          (last_user none c.messages)
  unfolding compact compacted_head
  last_user-compact k c =
      elim (Bool-cases (leb (length c.messages) (k + 1) || split_index k c.messages == 0)) [
        | inl e ↦ rw (compact, e) (last_user-All _ none c.messages tt (All-is_in c.messages))
        | inr e ↦
            let s = split_index k c.messages in
            rw (compact, e)
              (subst (IfSome _)
                (sym (last_user-append none (take s c.messages) (drop s c.messages))
                  ∙ ap (last_user none) (take-append-drop s c.messages))
                (last_user-All _ (last_user none (take s c.messages)) (drop s c.messages)
                  (user_added (last_user none (take s c.messages)) _ (drop s c.messages))
                  (All-is_in_right _ (drop s c.messages) (drop s c.messages)
                    (All-is_in (drop s c.messages)))))
      ]
