-- ===== src/Conversation/Compaction.antt =====
-- What survives a compaction of the thread.
use looplet.Prelude.{
  All, All-append, All-keep_if, Bool, Bool-cases, List, Option, Option-cases, String, [], any, ap,
  arith, drop, false, inl, inr, keep_if, keep_if-append, keep_if-none, leb, length, ltb, none,
  or_else, refl, some, subst, suc, sym, take, take-append-drop, true, zero, ℕ, ◌++◌, ◌+◌, ◌-◌, ◌<◌,
  ◌==◌, ◌||◌, ◌∙◌, ◌∷◌, ◌≡◌,
}
use mathlib.Core.List.{append-nil}
use looplet.Conversation.{
  Compactor, Conversation, Message, add_user, compact, compacted_head, in_turn_of, index_where,
  is_boundary, is_in, is_model_message, is_user, last_messages, last_user, split_index,
  summary_input, summary_message, with_summary,
}

-- before the first index that a test selects, it selects nothing
Before : Option ℕ → (Message → Bool) → List Message → Type 0
Before none p ms = All (λ m. p m ≡ false) ms
Before (some i) p ms = All (λ m. p m ≡ false) (take i ms)

index_where-Before : (p : Message → Bool) (ms : List Message) → Before (index_where p ms) p ms
unfolding Before
index_where-Before p [] = tt
index_where-Before p (m ∷ ms) = elim (Bool-cases (p m)) [
  | inl e ↦ rw (index_where, e) tt
  | inr e ↦ elim (Option-cases (index_where p ms)) [
    | inl n ↦ rw (index_where, e, n) (e, subst (λ o. Before o p ms) n (index_where-Before p ms))
    | inr (i, n) ↦
        rw (index_where, e, n) (e, subst (λ o. Before o p ms) n (index_where-Before p ms))
  ]
]

abbrev pub IfSome : (Message → Type 0) → Option Message → Type 0
IfSome P none = Unit
IfSome P (some m) = P m

pub last_user-All :
    (P : Message → Type 0) (previous : Option Message) (ms : List Message)
    → IfSome P previous
    → All P ms
    → IfSome P (last_user previous ms)
last_user-All P previous [] h hs = h
last_user-All P previous (m ∷ ms) h (hm, hs) = elim (Bool-cases (is_user m)) [
  | inl e ↦ rw e (last_user-All P (some m) ms hm hs)
  | inr e ↦ rw e (last_user-All P previous ms h hs)
]

All-take {κ} : (P : Message → Type κ) (n : ℕ) (ms : List Message) → All P ms → All P (take n ms)
All-take P zero ms h = tt
All-take P (suc n) [] h = tt
All-take P (suc n) (m ∷ ms) (hm, h) = (hm, All-take P n ms h)

module _ (host_of : Compactor) where
  pub keep_if-add_user :
      (p : Message → Bool) (u : Option Message) (head : List Message)
      → IfSome (λ m. p m ≡ false) u
      → keep_if p (add_user host_of u head) ≡ keep_if p head
  keep_if-add_user p none head h = refl
  keep_if-add_user p (some m) head h = elim (Bool-cases (is_in host_of m head)) [
    | inl e ↦ rw e
    | inr e ↦ rw (e, keep_if-append p head (m ∷ []), keep_if, h) (append-nil (keep_if p head))
  ]

  with_summary-none :
      (p : Message → Bool) (boundaries input : List Message) (summary : Message)
      → All (λ m. p m ≡ false) boundaries
      → p summary ≡ false
      → keep_if p (with_summary host_of boundaries input summary) ≡ []
  with_summary-none p boundaries [] summary h n = keep_if-none p boundaries h
  with_summary-none p boundaries (m ∷ ms) summary h n =
      keep_if-none p _ (All-append (λ m. p m ≡ false) boundaries _ h (n, tt))

  -- the head that stands for messages that a test rejects has none that it selects
  compacted_head-none :
      (p : Message → Bool) (typed : Bool) (ms : List Message)
      → ((summary : String) (n : ℕ) → p (summary_message host_of typed summary n) ≡ false)
      → All (λ m. p m ≡ false) ms
      → keep_if p (compacted_head host_of typed ms) ≡ []
  unfolding compacted_head
  compacted_head-none p typed ms no_summary h =
      keep_if-add_user p (last_user none ms) _ (last_user-All (λ m. p m ≡ false) none ms tt h)
      ∙ with_summary-none p _ (summary_input host_of ms) _ (All-keep_if _ is_boundary ms h)
          (no_summary _ _)

  no_turn :
      (recent : List Message) (summary : String) (n : ℕ)
      → in_turn_of recent (summary_message host_of true summary n) ≡ false
  no_turn [] summary n = refl
  no_turn (m ∷ recent) summary n = no_turn recent summary n

  -- the messages before the split belong to no turn of the recent messages
  before_split :
      (k : ℕ) (ms : List Message)
      → any is_model_message ms ≡ true
      → ltb (length ms - k) (length ms) ≡ true
      → All (λ m. in_turn_of (drop (length ms - k) ms) m ≡ false) (take (split_index k ms) ms)
  unfolding split_index Before
  before_split k ms typed window =
      rw (split_index, typed, window)
        (by_index (index_where (in_turn_of (drop (length ms - k) ms)) ms)
          (index_where-Before (in_turn_of (drop (length ms - k) ms)) ms))
    where
      by_index :
          (o : Option ℕ)
          → Before o (in_turn_of (drop (length ms - k) ms)) ms
          → All
              (λ m. in_turn_of (drop (length ms - k) ms) m ≡ false)
              (take (or_else o (length ms - k)) ms)
      by_index none h = All-take _ (length ms - k) ms h
      by_index (some i) h = h

  large_enough : (n k s : ℕ) → 0 < k → (leb n (k + 1) || s == 0) ≡ false → ltb (n - k) n ≡ true
  large_enough n k s pos_k h = ground arith

  -- Compaction of a thread with model messages splits no recent turn: the messages of the turns that
  -- reach into the last `keep_recent` messages, at least one, are the same after it, in the same order.
  pub compact-turns :
      (k : ℕ) (c : Conversation)
      → 0 < k
      → any is_model_message c.messages ≡ true
      → keep_if (in_turn_of (last_messages k c.messages)) (compact host_of k c).messages
        ≡ keep_if (in_turn_of (last_messages k c.messages)) c.messages
  unfolding compact
  compact-turns k c pos_k typed =
      elim (Bool-cases (leb (length c.messages) (k + 1) || split_index k c.messages == 0)) [
        | inl e ↦ rw (compact, e)
        | inr e ↦
            let ms = c.messages in
            let s = split_index k ms in
            let p = in_turn_of (drop (length ms - k) ms) in
            let old = before_split k ms typed (large_enough (length ms) k s pos_k e) in
            rw
              (
                compact,
                e,
                typed,
                not_zero k pos_k,
                keep_if-append p (compacted_head host_of true (take s ms)) (drop s ms),
                compacted_head-none p true (take s ms) (no_turn (drop (length ms - k) ms)) old,
              )
              (sym (
                ap (keep_if p) (sym (take-append-drop s ms))
                ∙ keep_if-append p (take s ms) (drop s ms)
                ∙ ap (λ l. l ++ keep_if p (drop s ms)) (keep_if-none p (take s ms) old)))
      ]
    where
      not_zero : (n : ℕ) → 0 < n → (n == 0) ≡ false
      not_zero n h = ground arith
