-- ===== src/SessionLog/Entities.antt =====
-- The set of all entities under compaction of the log.
use looplet.Prelude.{
  Bool, Bool-cases, List, Option, String, [], ap, false, inl, inr, keep_if, leb, length, not, refl,
  str_eq, str_mem, sym, take-append-drop, true, ℕ, ◌++◌, ◌-◌, ◌==◌, ◌||◌, ◌∙◌, ◌∷◌, ◌≡◌,
}
use looplet.SessionLog.{
  LogEntry, Renderer, SessionLog, all_entities, collect, compact, compacted, entities_of,
  is_summary, older_entries, preserves, recent_entries, summaries, summary_entry, too_few,
}

str_mem-append :
    (x : String) (xs ys : List String) → str_mem x (xs ++ ys) ≡ str_mem x xs || str_mem x ys
str_mem-append x [] ys = refl
str_mem-append x (y ∷ xs) ys = elim (Bool-cases (str_eq x y)) [
  | inl e ↦ rw (str_mem, e)
  | inr e ↦ rw (str_mem, e) (str_mem-append x xs ys)
]

-- an entity that some entry has
abbrev mentioned : (LogEntry → List String) → String → List LogEntry → Bool
mentioned f x es = str_mem x (collect f es)

mentioned-append :
    (f : LogEntry → List String) (x : String) (es fs : List LogEntry)
    → mentioned f x (es ++ fs) ≡ mentioned f x es || mentioned f x fs
mentioned-append f x [] fs = refl
mentioned-append f x (e ∷ es) fs =
    rw
      (
        str_mem-append x (f e) (collect f (es ++ fs)),
        mentioned-append f x es fs,
        str_mem-append x (f e) (collect f es),
      )
      (or_assoc (str_mem x (f e)) (mentioned f x es) (mentioned f x fs))
  where
    or_assoc : (a b c : Bool) → a || (b || c) ≡ (a || b) || c
    or_assoc true b c = refl
    or_assoc false b c = refl

-- the entries that a test selects, and the others
mentioned-split :
    (f : LogEntry → List String) (x : String) (p : LogEntry → Bool) (es : List LogEntry)
    → mentioned f x es ≡ mentioned f x (keep_if p es) || mentioned f x (keep_if (λ e. not (p e)) es)
mentioned-split f x p [] = refl
mentioned-split f x p (e ∷ es) = elim (Bool-cases (p e)) [
  | inl h ↦
      rw
        (
          keep_if,
          h,
          str_mem-append x (f e) (collect f es),
          mentioned-split f x p es,
          str_mem-append x (f e) (collect f (keep_if p es)),
        )
        (or_assoc (str_mem x (f e)) _ _)
  | inr h ↦
      rw
        (
          keep_if,
          h,
          str_mem-append x (f e) (collect f es),
          mentioned-split f x p es,
          str_mem-append x (f e) (collect f (keep_if (λ e. not (p e)) es)),
        )
        (or_swap (str_mem x (f e)) _ _)
]
  where
    or_assoc : (a b c : Bool) → a || (b || c) ≡ (a || b) || c
    or_assoc true b c = refl
    or_assoc false b c = refl

    or_swap : (a b c : Bool) → a || (b || c) ≡ b || (a || c)
    or_swap true true c = refl
    or_swap true false c = refl
    or_swap false b c = refl

-- what is seen is among the entities
or_left : (a b c d : Bool) → c || (a || b) ≡ c → (d || c) || ((d || a) || b) ≡ d || c
or_left a b c true h = refl
or_left a b c false h = h

mentioned-seen :
    (x : String) (es : List LogEntry)
    → mentioned entities_of x es || mentioned (λ e. e.entities_seen) x es
      ≡ mentioned entities_of x es
mentioned-seen x [] = refl
mentioned-seen x (e ∷ es) =
    rw
      (
        str_mem-append x (e.entities_seen ++ e.highlights) (collect entities_of es),
        str_mem-append x e.entities_seen e.highlights,
        str_mem-append x e.entities_seen (collect (λ e. e.entities_seen) es),
      )
      (absorbed (str_mem x e.entities_seen) (str_mem x e.highlights) _ _ (mentioned-seen x es))
  where
    absorbed : (s h a b : Bool) → a || b ≡ a → ((s || h) || a) || (s || b) ≡ (s || h) || a
    absorbed true h a b e = refl
    absorbed false true a b e = refl
    absorbed false false a b e = e

module _ (renderer : Renderer)
    (same_members : (x : String) (xs : List String)
      → str_mem x (renderer.sorted_set xs) ≡ str_mem x xs) where
  mentioned-summaries :
      (x : String) (existing to_compress : List LogEntry)
      → mentioned entities_of x (summaries renderer existing to_compress)
        ≡ mentioned entities_of x existing || mentioned entities_of x to_compress
  unfolding summary_entry
  mentioned-summaries x existing [] = or_false (mentioned entities_of x existing)
    where
      or_false : (a : Bool) → a ≡ a || false
      or_false true = refl
      or_false false = refl
  mentioned-summaries x existing (e ∷ es) =
      let seen = collect entities_of (e ∷ es) ++ collect (λ e. e.entities_seen) existing in
      mentioned-append entities_of x existing (summary_entry renderer existing (e ∷ es) ∷ [])
      ∙ rw
          (
            str_mem-append x (renderer.sorted_set seen ++ []) [],
            str_mem-append x (renderer.sorted_set seen) [],
            same_members x seen,
            str_mem-append x (collect entities_of (e ∷ es))
                (collect (λ e. e.entities_seen) existing),
          )
          (absorbed (mentioned entities_of x existing) (mentioned entities_of x (e ∷ es))
            (mentioned (λ e. e.entities_seen) x existing) (mentioned-seen x existing))
    where
      absorbed : (a c s : Bool) → a || s ≡ a → a || (((c || s) || false) || false) ≡ a || c
      absorbed true c s e = refl
      absorbed false true s e = refl
      absorbed false false true e = e
      absorbed false false false e = refl

  entries-split : (n : ℕ) (es : List LogEntry) → older_entries n es ++ recent_entries n es ≡ es
  entries-split n es = elim (Bool-cases (n == 0)) [
    | inl e ↦ rw e
    | inr e ↦ rw e (take-append-drop (length es - n) es)
  ]

  mentioned-compacted :
      (must_preserve : Option (LogEntry → Bool)) (x : String) (old recent : List LogEntry)
      → mentioned entities_of x (compacted renderer must_preserve old recent)
        ≡ mentioned entities_of x old || mentioned entities_of x recent
  unfolding compacted
  mentioned-compacted must_preserve x old recent =
      let steps = keep_if (λ e. not (is_summary e)) old in
      let existing = keep_if is_summary old in
      let preserved = keep_if (preserves must_preserve) steps in
      let to_compress = keep_if (λ e. not (preserves must_preserve e)) steps in
      let in_steps = mentioned-split entities_of x (preserves must_preserve) steps in
      mentioned-append entities_of x (summaries renderer existing to_compress ++ preserved) recent
      ∙ ap (λ b. b || mentioned entities_of x recent)
          (mentioned-append entities_of x (summaries renderer existing to_compress) preserved
            ∙ ap (λ b. b || mentioned entities_of x preserved)
                (mentioned-summaries x existing to_compress)
            ∙ or_turn (mentioned entities_of x existing) (mentioned entities_of x to_compress)
                (mentioned entities_of x preserved)
            ∙ ap (λ b. mentioned entities_of x existing || b) (sym in_steps)
            ∙ sym (mentioned-split entities_of x is_summary old))
    where
      or_turn : (a c p : Bool) → (a || c) || p ≡ a || (p || c)
      or_turn true c p = refl
      or_turn false true true = refl
      or_turn false true false = refl
      or_turn false false true = refl
      or_turn false false false = refl

  -- Compacting the log, however many entries it keeps and whichever it must preserve, leaves the set of all entities as it was, if sorting a set keeps its members.
  pub all_entities-compact :
      (n : ℕ) (must_preserve : Option (LogEntry → Bool)) (log : SessionLog) (x : String)
      → str_mem x (all_entities (compact renderer n must_preserve log).1)
        ≡ str_mem x (all_entities log)
  unfolding compact all_entities
  all_entities-compact n must_preserve log x =
      elim (Bool-cases (
        leb (length log.entries) n
        || too_few renderer must_preserve
            (keep_if (λ e. not (is_summary e)) (older_entries n log.entries)))) [
              | inl e ↦ rw (compact, e)
              | inr e ↦
                  rw (compact, e)
                    (mentioned-compacted must_preserve x (older_entries n log.entries)
                        (recent_entries n log.entries)
                      ∙ sym (
                          mentioned-append entities_of x (older_entries n log.entries)
                            (recent_entries n log.entries))
                      ∙ ap (mentioned entities_of x) (entries-split n log.entries))
            ]
