-- ===== src/Checkpoint/Latest.antt =====
-- The checkpoint from which a run resumes is the latest of its own.
use looplet.Prelude.{
  All, Bool, Bool-cases, List, Option, Option-cases, String, [], ap, false, if◌then◌else◌, inl, inr,
  none, refl, some, subst, true, ◌∙◌, ◌∷◌, ◌≡◌, ◌⊎◌,
}
use looplet.Checkpoint.{
  Checkpoint, CheckpointFile, Resume, Selection, blocked, has_turn_state, invalid_run_id,
  is_foreign, is_terminal, is_valid, load_latest_for_resume, nothing, or_skip, read_file, resume_of,
  resumes, same_run, scan, select, visit,
}
use looplet.Checkpoint.Kept.{
  Beaten, InSelection, NotLater, kept_of, select-beats, select-from, select-keeps,
}

module _ (is_component has_separator : String → Bool) (run : Option String) where
  abbrev pub foreign : CheckpointFile → Bool
  foreign = is_foreign is_component has_separator run

  -- What a file is to a checkpoint that a run resumes from: it belongs to another run by its name, it
  -- holds a checkpoint of another run, or it holds one that is verified and satisfies `P`.
  abbrev pub Yields : (Checkpoint → Type 0) → CheckpointFile → Type 0
  Yields P file =
      (foreign file ≡ true)
      ⊎ ((cp : Checkpoint) × (file.reading ≡ some cp)
          × ((same_run cp.run_id run ≡ false) ⊎ ((file.is_verified ≡ true) × P cp)))

  -- one of the files holds the checkpoint, verified, and it is the run's
  abbrev pub IsHeld : Checkpoint → List CheckpointFile → Type 0
  IsHeld c [] = ⊥
  IsHeld c (file ∷ files) =
      ((file.reading ≡ some c) × (file.is_verified ≡ true) × (same_run c.run_id run ≡ true))
      ⊎ IsHeld c files

  -- what one visit of a file comes to
  data Visited (file : CheckpointFile) (s s' : Selection) : Type 0 where
    skipped : foreign file ≡ true → s ≡ s' → Visited file s s'
    not_ours :
        (cp : Checkpoint)
        → file.reading ≡ some cp
        → same_run cp.run_id run ≡ false
        → s ≡ s'
        → Visited file s s'
    selected :
        (cp : Checkpoint)
        → file.reading ≡ some cp
        → same_run cp.run_id run ≡ true
        → file.is_verified ≡ true
        → select cp s ≡ some s'
        → Visited file s s'

  skip_lem :
      (file : CheckpointFile) (s s' : Selection)
      → or_skip is_component has_separator (foreign file) s none ≡ some s'
      → Visited file s s'
  skip_lem file s s' h = elim (Bool-cases (foreign file)) [
    | inl e ↦ skipped e (let same : some s ≡ some s' = rw e at h in cc)
    | inr e ↦ let lost : ◌≡◌ {A = Option Selection} none (some s') = rw e at h in cc
  ]

  select-or_skip :
      (file : CheckpointFile) (cp : Checkpoint) (s s' : Selection) (o : Option Selection)
      → file.reading ≡ some cp
      → same_run cp.run_id run ≡ true
      → file.is_verified ≡ true
      → select cp s ≡ o
      → or_skip is_component has_separator (foreign file) s o ≡ some s'
      → Visited file s s'
  select-or_skip file cp s s' none reading ours verified e h = skip_lem file s s' h
  select-or_skip file cp s s' (some t) reading ours verified e h =
      selected cp reading ours verified (e ∙ h)

  verified_lem :
      (file : CheckpointFile) (cp : Checkpoint) (s s' : Selection) (b : Bool)
      → file.reading ≡ some cp
      → same_run cp.run_id run ≡ true
      → file.is_verified ≡ b
      → or_skip is_component has_separator (foreign file) s (if b then select cp s else none)
        ≡ some s'
      → Visited file s s'
  verified_lem file cp s s' true reading ours v h =
      select-or_skip file cp s s' (select cp s) reading ours v refl h
  verified_lem file cp s s' false reading ours v h = skip_lem file s s' h

  read_lem :
      (file : CheckpointFile) (s s' : Selection) (o : Option Checkpoint)
      → file.reading ≡ o
      → or_skip is_component has_separator (foreign file) s (read_file run file o s) ≡ some s'
      → Visited file s s'
  unfolding read_file
  read_lem file s s' none reading h = skip_lem file s s' h
  read_lem file s s' (some cp) reading h = elim (Bool-cases (same_run cp.run_id run)) [
    | inr other ↦
        let same : some s ≡ some s' = rw (read_file, other) at h in not_ours cp reading other (cc)
    | inl ours ↦
        verified_lem file cp s s' file.is_verified reading ours refl (rw (read_file, ours) at h)
  ]

  visit_lem :
      (file : CheckpointFile) (s s' : Selection)
      → visit is_component has_separator run file s ≡ some s'
      → Visited file s s'
  visit_lem file s s' h = read_lem file s s' file.reading refl h

  Visited-keeps :
      {file : CheckpointFile} {s s' : Selection} (x : Checkpoint)
      → Visited file s s'
      → InSelection s x
      → InSelection s' x
  Visited-keeps x (skipped f e) h = subst (λ t. InSelection t x) e h
  Visited-keeps x (not_ours cp r o e) h = subst (λ t. InSelection t x) e h
  Visited-keeps {s} {s'} x (selected cp r o v e) h = select-keeps cp x s s' e h

  Visited-Yields :
      {file : CheckpointFile} {s s' : Selection} → Visited file s s' → Yields (InSelection s') file
  Visited-Yields (skipped f e) = inl f
  Visited-Yields (not_ours cp r o e) = inr (cp, r, inl o)
  Visited-Yields {s} {s'} (selected cp r o v e) = inr (cp, r, inr (v, select-beats cp s s' e))

  -- the checkpoint of a kind was kept before, or it is that of the file
  Visited-from :
      {file : CheckpointFile} {s s' : Selection} (j : Bool) (x : Checkpoint)
      → Visited file s s'
      → kept_of j s' ≡ some x
      → (((file.reading ≡ some x) × (file.is_verified ≡ true) × (same_run x.run_id run ≡ true))
          × (is_terminal x ≡ j))
        ⊎ (kept_of j s ≡ some x)
  Visited-from j x (skipped f e) h = inr (rw e h)
  Visited-from j x (not_ours cp r o e) h = inr (rw e h)
  Visited-from {s} {s'} j x (selected cp r o v e) h = elim (select-from cp x j s s' e h) [
    | inr before ↦ inr before
    | inl (same, kind) ↦ inl (
      (r ∙ ap some same, v, subst (λ (y : Checkpoint). same_run y.run_id run ≡ true) same o),
      subst (λ (y : Checkpoint). is_terminal y ≡ j) same kind,
    )
  ]

  Yields-map :
      (P Q : Checkpoint → Type 0) (file : CheckpointFile)
      → ((x : Checkpoint) → P x → Q x)
      → Yields P file
      → Yields Q file
  Yields-map P Q file f (inl h) = inl h
  Yields-map P Q file f (inr (cp, r, inl o)) = inr (cp, r, inl o)
  Yields-map P Q file f (inr (cp, r, inr (v, p))) = inr (cp, r, inr (v, f cp p))

  abbrev pub AllYield : (Checkpoint → Type 0) → List CheckpointFile → Type 0
  AllYield P files = All (Yields P) files

  scanned :
      (files : List CheckpointFile) (s s' : Selection)
      → scan is_component has_separator run files s ≡ some s'
      → ((x : Checkpoint) → InSelection s x → InSelection s' x)
        × AllYield (InSelection s') files
        × ((j : Bool) (x : Checkpoint)
            → kept_of j s' ≡ some x
            → (IsHeld x files × (is_terminal x ≡ j)) ⊎ (kept_of j s ≡ some x))
  unfolding scan
  scanned [] s s' h =
      let same : s ≡ s' = cc in
      ((λ x b. subst (λ t. InSelection t x) same b), tt, (λ j x k. inr (rw same k)))
  scanned (file ∷ files) s s' h =
      elim (Option-cases (visit is_component has_separator run file s)) [
        | inl e ↦
            let lost : ◌≡◌ {A = Option Selection} none (some s') = rw (scan, e) at h in absurd (cc)
        | inr (s₁, e) ↦
            let v = visit_lem file s s₁ e in
            let (keeps, yields, from) = scanned files s₁ s' (rw (scan, e) at h) in
            (
              (λ x b. keeps x (Visited-keeps x v b)),
              (Yields-map (InSelection s₁) (InSelection s') file keeps (Visited-Yields v), yields),
              (λ j x k. elim (from j x k) [
                | inl (held, kind) ↦ inl (inr held, kind)
                | inr before ↦ elim (Visited-from j x v before) [
                  | inl (here, kind) ↦ inl (inl here, kind)
                  | inr first ↦ inr first
                ]
              ]),
            )
      ]

  -- a checkpoint that a run resumes from, against another one of the run: no checkpoint is terminal, and
  -- the other is not later; or it is itself terminal, and no terminal one is later
  abbrev pub Superseded : Checkpoint → Checkpoint → Type 0
  Superseded c cp =
      ((is_terminal c ≡ false) × (is_terminal cp ≡ false) × NotLater cp c)
      ⊎ ((is_terminal c ≡ true) × ((is_terminal cp ≡ true) → NotLater cp c))

  kind-Superseded :
      (s : Selection) (c cp : Checkpoint) (k : Bool)
      → is_terminal cp ≡ k
      → Beaten cp (kept_of k s)
      → ((s.terminal ≡ some c) × (is_terminal c ≡ true))
        ⊎ ((s.terminal ≡ none) × (s.best ≡ some c) × (is_terminal c ≡ false))
      → Superseded c cp
  kind-Superseded s c cp true t b (inl (e, kind)) = inr (kind, λ _. rw e at b)
  kind-Superseded s c cp false t b (inl (e, kind)) = inr (kind, λ u. absurd (cc))
  kind-Superseded s c cp true t b (inr (e, best, kind)) = absurd (rw e at b)
  kind-Superseded s c cp false t b (inr (e, best, kind)) = inl (kind, t, rw best at b)

  none_kept :
      (j : Bool) (x : Checkpoint)
      → ((kept_of j (record { best = none; terminal = none }) ≡ some x) → ⊥)
  none_kept true x e = cc
  none_kept false x e = cc

  resumed_kind :
      (s : Selection) (c : Checkpoint) (o : Option Checkpoint)
      → s.terminal ≡ o
      → resume_of is_component has_separator s o ≡ resumes c
      → (s.terminal ≡ some c) ⊎ ((s.terminal ≡ none) × (s.best ≡ some c))
  resumed_kind s c none e h = elim (Option-cases s.best) [
    | inl b ↦ let lost : ◌≡◌ {A = Resume} nothing (resumes c) = rw b at h in absurd (cc)
    | inr (d, b) ↦ let same : ◌≡◌ {A = Resume} (resumes d) (resumes c) = rw b at h in inr (e, cc)
  ]
  resumed_kind s c (some d) e h =
      elim (Bool-cases (has_turn_state is_component has_separator d.turn_state)) [
        | inl b ↦ let same : ◌≡◌ {A = Resume} (resumes d) (resumes c) = rw b at h in inl (cc)
        | inr b ↦ let lost : ◌≡◌ {A = Resume} nothing (resumes c) = rw b at h in absurd (cc)
      ]

  scan-latest :
      (files : List CheckpointFile) (s : Selection) (c : Checkpoint)
      → scan is_component has_separator run files (record { best = none; terminal = none }) ≡ some s
      → resume_of is_component has_separator s s.terminal ≡ resumes c
      → IsHeld c files × AllYield (Superseded c) files
  scan-latest files s c e h =
      let (keeps, yields, from) = scanned files _ s e in
      let origin : (j : Bool) → kept_of j s ≡ some c → IsHeld c files × (is_terminal c ≡ j) =
        λ j k. elim (from j c k) [ inl held ↦ held | inr before ↦ absurd (none_kept j c before) ] in
      elim (resumed_kind s c s.terminal refl h) [
        | inl t ↦
            let (held, kind) = origin true t in
            (
              held,
              superseded files yields
                  (λ cp b. kind-Superseded s c cp (is_terminal cp) refl b (inl (t, kind))),
            )
        | inr (t, best) ↦
            let (held, kind) = origin false best in
            (
              held,
              superseded files yields
                  (λ cp b. kind-Superseded s c cp (is_terminal cp) refl b (inr (t, best, kind))),
            )
      ]
    where
      superseded :
          (fs : List CheckpointFile)
          → AllYield (InSelection s) fs
          → ((cp : Checkpoint) → InSelection s cp → Superseded c cp)
          → AllYield (Superseded c) fs
      superseded [] h' f = tt
      superseded (file ∷ fs) (y, h') f =
          (Yields-map (InSelection s) (Superseded c) file f y, superseded fs h' f)

  -- If a run resumes from a checkpoint, one of the files holds it, verified and with the identity of the
  -- run, and every file is named for another run, holds a checkpoint of another run, or holds a verified
  -- checkpoint of this one that it supersedes: there is no terminal checkpoint, and none is later; or the
  -- chosen one is itself terminal, and no terminal one is later. So no file that may be the run's is
  -- skipped because it cannot be read.
  pub load_latest_for_resume-latest :
      (files : List CheckpointFile) (c : Checkpoint)
      → load_latest_for_resume is_component has_separator run files ≡ resumes c
      → IsHeld c files × AllYield (Superseded c) files
  unfolding load_latest_for_resume
  load_latest_for_resume-latest files c h =
      elim (Bool-cases (is_valid is_component has_separator run)) [
        | inr v ↦
            let lost : ◌≡◌ {A = Resume} invalid_run_id (resumes c) =
              rw (load_latest_for_resume, v) at h in
            absurd (cc)
        | inl v ↦
            elim (Option-cases (
              scan is_component has_separator run files
                (record { best = none; terminal = none }))) [
                  | inl e ↦
                      let lost : ◌≡◌ {A = Resume} blocked (resumes c) =
                        rw (load_latest_for_resume, v, e) at h in
                      absurd (cc)
                  | inr (s, e) ↦ scan-latest files s c e (rw (load_latest_for_resume, v, e) at h)
                ]
      ]
