-- ===== src/Checkpoint/Owner.antt =====
-- A save never takes a file from another run.
use looplet.Prelude.{
  Bool, Bool-cases, List, Option, Option-cases, String, [], ap, eq_iff, inl, inr, none, refl, some,
  str_eq, subst, sym, true, ◌∙◌, ◌∷◌, ◌≡◌,
}
use looplet.Prelude.Dict.{insert, lookup, lookup-insert}
use looplet.Checkpoint.{Checkpoint, Directory, key_for, replace, same_run, save}

same_run-eq : (o p : Option String) → same_run o p ≡ true → o ≡ p
same_run-eq none none e = refl
same_run-eq none (some s) e = cc
same_run-eq (some r) none e = cc
same_run-eq (some r) (some s) e = ap some ((eq_iff r s).0 e)

-- What a path held stays: a checkpoint gives way to one of the same run only, and what cannot be read
-- is left alone.
abbrev pub Retains : Option (Option Checkpoint) → Option (Option Checkpoint) → Type 0
Retains none now = Unit {0}
Retains (some none) now = now ≡ some none
Retains (some (some c)) now = (c' : Checkpoint) × (now ≡ some (some c')) × (c'.run_id ≡ c.run_id)

Retains-refl : (o : Option (Option Checkpoint)) → Retains o o
Retains-refl none = tt
Retains-refl (some none) = refl
Retains-refl (some (some c)) = (c, refl, refl)

Retains-trans : (o p q : Option (Option Checkpoint)) → Retains o p → Retains p q → Retains o q
Retains-trans none p q h k = tt
Retains-trans (some none) p q h k = subst (λ x. Retains x q) h k
Retains-trans (some (some c)) p q (c', e, same) k =
    let (c'', now, same') : Retains (some (some c')) q = subst (λ x. Retains x q) e k in
    (c'', now, same' ∙ same)

module _ (is_component has_separator : String → Bool) where
  abbrev pub after_save : Directory → Option Directory → Directory
  after_save d none = d
  after_save d (some d') = d'

  -- the saves of several runs, one after the other; an error leaves the directory as it is
  abbrev pub run_saves : List (Checkpoint × String) → Directory → Directory
  run_saves [] d = d
  run_saves ((cp, key) ∷ saves) d =
      run_saves saves (after_save d (save is_component has_separator cp key d))

  replace-Retains :
      (cp : Checkpoint) (path other : String) (o : Option (Option Checkpoint)) (d : Directory)
      → lookup path d ≡ o
      → Retains (lookup other d) (lookup other (after_save d (replace cp path o d)))
  unfolding replace
  replace-Retains cp path other (some none) d e = Retains-refl (lookup other d)
  replace-Retains cp path other none d e = elim (Bool-cases (str_eq path other)) [
    | inl same ↦
        let fresh : lookup other d ≡ none =
          subst (λ k. lookup k d ≡ none) ((eq_iff path other).0 same) e in
        subst (λ o. Retains o (lookup other (insert path (some cp) d))) (sym fresh) tt
    | inr apart ↦
        subst (Retains (lookup other d)) (sym (lookup-insert path other (some cp) d ∙ rw apart))
          (Retains-refl (lookup other d))
  ]
  replace-Retains cp path other (some (some existing)) d e =
      elim (Bool-cases (same_run existing.run_id cp.run_id)) [
        | inr differs ↦ rw (replace, differs) (Retains-refl (lookup other d))
        | inl agrees ↦ elim (Bool-cases (str_eq path other)) [
          | inl same ↦
              let held : lookup other d ≡ some (some existing) =
                subst (λ k. lookup k d ≡ some (some existing)) ((eq_iff path other).0 same) e in
              let now : lookup other (insert path (some cp) d) ≡ some (some cp) =
                lookup-insert path other (some cp) d ∙ rw same in
              rw (replace, agrees)
                (subst (λ o. Retains o (lookup other (insert path (some cp) d))) (sym held)
                  (cp, now, sym (same_run-eq existing.run_id cp.run_id agrees)))
          | inr apart ↦
              rw (replace, agrees)
                (subst (Retains (lookup other d))
                  (sym (lookup-insert path other (some cp) d ∙ rw apart))
                  (Retains-refl (lookup other d)))
        ]
      ]

  save-Retains :
      (cp : Checkpoint) (key other : String) (d : Directory)
      → Retains
          (lookup other d)
          (lookup other (after_save d (save is_component has_separator cp key d)))
  unfolding save
  save-Retains cp key other d = elim (Option-cases (key_for is_component has_separator cp key)) [
    | inl e ↦ rw (save, e) (Retains-refl (lookup other d))
    | inr (path, e) ↦ rw (save, e) (replace-Retains cp path other (lookup path d) d refl)
  ]

  -- Whatever checkpoints the runs save, under whatever keys, a file that holds a checkpoint of a run
  -- still holds one of the same run, and a file that cannot be read is left as it is: no run loses its
  -- file to another, also where the names of two runs' files coincide.
  pub run_saves-Retains :
      (saves : List (Checkpoint × String)) (path : String) (d : Directory)
      → Retains (lookup path d) (lookup path (run_saves saves d))
  run_saves-Retains [] path d = Retains-refl (lookup path d)
  run_saves-Retains ((cp, key) ∷ saves) path d =
      Retains-trans (lookup path d) _ _ (save-Retains cp key path d)
        (run_saves-Retains saves path (after_save d (save is_component has_separator cp key d)))
