-- ===== src/DiskList/Copying.antt =====
-- A copy of a list on disk that is kept up to date by `changes_since`, as checkpoints keep one.
use looplet.Prelude.{
  All, Bool, Bool-cases, List, Option, [], ap, arith, false, inl, inr, length, ltb, ltb→lt, map,
  none, refl, some, some-injective, subst, suc, sym, take, true, zero, ℕ, ◌+◌, ◌-◌, ◌<◌, ◌∙◌, ◌∷◌,
  ◌≡◌, ◌≤◌,
}
use looplet.Prelude.Places.{get_elem?}
use looplet.Value.{negsuc, pos, pos, negsuc}
use looplet.DiskList.{Codec, DiskList, Row, disk_list, flush}
use looplet.DiskList.Rows.{Stands}
use looplet.DiskList.Settled.{IsLossless, Listing, Refines, Settled, Settled-Refines}
use looplet.DiskList.Flush.{flush-Settled}
use looplet.DiskList.Uses.{Use, use_all_disk, use_all_listed}
use looplet.DiskList.Refinement.{uses-Agree}
use looplet.DiskList.Since.{Changed, Cursor, changes_by, changes_since, is_reset}
use looplet.DiskList.Tracks.{RowTracked, Tracks, flush-Tracks, use_all_disk-Tracks}
use looplet.DiskList.Replay.{list_changes-all, replay, replay-Stands}

-- the copy, with the cursor it was made at
pub record Copy (R : Type 0) : Type 0 where
  pub cursor : Cursor
  pub items : List R

abbrev pub no_copy : {R : Type 0} → Copy R
no_copy = record {
  cursor = record { generation = negsuc 0; revision = negsuc 0; length = 0 };
  items = [];
}

module _ {R : Type 0} where
  -- changes of the same generation are replayed, others are the new copy
  abbrev pub taken : Copy R → Changed R → Bool → List R
  taken copy c true = map (λ e. e.1) c.records
  taken copy c false = replay c.records copy.items

  abbrev pub take_over : Copy R → ℕ → Option (Changed R) → Copy R
  take_over copy stop none = copy
  take_over copy stop (some c) = record {
    cursor = record { generation = pos c.generation; revision = pos c.revision; length = stop };
    items = taken copy c (is_reset c.generation copy.cursor stop);
  }

module _ {R P : Type 0} (codec : Codec R P) where
  -- uses of the list, and then the changes up to `stop`
  abbrev pub follow_round : List (Use R) × ℕ → DiskList R P × Copy R → DiskList R P × Copy R
  follow_round (us, stop) (s, copy) =
      let (answer, s') = changes_since codec copy.cursor stop (use_all_disk codec us s).1 in
      (s', take_over copy stop answer)

  abbrev pub follow : List (List (Use R) × ℕ) → DiskList R P × Copy R → DiskList R P × Copy R
  follow [] pair = pair
  follow (round ∷ rounds) pair = follow rounds (follow_round round pair)

  abbrev pub listed_after : List (List (Use R) × ℕ) → Listing R → Listing R
  listed_after [] l = l
  listed_after ((us, stop) ∷ rounds) l = listed_after rounds (use_all_listed codec.weight us l).1

  abbrev IsFollowed : DiskList R P × Copy R → Listing R → Type 0
  IsFollowed (s, copy) l =
      Refines codec s l
      × Tracks codec copy.cursor copy.items s
      × (copy.cursor.length ≡ length copy.items)

  length-take : (n : ℕ) (xs : List R) → n ≤ length xs → length (take n xs) ≡ n
  length-take zero xs h = refl
  length-take (suc n) [] h = absurd (omega arith)
  length-take (suc n) (x ∷ xs) h = omega (arith, length-take n xs (omega arith))

  get_elem?-take :
      (n : ℕ) (xs : List R) (i : ℕ) (y : R)
      → get_elem? (take n xs) i ≡ some y
      → get_elem? xs i ≡ some y
  get_elem?-take zero xs i y e = ground arith
  get_elem?-take (suc n) [] i y e = e
  get_elem?-take (suc n) (x ∷ xs) zero y e = e
  get_elem?-take (suc n) (x ∷ xs) (suc i) y e = get_elem?-take n xs i y e

  -- a copy that was just made tracks the rows
  Stands-tracked :
      (cursor : Cursor) (mirror : List R) (k : ℕ) (rows : List (Row P)) (ys : List R) (ws : List ℕ)
      → Stands codec.decode k rows ys ws
      → ((j : ℕ) (y : R) → get_elem? mirror (k + j) ≡ some y → get_elem? ys j ≡ some y)
      → All (RowTracked codec cursor mirror) rows
  Stands-tracked cursor mirror k [] ys ws st same = tt
  Stands-tracked cursor mirror k (r ∷ rows) [] ws st same = absurd st
  Stands-tracked cursor mirror k (r ∷ rows) (y ∷ ys) [] st same = absurd st
  Stands-tracked cursor mirror k (r ∷ rows) (y ∷ ys) (w ∷ ws) (here, d, v, st) same = (
    inr (λ q z at there.
        let place : k + 0 ≡ q = ground arith in
        d ∙ some-injective y z (same 0 z (ap (get_elem? mirror) place ∙ there))),
    Stands-tracked cursor mirror (suc k) rows ys ws st
        (λ j z there. same (suc j) z (ap (get_elem? mirror) (omega arith) ∙ there)),
  )

  take_all : (n : ℕ) (xs : List R) → take (n - 0) xs ≡ take n xs
  take_all n xs = let same : n - 0 ≡ n = omega arith in ap (λ m. take m xs) same

  -- what is taken over is the list up to `stop`
  taken-take :
      (copy : Copy R) (stop : ℕ) (s : DiskList R P) (l : Listing R)
      → Settled codec s l
      → Tracks codec copy.cursor copy.items s
      → copy.cursor.length ≡ length copy.items
      → stop ≤ length l.items
      → (b : Bool) → is_reset s.generation copy.cursor stop ≡ b
      → taken copy
          (record {
            generation = s.generation;
            revision = s.revision;
            records = changes_by codec copy.cursor stop s.records b;
          })
          b
        ≡ take stop l.items
  taken-take copy stop s l settled tracks len within true reset =
      list_changes-all codec stop 0 s.records l.items _ settled.stands ∙ take_all stop l.items
  taken-take copy stop s l settled tracks len within false kept =
      replay-Stands codec copy.cursor copy.items stop 0 s.records l.items _ [] copy.items
        settled.stands (tracks.each (ground arith)) refl
        ((λ j. ap (get_elem? copy.items) (omega arith)), omega arith) (ground arith) (omega arith)
      ∙ take_all stop l.items

  fresh-Tracked :
      (s : DiskList R P) (l : Listing R) (stop : ℕ)
      → Settled codec s l
      → Tracks codec
          (record { generation = pos s.generation; revision = pos s.revision; length = stop })
          (take stop l.items)
          s
  fresh-Tracked s l stop settled = record {
    reached = omega arith;
    passed = omega arith;
    each = λ same.
        Stands-tracked
          (record { generation = pos s.generation; revision = pos s.revision; length = stop })
          (take stop l.items) 0 s.records l.items _ settled.stands
          (λ j y there.
            get_elem?-take stop l.items j y
              (ap (get_elem? (take stop l.items)) (omega arith) ∙ there));
  }

  reached_end : (n m i : ℕ) → n ≡ m → ltb n i ≡ false → i ≤ m
  reached_end n m i e h = ground arith

  module _ (lossless : IsLossless codec) where
    -- the changes are taken over by a copy that tracks the list
    changes-IsFollowed :
        (s : DiskList R P) (copy : Copy R) (l : Listing R) (stop : ℕ)
        → IsFollowed (s, copy) l
        → let (answer, s') = changes_since codec copy.cursor stop s in
          IsFollowed (s', take_over copy stop answer) l
          × (stop ≤ length l.items → (take_over copy stop answer).items ≡ take stop l.items)
    unfolding changes_since
    changes-IsFollowed s copy l stop (ref, tracks, len) =
        let s₁ = flush codec s in
        let settled = flush-Settled codec lossless s l ref in
        let tracks₁ = flush-Tracks codec copy.cursor copy.items s tracks in
        let ref₁ = Settled-Refines codec s₁ l settled in
        elim (Bool-cases (ltb s₁.length stop)) [
          | inl beyond ↦
              let too_long : length l.items < stop =
                subst (λ n. n < stop) settled.counted (ltb→lt _ _ beyond) in
              rw (changes_since, beyond) ((ref₁, tracks₁, len), λ within. absurd (omega arith))
          | inr inside ↦
              let within : stop ≤ length l.items = reached_end _ _ _ settled.counted inside in
              let same =
                taken-take copy stop s₁ l settled tracks₁ len within
                  (is_reset s₁.generation copy.cursor stop) refl in
              rw (changes_since, inside, same)
                (
                  (ref₁, fresh-Tracked s₁ l stop settled, sym (length-take stop l.items within)),
                  λ h. refl,
                )
        ]

    follow_round-IsFollowed :
        (us : List (Use R)) (stop : ℕ) (s : DiskList R P) (copy : Copy R) (l : Listing R)
        → IsFollowed (s, copy) l
        → let l' = (use_all_listed codec.weight us l).1 in
          IsFollowed (follow_round (us, stop) (s, copy)) l'
          × (stop ≤ length l'.items
              → (follow_round (us, stop) (s, copy)).1.items ≡ take stop l'.items)
    follow_round-IsFollowed us stop s copy l (ref, tracks, len) =
        let (answers, ref') = uses-Agree codec lossless us s l ref in
        changes-IsFollowed (use_all_disk codec us s).1 copy (use_all_listed codec.weight us l).1
          stop (ref', use_all_disk-Tracks codec copy.cursor copy.items us s tracks, len)

    follow-IsFollowed :
        (rounds : List (List (Use R) × ℕ)) (s : DiskList R P) (copy : Copy R) (l : Listing R)
        → IsFollowed (s, copy) l
        → IsFollowed (follow rounds (s, copy)) (listed_after rounds l)
    follow-IsFollowed [] s copy l followed = followed
    follow-IsFollowed ((us, stop) ∷ rounds) s copy l followed =
        follow-IsFollowed rounds _ _ _ (follow_round-IsFollowed us stop s copy l followed).0

    -- A copy of a list on disk that asks for the changes since its cursor, and takes them over, is the
    -- list up to the place that it asked for: after any rounds of uses and such requests, some of which
    -- may have asked beyond the end, been of another generation or gone back, and uses once more, where
    -- the last request is for a place within the list, if the codec loses nothing and payloads that
    -- compare equal are equal.
    pub follow_round-take :
        (rounds : List (List (Use R) × ℕ)) (us : List (Use R)) (stop : ℕ)
        → let l = listed_after rounds (record { items = []; focus = none }) in
          let items = (use_all_listed codec.weight us l).1.items in
          stop ≤ length items
          → (follow_round (us, stop) (follow rounds (disk_list codec, no_copy))).1.items
            ≡ take stop items
    unfolding disk_list
    follow_round-take rounds us stop within =
        let start : IsFollowed (disk_list codec, no_copy) (record { items = []; focus = none }) = (
          record {
            stored = [];
            weights = [];
            stands = tt;
            counted = refl;
            summed = refl;
            live = (refl, refl, refl);
          },
          record { reached = tt; passed = tt; each = λ same. tt },
          refl,
        ) in
        (follow_round-IsFollowed us stop _ _ _
            (follow-IsFollowed rounds (disk_list codec) no_copy _ start)).1
          within
