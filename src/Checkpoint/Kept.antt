-- ===== src/Checkpoint/Kept.antt =====
-- Which checkpoint a selection keeps.
use looplet.Prelude.{
  Bool, Bool-cases, List, Option, [], ap, arith, false, inl, inr, none, not, refl, some,
  some-injective, subst, sym, true, ℕ, ◌∙◌, ◌∷◌, ◌≡◌, ◌⊎◌,
}
use looplet.Checkpoint.{
  Checkpoint, Selection, better, checkpoint_order, compare_orders, is_after, is_later, is_terminal,
  keep_later, put_best, put_terminal, select,
}

-- the order of tuples
after_asym : (ns ms : List ℕ) → is_after ns ms ≡ true → is_after ms ns ≡ false
unfolding is_after
after_asym [] ms e = cc
after_asym (n ∷ ns) [] e = refl
after_asym (n ∷ ns) (m ∷ ms) e = let ih = after_asym ns ms in ground (arith, after_asym ns ms)

after_trans :
    (xs bs cs : List ℕ) → is_after xs bs ≡ false → is_after cs bs ≡ true → is_after xs cs ≡ false
unfolding is_after
after_trans [] bs cs e h = refl
after_trans (x ∷ xs) [] cs e h = cc
after_trans (x ∷ xs) (b ∷ bs) [] e h = cc
after_trans (x ∷ xs) (b ∷ bs) (c ∷ cs) e h = ground (arith, after_trans xs bs cs)

orders-asym :
    (o p : Option (List ℕ)) → compare_orders o p ≡ some true → compare_orders p o ≡ some false
orders-asym none p e = cc
orders-asym (some ns) none e = cc
orders-asym (some ns) (some ms) e = ap some (after_asym ns ms (some-injective _ _ e))

orders_trans :
    (o p q : Option (List ℕ))
    → compare_orders o p ≡ some false
    → compare_orders q p ≡ some true
    → compare_orders o q ≡ some false
orders_trans none p q e h = cc
orders_trans (some xs) none q e h = cc
orders_trans (some xs) (some bs) none e h = cc
orders_trans (some xs) (some bs) (some cs) e h =
    ap some (after_trans xs bs cs (some-injective _ _ e) (some-injective _ _ h))

-- A checkpoint is not later than another, or it is the other.
abbrev pub NotLater : Checkpoint → Checkpoint → Type 0
NotLater cp c = (is_later cp c ≡ some false) ⊎ (cp ≡ c)

abbrev pub Beaten : Checkpoint → Option Checkpoint → Type 0
Beaten cp none = ⊥
Beaten cp (some c) = NotLater cp c

beaten-later : (x cp b : Checkpoint) → is_later cp b ≡ some true → NotLater x b → NotLater x cp
unfolding is_later
beaten-later x cp b h (inl e) =
    inl (orders_trans (checkpoint_order x) (checkpoint_order b) (checkpoint_order cp) e h)
beaten-later x cp b h (inr e) = inl (
    subst (λ y. is_later y cp ≡ some false) (sym e)
      (orders-asym (checkpoint_order cp) (checkpoint_order b) h))

-- what `better` keeps beats what was kept, and the new checkpoint
keep_later-beats :
    (o : Option Bool) (cp b c : Checkpoint)
    → is_later cp b ≡ o
    → keep_later o cp b ≡ some c
    → ((x : Checkpoint) → NotLater x b → NotLater x c) × NotLater cp c
keep_later-beats none cp b c e h = cc
keep_later-beats (some true) cp b c e h =
    let same : cp ≡ c = some-injective _ _ h in
    ((λ x n. subst (NotLater x) same (beaten-later x cp b e n)), inr same)
keep_later-beats (some false) cp b c e h =
    let same : b ≡ c = some-injective _ _ h in
    ((λ x n. subst (NotLater x) same n), subst (NotLater cp) same (inl e))

better-beats :
    (cp : Checkpoint) (o : Option Checkpoint) (c : Checkpoint)
    → better cp o ≡ some c
    → ((x : Checkpoint) → Beaten x o → NotLater x c) × NotLater cp c
unfolding better
better-beats cp none c h = ((λ x n. absurd n), inr (some-injective _ _ h))
better-beats cp (some b) c h = keep_later-beats (is_later cp b) cp b c refl h

-- a checkpoint that is kept is the new one or the one before
keep_later-from :
    (o : Option Bool) (cp b c : Checkpoint) → keep_later o cp b ≡ some c → (cp ≡ c) ⊎ (b ≡ c)
keep_later-from none cp b c h = cc
keep_later-from (some true) cp b c h = inl (some-injective _ _ h)
keep_later-from (some false) cp b c h = inr (some-injective _ _ h)

better-from :
    (cp : Checkpoint) (o : Option Checkpoint) (c : Checkpoint)
    → better cp o ≡ some c
    → (cp ≡ c) ⊎ (o ≡ some c)
unfolding better
better-from cp none c h = inl (some-injective _ _ h)
better-from cp (some b) c h = elim (keep_later-from (is_later cp b) cp b c h) [
  | inl e ↦ inl e
  | inr e ↦ inr (ap some e)
]

-- what a checkpoint of a kind is compared with
abbrev pub kept_of : Bool → Selection → Option Checkpoint
kept_of true s = s.terminal
kept_of false s = s.best

put_terminal_lem :
    (s s' : Selection) (o : Option Checkpoint)
    → put_terminal s o ≡ some s'
    → (c : Checkpoint) × (o ≡ some c) × (s'.terminal ≡ some c) × (s'.best ≡ s.best)
put_terminal_lem s s' none h = cc
put_terminal_lem s s' (some c) h = (c, refl, cc, cc)

put_best_lem :
    (s s' : Selection) (o : Option Checkpoint)
    → put_best s o ≡ some s'
    → (c : Checkpoint) × (o ≡ some c) × (s'.best ≡ some c) × (s'.terminal ≡ s.terminal)
put_best_lem s s' none h = cc
put_best_lem s s' (some c) h = (c, refl, cc, cc)

-- one selection: of its own kind the better one is kept, of the other kind nothing changes
select_lem :
    (cp : Checkpoint) (s s' : Selection)
    → select cp s ≡ some s'
    → (c : Checkpoint) × (better cp (kept_of (is_terminal cp) s) ≡ some c)
      × (kept_of (is_terminal cp) s' ≡ some c)
      × (kept_of (not (is_terminal cp)) s' ≡ kept_of (not (is_terminal cp)) s)
unfolding select
select_lem cp s s' h = elim (Bool-cases (is_terminal cp)) [
  | inl e ↦ rw e (put_terminal_lem s s' (better cp s.terminal) (rw (select, e) at h))
  | inr e ↦ rw e (put_best_lem s s' (better cp s.best) (rw (select, e) at h))
]

abbrev pub InSelection : Selection → Checkpoint → Type 0
InSelection s cp = Beaten cp (kept_of (is_terminal cp) s)

-- a step on the kept checkpoint of one kind
module _ (s s' : Selection) (c : Checkpoint) where
  kept-step :
      (k j : Bool) (x : Checkpoint)
      → kept_of k s' ≡ some c
      → kept_of (not k) s' ≡ kept_of (not k) s
      → (Beaten x (kept_of k s) → NotLater x c)
      → Beaten x (kept_of j s)
      → Beaten x (kept_of j s')
  kept-step true true x now other gains h = rw now (gains h)
  kept-step true false x now other gains h = rw other h
  kept-step false true x now other gains h = rw other h
  kept-step false false x now other gains h = rw now (gains h)

  kept-from :
      (k j : Bool) (cp x : Checkpoint)
      → kept_of k s' ≡ some c
      → kept_of (not k) s' ≡ kept_of (not k) s
      → (cp ≡ c) ⊎ (kept_of k s ≡ some c)
      → kept_of j s' ≡ some x
      → ((cp ≡ x) × (k ≡ j)) ⊎ (kept_of j s ≡ some x)
  kept-from true true cp x now other (inl e) h = inl (cc, refl)
  kept-from true true cp x now other (inr e) h = inr (cc)
  kept-from true false cp x now other from h = inr (sym other ∙ h)
  kept-from false true cp x now other from h = inr (sym other ∙ h)
  kept-from false false cp x now other (inl e) h = inl (cc, refl)
  kept-from false false cp x now other (inr e) h = inr (cc)

pub select-keeps :
    (cp x : Checkpoint) (s s' : Selection)
    → select cp s ≡ some s'
    → InSelection s x
    → InSelection s' x
select-keeps cp x s s' done h =
    let (c, chosen, now, other) = select_lem cp s s' done in
    kept-step s s' c (is_terminal cp) (is_terminal x) x now other
      ((better-beats cp (kept_of (is_terminal cp) s) c chosen).0 x) h

pub select-beats : (cp : Checkpoint) (s s' : Selection) → select cp s ≡ some s' → InSelection s' cp
select-beats cp s s' done =
    let (c, chosen, now, other) = select_lem cp s s' done in
    rw now (better-beats cp (kept_of (is_terminal cp) s) c chosen).1

pub select-from :
    (cp x : Checkpoint) (j : Bool) (s s' : Selection)
    → select cp s ≡ some s'
    → kept_of j s' ≡ some x
    → ((cp ≡ x) × (is_terminal cp ≡ j)) ⊎ (kept_of j s ≡ some x)
select-from cp x j s s' done h =
    let (c, chosen, now, other) = select_lem cp s s' done in
    kept-from s s' c (is_terminal cp) j cp x now other
      (better-from cp (kept_of (is_terminal cp) s) c chosen) h
