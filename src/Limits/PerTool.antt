-- ===== src/Limits/PerTool.antt =====
-- The per-tool limits over calls of several tools.
use looplet.Prelude.{
  Bool-cases, List, Option-cases, String, [], arith, eq_iff, eq_refl, false, if◌then◌else◌, inl,
  inr, is_some, leb, min, refl, some, str_eq, true, ℕ, ◌+◌, ◌-◌, ◌<◌, ◌∙◌, ◌∷◌, ◌≡◌, ◌≤◌,
}
use looplet.Prelude.Dict.{insert, lookup-insert}
use looplet.Types.{ToolCall}
use looplet.Limits.{PerToolLimitHook, Wording, count_call, limit_of, used_of}
use looplet.Limits.Admitted.{ask_all, calls_of, leb→le, leb→lt, passed_of}

pub used_of-insert :
    (h : PerToolLimitHook) (k t : String) (n : ℕ)
    → used_of (record h { counts = insert k n h.counts }) t
      ≡ (if str_eq k t then n else used_of h t)
unfolding used_of
used_of-insert h k t n = elim (Bool-cases (str_eq k t)) [
  | inl e ↦ rw (lookup-insert k t n h.counts, e)
  | inr e ↦ rw (lookup-insert k t n h.counts, e)
]

module _ (wording : Wording) where
  limit_of-count_call :
      (call : ToolCall) (h : PerToolLimitHook) (t : String)
      → limit_of (count_call wording call h).1 t ≡ limit_of h t
  unfolding count_call limit_of
  limit_of-count_call call h t = elim (Option-cases (limit_of h call.tool)) [
    | inl e ↦ rw (count_call, e)
    | inr (l, e) ↦ elim (Bool-cases (leb l (used_of h call.tool))) [
      | inl b ↦ rw (count_call, e, b)
      | inr b ↦ rw (count_call, e, b)
    ]
  ]

  used_of-count_call :
      (call : ToolCall) (h : PerToolLimitHook) (t : String)
      → str_eq call.tool t ≡ false
      → used_of (count_call wording call h).1 t ≡ used_of h t
  unfolding count_call
  used_of-count_call call h t n = elim (Option-cases (limit_of h call.tool)) [
    | inl e ↦ rw (count_call, e)
    | inr (l, e) ↦ elim (Bool-cases (leb l (used_of h call.tool))) [
      | inl b ↦ rw (count_call, e, b)
      | inr b ↦ rw (count_call, e, b, used_of-insert h call.tool t (used_of h call.tool + 1), n)
    ]
  ]

  -- a call of the tool when its limit is reached, and when it is not
  count_call_full :
      (call : ToolCall) (h : PerToolLimitHook) (t : String) (l : ℕ)
      → call.tool ≡ t
      → limit_of h t ≡ some l
      → leb l (used_of h t) ≡ true
      → (is_some (count_call wording call h).0 ≡ true)
        × (used_of (count_call wording call h).1 t ≡ used_of h t)
  unfolding count_call
  count_call_full call h t l same e b =
      let limit : limit_of h call.tool ≡ some l = rw same e in
      let full : leb l (used_of h call.tool) ≡ true = rw same b in
      rw (count_call, limit, full) (refl, refl)

  count_call_free :
      (call : ToolCall) (h : PerToolLimitHook) (t : String) (l : ℕ)
      → call.tool ≡ t
      → limit_of h t ≡ some l
      → leb l (used_of h t) ≡ false
      → (is_some (count_call wording call h).0 ≡ false)
        × (used_of (count_call wording call h).1 t ≡ used_of h t + 1)
  unfolding count_call
  count_call_free call h t l same e b =
      let limit : limit_of h call.tool ≡ some l = rw same e in
      let free : leb l (used_of h call.tool) ≡ false = rw same b in
      rw (count_call, limit, free)
        (refl, used_of-insert h call.tool t (used_of h call.tool + 1) ∙ rw (same, eq_refl t))

  -- the arithmetic of one call of the tool
  one_more : (n m l u v : ℕ) → v ≡ u + 1 → u < l → n ≡ min (l - v) m → n + 1 ≡ min (l - u) (m + 1)
  one_more n m l u v e b h = omega arith

  no_more : (l u v m : ℕ) → l ≤ u → v ≡ u → min (l - v) m ≡ min (l - u) (m + 1)
  no_more l u v m h e = omega arith

  -- Of a tool with a limit exactly as many calls are let through as were left of the limit, or all
  -- of them if they are fewer, however the calls of other tools are mixed in.
  pub count_calls-passed_of :
      (t : String) (l : ℕ) (calls : List ToolCall) (h : PerToolLimitHook)
      → limit_of h t ≡ some l
      → passed_of t (ask_all (count_call wording) calls h).0
        ≡ min (l - used_of h t) (calls_of t calls)
  unfolding ask_all
  count_calls-passed_of t l [] h e = omega arith
  count_calls-passed_of t l (call ∷ calls) h e =
      let kept = limit_of-count_call call h t in
      let rest = count_calls-passed_of t l calls (count_call wording call h).1 (kept ∙ e) in
      elim (Bool-cases (str_eq call.tool t)) [
        | inr n ↦ rw n (rest ∙ rw (used_of-count_call call h t n))
        | inl n ↦ elim (Bool-cases (leb l (used_of h t))) [
          | inl b ↦
              let (some_answer, used) = count_call_full call h t l ((eq_iff call.tool t).0 n) e b in
              rw (n, some_answer) (rest ∙ no_more l (used_of h t) _ _ (leb→le _ _ b) used)
          | inr b ↦
              let (no_answer, used) = count_call_free call h t l ((eq_iff call.tool t).0 n) e b in
              rw (n, no_answer) (one_more _ _ l (used_of h t) _ used (leb→lt _ _ b) rest)
        ]
      ]
