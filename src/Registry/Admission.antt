-- ===== src/Registry/Admission.antt =====
-- Which calls reach the code of a tool.
use looplet.Prelude.{
  All, Bool, Bool-cases, List, Option, Option-cases, String, [], and_parts, ap, eq_iff, false, inl,
  inr, is_some, keep_if, none, not, refl, some, str_eq, str_mem, subst, sym, true, ◌∙◌, ◌∷◌, ◌≡◌,
  ◌⊎◌,
}
use looplet.Prelude.Dict.{Dict, keys, lookup}
use looplet.Types.{ToolCall}
use looplet.Registry.{
  Argument, ExecutionPolicy, Refusal, Resource, Texts, ToolContext, ToolSpec, allows,
  suggest_similar, unknown_tool,
}
use looplet.Registry.Arguments.{keywords, strip_private}
use looplet.Registry.Prepare.{
  Checked, Checked-cases, check_arguments, execution_policy_of, is_cancelled, is_prepared,
  missing_required, passed, prepare_call, prepare_dispatch, prepare_known, refuse_by_policy,
  refuse_empty, refuse_if, refuse_missing, refuse_unavailable, refuse_undeclared, refuse_unexpected,
  refused, routed_arguments, unknown_arguments, ◌>>=◌, ◌>>◌,
}
use looplet.Registry.Routing.{
  Has, keywords-Covered, keywords-Known, route_raw-Known, route_raw_complete,
}
use looplet.Registry.Dispatch.{Host, after_execute, answered, dispatch, refusal_result}

-- the run's policy grants every capability that the tool declares
abbrev pub IsAuthorised : {W : Type 0} → ToolSpec W → Option ExecutionPolicy → Type 0
IsAuthorised spec none = spec.capabilities ≡ []
IsAuthorised spec (some policy) = All (λ c. str_mem c policy.capabilities ≡ true) spec.capabilities

-- What a run of the tool's code may rely on: the host granted it, every required parameter is given,
-- and every argument is a declared parameter, but for the context of a tool that takes one.
pub record IsAdmissible {W : Type 0} (ctx : Option ToolContext) (spec : ToolSpec W)
    (kwargs : Dict Argument) : Type 0 where
  pub running : is_cancelled ctx ≡ false
  pub authorised : IsAuthorised spec (execution_policy_of ctx)
  pub complete : All (Has kwargs) spec.schema.required
  pub declared :
      (k : String)
      → Has kwargs k
      → Has spec.schema.properties k ⊎ ((spec.accepts_ctx ≡ true) × (k ≡ "ctx"))

passed-bind {ℓ κ} :
    {A : Type ℓ} {B : Type κ} (m : Checked A) (f : A → Checked B) {b : B}
    → (m >>= f) ≡ passed b
    → (a : A) × (m ≡ passed a) × (f a ≡ passed b)
passed-bind (passed a) f h = (a, refl, h)
passed-bind (refused r) f h = cc

three_checks {ℓ} :
    {A : Type ℓ} (b : Bool) (r : Refusal) (m : Checked (Unit {0})) (k : Checked A) {a : A}
    → (refuse_if b r >> (m >> k)) ≡ passed a
    → (b ≡ false) × (m ≡ passed tt) × (k ≡ passed a)
three_checks true r m k h = cc
three_checks false r (refused r') k h = cc
three_checks false r (passed tt) k h = (refl, refl, h)

keep_if-none {ℓ} :
    {A : Type ℓ} (p : A → Bool) (xs : List A) → keep_if p xs ≡ [] → All (λ x. p x ≡ false) xs
keep_if-none p [] h = tt
keep_if-none p (x ∷ xs) h = elim (Bool-cases (p x)) [
  | inl e ↦ let more : x ∷ keep_if p xs ≡ [] = rw (keep_if, e) at h in cc
  | inr e ↦ let rest : keep_if p xs ≡ [] = rw (keep_if, e) at h in (e, keep_if-none p xs rest)
]

All-keys {ℓ κ} :
    {V : Type ℓ} (P : String → Type κ) (d : Dict V) (k : String)
    → All P (keys d)
    → is_some (lookup k d) ≡ true
    → P k
All-keys P [] k h e = cc
All-keys P ((j, v) ∷ d) k (hj, hs) e = elim (Bool-cases (str_eq j k)) [
  | inl same ↦ subst P ((eq_iff j k).0 same) hj
  | inr other ↦ All-keys P d k hs (rw other at e)
]

not-false : (b : Bool) → not b ≡ false → b ≡ true
not-false true h = refl
not-false false h = cc

present {ℓ} :
    {A : Type ℓ} (p : A → Bool) (xs : List A)
    → All (λ x. not (p x) ≡ false) xs
    → All (λ x. p x ≡ true) xs
present p [] h = tt
present p (x ∷ xs) (h, hs) = (not-false (p x) h, present p xs hs)

allows-All :
    (policy : ExecutionPolicy) (cs : List String)
    → allows policy cs ≡ true
    → All (λ c. str_mem c policy.capabilities ≡ true) cs
unfolding allows
allows-All policy [] h = tt
allows-All policy (c ∷ cs) h =
    let (granted, rest) = and_parts _ _ h in (granted, allows-All policy cs rest)

module _ {W : Type 0} (texts : Texts) where
  none_declared :
      (spec : ToolSpec W) (cs : List String) {u : Unit {0}}
      → refuse_undeclared texts spec cs ≡ passed u
      → cs ≡ []
  none_declared spec [] h = refl
  none_declared spec (c ∷ cs) h = cc

  by_policy :
      (spec : ToolSpec W) (policy : Option ExecutionPolicy) {u : Unit {0}}
      → refuse_by_policy texts spec policy ≡ passed u
      → IsAuthorised spec policy
  by_policy spec none h = none_declared spec spec.capabilities h
  by_policy spec (some policy) h = elim (Bool-cases (allows policy spec.capabilities)) [
    | inl e ↦ allows-All policy spec.capabilities e
    | inr e ↦ let contradiction : refused _ ≡ passed _ = rw e at h in cc
  ]

  granted-IsAuthorised :
      (spec : ToolSpec W) (ctx : Option ToolContext) {u : Unit {0}}
      → refuse_unavailable texts spec ctx ≡ passed u
      → IsAuthorised spec (execution_policy_of ctx)
  unfolding refuse_unavailable
  granted-IsAuthorised spec ctx h = by_policy spec (execution_policy_of ctx) h

  checks_passed :
      (spec : ToolSpec W) (o : Option String) (us ms : List String)
      (kwargs sanitized : Dict Argument) {ready : Dict Argument}
      → (refuse_empty texts spec o
          >> (refuse_unexpected texts spec us
              >> (refuse_missing texts spec ms sanitized >> passed kwargs)))
        ≡ passed ready
      → (us ≡ []) × (ms ≡ []) × (kwargs ≡ ready)
  checks_passed spec (some p) us ms kwargs sanitized h = cc
  checks_passed spec none (u ∷ us) ms kwargs sanitized h = cc
  checks_passed spec none [] (m ∷ ms) kwargs sanitized h = cc
  checks_passed spec none [] [] kwargs sanitized h = (refl, refl, cc)

  arguments_checked :
      (spec : ToolSpec W) (kwargs sanitized : Dict Argument) {ready : Dict Argument}
      → check_arguments texts spec kwargs sanitized ≡ passed ready
      → (kwargs ≡ ready)
        × All (Has sanitized) spec.schema.required
        × All (Has spec.schema.properties) (keys sanitized)
  unfolding check_arguments
  arguments_checked spec kwargs sanitized h =
      let (known, complete, same) =
        checks_passed spec _ (unknown_arguments texts spec sanitized)
          (missing_required texts spec sanitized) kwargs sanitized h in
      (
        same,
        present (λ param. is_some (lookup param sanitized)) _ (keep_if-none _ _ complete),
        present (λ arg. is_some (lookup arg spec.schema.properties)) _ (keep_if-none _ _ known),
      )

module _ {W : Type 0} (texts : Texts) (tools : Dict (ToolSpec W)) (shared : Dict Resource) where
  passed_parts :
      (m : Checked (Dict Argument)) (found spec : ToolSpec W) (kwargs : Dict Argument)
      → ◌>>=◌ {B = ToolSpec W × Dict Argument} m (λ ready. passed (found, ready))
        ≡ passed (spec, kwargs)
      → (found ≡ spec) × (m ≡ passed kwargs)
  passed_parts (refused r) found spec kwargs h = cc
  passed_parts (passed ready) found spec kwargs h =
      let pair : ◌≡◌ {A = ToolSpec W × Dict Argument} (found, ready) (spec, kwargs) = cc in
      (ap (λ p. p.0) pair, ap (λ p. passed p.1) pair)

  refused_never :
      (r : Refusal) (p : ToolSpec W × Dict Argument)
      → ◌≡◌ {A = Checked (ToolSpec W × Dict Argument)} (refused r) (passed p)
      → ⊥
  refused_never r p h = cc

  known_admitted :
      (found : ToolSpec W) (call : ToolCall) (ctx : Option ToolContext) (spec : ToolSpec W)
      (kwargs : Dict Argument)
      → prepare_known texts tools shared found call ctx ≡ passed (spec, kwargs)
      → (found ≡ spec) × IsAdmissible ctx found kwargs
  unfolding prepare_known
  known_admitted found call ctx spec kwargs h =
      let sanitized = keywords (strip_private call.args) in
      let (ready, routed) = routed_arguments texts tools shared found ctx call.args in
      let (running, granted, rest) =
        three_checks (is_cancelled ctx) _ (refuse_unavailable texts found ctx) _ h in
      let (same, checked) =
        passed_parts (check_arguments texts found ready routed) found spec kwargs rest in
      let (is_ready, complete, declared) = arguments_checked texts found ready routed checked in
      (
        same,
        record {
          running = running;
          authorised = granted-IsAuthorised texts found ctx granted;
          complete =
              subst (λ ks. All (Has ks) found.schema.required) is_ready
                (route_raw_complete found.schema.required _ sanitized
                  (keywords-Covered shared texts tools found ctx sanitized) complete);
          declared = λ k has.
              elim (route_raw-Known found.accepts_ctx found.schema.required _ sanitized
                (keywords-Known shared texts tools found ctx sanitized) complete k
                (subst (λ ks. Has ks k) (sym is_ready) has)) [
                  | inl there ↦ inl (All-keys (Has found.schema.properties) routed k declared there)
                  | inr ctx_only ↦ inr ctx_only
                ];
        },
      )

  -- A call that passes the checks of `_prepare_dispatch` is a call of a registered tool, and its
  -- keyword arguments are admissible for that tool.
  pub prepare_dispatch-IsAdmissible :
      (call : ToolCall) (ctx : Option ToolContext) (spec : ToolSpec W) (kwargs : Dict Argument)
      → prepare_dispatch texts tools shared call ctx ≡ passed (spec, kwargs)
      → (lookup call.tool tools ≡ some spec) × IsAdmissible ctx spec kwargs
  unfolding prepare_dispatch
  prepare_dispatch-IsAdmissible call ctx spec kwargs h =
      elim (Option-cases (lookup call.tool tools)) [
        | inl e ↦
            elim (refused_never
              (unknown_tool call.tool (suggest_similar texts call.tool (keys tools))) (spec, kwargs)
              (rw e at h)) [ ]
        | inr (found, e) ↦
            let (same, admissible) = known_admitted found call ctx spec kwargs (rw e at h) in
            (e ∙ ap some same, subst (λ s. IsAdmissible ctx s kwargs) same admissible)
      ]

  -- `dispatch` without running the tool's code: an error, and nothing else has happened
  abbrev pub IsRefused : Host W → ToolCall → Option ToolContext → W → Type 0
  IsRefused host_of call ctx w =
      (r : Refusal) × (dispatch texts tools shared host_of call ctx w ≡ (
        answered (refusal_result texts tools shared (prepare_call texts tools shared call) r),
        w,
      ))

  -- `dispatch` runs the code of the registered tool once, on admissible keyword arguments
  abbrev pub IsExecuted : Host W → ToolCall → Option ToolContext → W → Type 0
  IsExecuted host_of call ctx w =
      (spec : ToolSpec W) × (kwargs : Dict Argument) × (lookup call.tool tools ≡ some spec)
      × IsAdmissible ctx spec kwargs
      × (dispatch texts tools shared host_of call ctx w
          ≡ after_execute texts tools shared host_of (prepare_call texts tools shared call) spec ctx
              (host_of.now w) (spec.execute kwargs w))

  prepare_call-tool : (call : ToolCall) → (prepare_call texts tools shared call).tool ≡ call.tool
  unfolding prepare_call
  prepare_call-tool call = elim (Option-cases (lookup call.tool tools)) [
    | inl e ↦ rw (prepare_call, e)
    | inr (spec, e) ↦ elim (Option-cases spec.prepare_args) [
      | inl n ↦ rw (prepare_call, e, n)
      | inr (f, n) ↦ elim (Bool-cases (is_prepared call)) [
        | inl p ↦ rw (prepare_call, e, n, p)
        | inr p ↦ rw (prepare_call, e, n, p)
      ]
    ]
  ]

  -- A dispatch either refuses the call, with an error result and the world as it was, or runs the
  -- code of the registered tool on admissible keyword arguments: the run is not cancelled, its policy
  -- grants every capability of the tool, every required parameter is given, and every keyword is a
  -- parameter of the tool, but for the context of a tool that takes one.
  pub dispatch-IsExecuted :
      (host_of : Host W) (call : ToolCall) (ctx : Option ToolContext) (w : W)
      → IsRefused host_of call ctx w ⊎ IsExecuted host_of call ctx w
  unfolding dispatch
  dispatch-IsExecuted host_of call ctx w =
      let prepared = prepare_call texts tools shared call in
      elim (Checked-cases (prepare_dispatch texts tools shared prepared ctx)) [
        | inl (r, e) ↦ inl (r, rw (dispatch, e))
        | inr (spec, kwargs, e) ↦
            let (found, admissible) = prepare_dispatch-IsAdmissible prepared ctx spec kwargs e in
            inr (spec, kwargs, rw (prepare_call-tool call) at found, admissible, rw (dispatch, e))
      ]
