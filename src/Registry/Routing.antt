-- ===== src/Registry/Routing.antt =====
-- Where a raw argument goes: what routing it leaves of the keyword arguments.
use looplet.Prelude.{
  All, Bool, Bool-cases, List, Option, Option-cases, String, [], eq_iff, eq_refl, inl, inr, is_some,
  none, refl, str_eq, subst, sym, true, ◌∷◌, ◌≡◌, ◌⊎◌,
}
use looplet.Prelude.Dict.{Dict, insert, lookup, lookup-insert, lookup-remove, remove}
use looplet.Registry.{Argument, Resource, Texts, ToolContext, ToolSpec, context}
use looplet.Registry.Arguments.{route_raw}
use looplet.Registry.Prepare.{live_context, with_context}

abbrev pub Has : {V : Type 0} → Dict V → String → Type 0
Has d k = is_some (lookup k d) ≡ true

-- every keyword is a sanitized argument, but for the context
abbrev pub Known : Bool → Dict Argument → Dict Argument → Type 0
Known takes_ctx kwargs sanitized =
    (k : String) → Has kwargs k → Has sanitized k ⊎ ((takes_ctx ≡ true) × (k ≡ "ctx"))

Known-insert :
    (takes_ctx : Bool) (target : String) (raw : Argument) (kwargs sanitized : Dict Argument)
    → Known takes_ctx kwargs sanitized
    → Has (remove "_raw_arg" (insert target raw sanitized)) target
    → Known takes_ctx
        (insert target raw (remove "_raw_arg" kwargs))
        (remove "_raw_arg" (insert target raw sanitized))
Known-insert takes_ctx target raw kwargs sanitized known kept k h =
    elim (Bool-cases (str_eq target k)) [
      | inl e ↦ inl (
          subst (Has (remove "_raw_arg" (insert target raw sanitized))) ((eq_iff target k).0 e)
            kept)
      | inr e ↦ elim (Bool-cases (str_eq "_raw_arg" k)) [
        | inl r ↦
            let gone : is_some {A = Argument} none ≡ true =
              rw
                (
                  lookup-insert target k raw (remove "_raw_arg" kwargs),
                  e,
                  lookup-remove "_raw_arg" k kwargs,
                  r,
                )
                at h in
            cc
        | inr r ↦
            let old : Has kwargs k =
              rw
                (
                  lookup-insert target k raw (remove "_raw_arg" kwargs),
                  e,
                  lookup-remove "_raw_arg" k kwargs,
                  r,
                )
                at h in
            elim (known k old) [
              | inl s ↦ inl (
                  rw
                    (
                      lookup-remove "_raw_arg" k (insert target raw sanitized),
                      r,
                      lookup-insert target k raw sanitized,
                      e,
                    )
                    s)
              | inr c ↦ inr c
            ]
      ]
    ]

Known-remove :
    (takes_ctx : Bool) (kwargs sanitized : Dict Argument)
    → Known takes_ctx kwargs sanitized
    → Known takes_ctx (remove "_raw_arg" kwargs) sanitized
Known-remove takes_ctx kwargs sanitized known k h = elim (Bool-cases (str_eq "_raw_arg" k)) [
  | inl r ↦
      let gone : is_some {A = Argument} none ≡ true =
        rw (lookup-remove "_raw_arg" k kwargs, r) at h in
      cc
  | inr r ↦ known k (rw (lookup-remove "_raw_arg" k kwargs, r) at h)
]

pub route_raw-Known :
    (takes_ctx : Bool) (required : List String) (kwargs sanitized : Dict Argument)
    → Known takes_ctx kwargs sanitized
    → All (Has (route_raw required kwargs sanitized).1) required
    → Known takes_ctx
        (route_raw required kwargs sanitized).0
        (route_raw required kwargs sanitized).1
unfolding route_raw
route_raw-Known takes_ctx [] kwargs sanitized known kept = known
route_raw-Known takes_ctx (target ∷ []) kwargs sanitized known kept =
    elim (Option-cases (lookup "_raw_arg" kwargs)) [
      | inl e ↦ rw (route_raw, e) known
      | inr (raw, e) ↦ elim (Bool-cases (is_some (lookup target (remove "_raw_arg" kwargs)))) [
        | inl t ↦ rw (route_raw, e, t) (Known-remove takes_ctx kwargs sanitized known)
        | inr t ↦
            rw (route_raw, e, t)
              (Known-insert takes_ctx target raw kwargs sanitized known
                (rw (route_raw, e, t) at kept).0)
      ]
    ]
route_raw-Known takes_ctx (target ∷ next ∷ required) kwargs sanitized known kept = known

pub keywords-Known :
    {W : Type 0} (shared : Dict Resource) (texts : Texts) (tools : Dict (ToolSpec W))
    (spec : ToolSpec W) (ctx : Option ToolContext) (sanitized : Dict Argument)
    → Known spec.accepts_ctx (with_context texts tools shared spec ctx sanitized) sanitized
unfolding with_context
keywords-Known shared texts tools spec ctx sanitized k h = elim (Bool-cases spec.accepts_ctx) [
  | inr e ↦ inl (rw (with_context, e) at h)
  | inl e ↦ elim (Bool-cases (str_eq "ctx" k)) [
    | inl c ↦ inr (e, sym ((eq_iff "ctx" k).0 c))
    | inr c ↦ inl (
        rw
          (
            with_context,
            e,
            lookup-insert "ctx" k (context (live_context shared spec.requires ctx)) sanitized,
            c,
          )
          at h)
  ]
]

-- a keyword for every sanitized argument, before the raw argument is routed
abbrev pub Covered : Dict Argument → Dict Argument → Type 0
Covered kwargs sanitized = (k : String) → Has sanitized k → Has kwargs k

pub keywords-Covered :
    {W : Type 0} (shared : Dict Resource) (texts : Texts) (tools : Dict (ToolSpec W))
    (spec : ToolSpec W) (ctx : Option ToolContext) (sanitized : Dict Argument)
    → Covered (with_context texts tools shared spec ctx sanitized) sanitized
unfolding with_context
keywords-Covered shared texts tools spec ctx sanitized k h = elim (Bool-cases spec.accepts_ctx) [
  | inr e ↦ rw (with_context, e) h
  | inl e ↦ elim (Bool-cases (str_eq "ctx" k)) [
    | inl c ↦
        rw
          (
            with_context,
            e,
            lookup-insert "ctx" k (context (live_context shared spec.requires ctx)) sanitized,
            c,
          )
          refl
    | inr c ↦
        rw
          (
            with_context,
            e,
            lookup-insert "ctx" k (context (live_context shared spec.requires ctx)) sanitized,
            c,
          )
          h
  ]
]

All-map {ℓ κ} :
    {A : Type ℓ} (P Q : A → Type κ) → ((x : A) → P x → Q x) → (xs : List A) → All P xs → All Q xs
All-map P Q f [] h = tt
All-map P Q f (x ∷ xs) (h, hs) = (f x h, All-map P Q f xs hs)

pub route_raw_complete :
    (required : List String) (kwargs sanitized : Dict Argument)
    → Covered kwargs sanitized
    → All (Has (route_raw required kwargs sanitized).1) required
    → All (Has (route_raw required kwargs sanitized).0) required
unfolding route_raw
route_raw_complete [] kwargs sanitized covered kept = tt
route_raw_complete (target ∷ []) kwargs sanitized covered kept =
    elim (Option-cases (lookup "_raw_arg" kwargs)) [
      | inl e ↦ rw (route_raw, e) (covered target (rw (route_raw, e) at kept).0, tt)
      | inr (raw, e) ↦ elim (Bool-cases (is_some (lookup target (remove "_raw_arg" kwargs)))) [
        | inl t ↦ rw (route_raw, e, t) (t, tt)
        | inr t ↦
            rw
              (
                route_raw,
                e,
                t,
                lookup-insert target target raw (remove "_raw_arg" kwargs),
                eq_refl target,
              )
              (refl, tt)
      ]
    ]
route_raw_complete (target ∷ next ∷ required) kwargs sanitized covered kept =
    All-map (Has sanitized) (Has kwargs) covered (target ∷ next ∷ required) kept
