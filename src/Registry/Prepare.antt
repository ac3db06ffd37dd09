-- ===== src/Registry/Prepare.antt =====
-- The checks of a call before it runs: `prepare_call` and `_prepare_dispatch` of
-- src/looplet/tools.py, in the order of the code.
use looplet.Prelude.{
  Bool, List, Option, String, [], false, if◌then◌else◌, inl, inr, is_some, keep_if, none, not,
  or_else, refl, some, str_eq, true, ◌∷◌, ◌≡◌, ◌⊎◌,
}
use looplet.Prelude.Dict.{Dict, insert, keys, lookup}
use looplet.Value.{Fields, get, text}
use looplet.Types.{ToolCall}
use looplet.Registry.{
  Argument, ExecutionPolicy, Refusal, Resource, Texts, ToolContext, ToolSpec, allows,
  cancelled_before, context, empty_value, missing, missing_arguments, new_context, suggest_similar,
  this_registry, unavailable, unexpected, unknown_tool,
}
use looplet.Registry.Arguments.{first_empty, keywords, route_raw, set_field, strip_private}

pub data Checked {ℓ} (A : Type ℓ) : Type ℓ where
  refused : Refusal → Checked A
  passed : A → Checked A

infixl 5 ◌>>=◌ ◌>>◌
abbrev pub ◌>>=◌ {ℓ κ} : {A : Type ℓ} {B : Type κ} → Checked A → (A → Checked B) → Checked B
refused r >>= f = refused r
passed a >>= f = f a

abbrev pub ◌>>◌ {ℓ} : {B : Type ℓ} → Checked (Unit {0}) → Checked B → Checked B
m >> k = m >>= λ _. k

abbrev pub refuse_if : Bool → Refusal → Checked (Unit {0})
refuse_if true r = refused r
refuse_if false r = passed tt

abbrev pub or_refuse {ℓ} : {A : Type ℓ} → Option A → Refusal → Checked A
or_refuse none r = refused r
or_refuse (some a) r = passed a

pub Checked-cases {ℓ κ} :
    {A : Type ℓ} {B : Type κ} (m : Checked (A × B))
    → ((r : Refusal) × (m ≡ refused r)) ⊎ ((a : A) × (b : B) × (m ≡ passed (a, b)))
Checked-cases (refused r) = inl (r, refl)
Checked-cases (passed (a, b)) = inr (a, b, refl)

-- the mark of a call that its tool has prepared
abbrev pub is_prepared : ToolCall → Bool
is_prepared call = elim (get "_looplet_prepared_args" call.metadata) [
  | none ↦ false
  | some (text tool) ↦ str_eq tool call.tool
  | some _ ↦ false
]

-- `ctx.resources[name] = ..` for each name that the tool requires
unfoldable pub provision : Dict Resource → List String → Dict Resource → Dict Resource
provision shared [] resources = resources
provision shared (name ∷ requires) resources =
    provision shared requires (elim (lookup name shared) [
      | some resource ↦ insert name resource resources
      | none ↦
          if str_eq name "tool_result_store" then insert name this_registry resources else resources
    ])

-- the context that the tool gets; one that requires resources gets a context in any case
unfoldable pub live_context : Dict Resource → List String → Option ToolContext → Option ToolContext
live_context shared [] ctx = ctx
live_context shared (name ∷ requires) ctx =
    let live = or_else ctx new_context in
    some (record live { resources = provision shared (name ∷ requires) live.resources })

abbrev pub is_cancelled : Option ToolContext → Bool
is_cancelled none = false
is_cancelled (some ctx) = or_else ctx.cancelled false

abbrev pub execution_policy_of : Option ToolContext → Option ExecutionPolicy
execution_policy_of none = none
execution_policy_of (some ctx) = ctx.execution_policy

module _ {W : Type 0} (texts : Texts) where
  abbrev pub unknown_arguments : ToolSpec W → Dict Argument → List String
  unknown_arguments spec sanitized =
      keep_if (λ arg. not (is_some (lookup arg spec.schema.properties))) (keys sanitized)

  abbrev pub missing_required : ToolSpec W → Dict Argument → List String
  missing_required spec sanitized =
      keep_if (λ param. not (is_some (lookup param sanitized))) spec.schema.required

  abbrev pub refuse_empty : ToolSpec W → Option String → Checked (Unit {0})
  refuse_empty spec none = passed tt
  refuse_empty spec (some param) = refused (empty_value spec.name param spec.parameters)

  abbrev pub refuse_unexpected : ToolSpec W → List String → Checked (Unit {0})
  refuse_unexpected spec [] = passed tt
  refuse_unexpected spec (first ∷ more) = refused (
      unexpected spec.name (first ∷ more)
        (suggest_similar texts first (keys spec.schema.properties)) spec.parameters)

  abbrev pub refuse_missing : ToolSpec W → List String → Dict Argument → Checked (Unit {0})
  refuse_missing spec [] sanitized = passed tt
  refuse_missing spec (first ∷ more) sanitized =
      refused
        (missing_arguments spec.name (first ∷ more) (texts.sorted (keys sanitized)) spec.parameters)

  -- the checks of the arguments; what passes is the keyword arguments
  unfoldable pub check_arguments :
      ToolSpec W → Dict Argument → Dict Argument → Checked (Dict Argument)
  check_arguments spec kwargs sanitized = do
    refuse_empty spec (
        first_empty texts spec.is_json_schema spec.schema.properties sanitized spec.schema.required)
    refuse_unexpected spec (unknown_arguments spec sanitized)
    refuse_missing spec (missing_required spec sanitized) sanitized
    passed kwargs

  -- the capabilities that the call lacks, if it lacks any
  abbrev pub refuse_undeclared : ToolSpec W → List String → Checked (Unit {0})
  refuse_undeclared spec [] = passed tt
  refuse_undeclared spec (c ∷ cs) = refused (unavailable spec.name (c ∷ cs))

  abbrev pub refuse_by_policy : ToolSpec W → Option ExecutionPolicy → Checked (Unit {0})
  refuse_by_policy spec none = refuse_undeclared spec spec.capabilities
  refuse_by_policy spec (some policy) =
      if allows policy spec.capabilities
      then passed tt
      else refused (unavailable spec.name (texts.sorted (missing policy spec.capabilities)))

  unfoldable pub refuse_unavailable : ToolSpec W → Option ToolContext → Checked (Unit {0})
  refuse_unavailable spec ctx = refuse_by_policy spec (execution_policy_of ctx)

module _ {W : Type 0} (texts : Texts) (tools : Dict (ToolSpec W)) (shared : Dict Resource) where
  -- `prepare_call`
  unfoldable pub prepare_call : ToolCall → ToolCall
  prepare_call call = elim (lookup call.tool tools) [
    | none ↦ call
    | some spec ↦ (elim spec.prepare_args [
      | none ↦ call
      | some prepare_args ↦ if is_prepared call then call else record call {
        args = prepare_args call.args;
        metadata = set_field "_looplet_prepared_args" (text call.tool) call.metadata;
      }
    ])
  ]

  -- the keyword arguments, with the context of a tool that takes one
  unfoldable pub with_context : ToolSpec W → Option ToolContext → Dict Argument → Dict Argument
  with_context spec ctx kwargs =
      if spec.accepts_ctx
      then insert "ctx" (context (live_context shared spec.requires ctx)) kwargs
      else kwargs

  -- the keyword arguments and the sanitized ones, with the raw argument routed
  abbrev pub routed_arguments :
      ToolSpec W → Option ToolContext → Fields → Dict Argument × Dict Argument
  routed_arguments spec ctx args =
      let sanitized = keywords (strip_private args) in
      route_raw spec.schema.required (with_context spec ctx sanitized) sanitized

  -- the checks for a tool that is registered
  unfoldable pub prepare_known :
      ToolSpec W → ToolCall → Option ToolContext → Checked (ToolSpec W × Dict Argument)
  prepare_known spec call ctx = do
    refuse_if (is_cancelled ctx) cancelled_before
    refuse_unavailable texts spec ctx
    let (kwargs, sanitized) = routed_arguments spec ctx call.args
    ready ← check_arguments texts spec kwargs sanitized
    passed (spec, ready)

  -- `_prepare_dispatch`: the tool and its keyword arguments. That the resources also stay in the
  -- caller's context, for a call that is refused afterwards, too, is not modelled.
  unfoldable pub prepare_dispatch :
      ToolCall → Option ToolContext → Checked (ToolSpec W × Dict Argument)
  prepare_dispatch call ctx = do
    spec ←
        or_refuse (lookup call.tool tools)
          (unknown_tool call.tool (suggest_similar texts call.tool (keys tools)))
    prepare_known spec call ctx
