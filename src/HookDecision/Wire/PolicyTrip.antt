-- ===== src/HookDecision/Wire/PolicyTrip.antt =====
-- What of a policy record survives `PolicyDecision.to_dict` and `PolicyDecision(**..)`.
use looplet.Prelude.{
  All, Bool-cases, List, Option, Option-cases, String, [], ap, eq_iff, false, if◌then◌else◌, inl,
  inr, none, refl, some, str_eq, str_mem, sym, true, ◌∙◌, ◌∷◌, ◌≡◌,
}
use looplet.Value.{Fields, Value, dict, end, field, get, text}
use looplet.Types.{PolicyRecord}
use looplet.HookDecision.Wire.{entry, policy_to_dict}
use looplet.HookDecision.Wire.Values.{got, keys_of, read_string, read_text}
use looplet.HookDecision.Wire.Reading.{all_known, policy_keys, policy_of}

-- a text that `to_dict` keeps
abbrev pub kept_text : Option String → Option String
kept_text none = none
kept_text (some s) = if str_eq s "" then none else some s

abbrev pub sent_policy : PolicyRecord → PolicyRecord
sent_policy p = record p {
  tool = kept_text p.tool;
  policy_id = kept_text p.policy_id;
  policy_version = kept_text p.policy_version;
  subject_id = kept_text p.subject_id;
  target = kept_text p.target;
}

-- a chain of entries, and what is found in it
abbrev entries : List (String × Option String) → Fields → Fields
entries [] fs = fs
entries ((k, o) ∷ es) fs = entry k o (entries es fs)

abbrev pick : String → List (String × Option String) → Fields → Option Value
pick k [] fs = get k fs
pick k ((j, o) ∷ es) fs =
    let rest = pick k es fs in
    if str_eq j k then (elim (kept_text o) [ none ↦ rest | some s ↦ some (text s) ]) else rest

get-entry :
    (k j : String) (o : Option String) (fs : Fields)
    → get k (entry j o fs) ≡ (
        if str_eq j k
        then (elim (kept_text o) [ none ↦ get k fs | some s ↦ some (text s) ])
        else get k fs)
get-entry k j none fs = elim (Bool-cases (str_eq j k)) [ inl e ↦ rw e | inr e ↦ rw e ]
get-entry k j (some s) fs = elim (Bool-cases (str_eq s "")) [
  | inl b ↦ elim (Bool-cases (str_eq j k)) [ inl e ↦ rw (b, e) | inr e ↦ rw (b, e) ]
  | inr b ↦ elim (Bool-cases (str_eq j k)) [ inl e ↦ rw (b, e) | inr e ↦ rw (b, e) ]
]

get-entries :
    (k : String) (es : List (String × Option String)) (fs : Fields)
    → get k (entries es fs) ≡ pick k es fs
get-entries k [] fs = refl
get-entries k ((j, o) ∷ es) fs =
    get-entry k j o (entries es fs)
    ∙ ap
        (λ rest.
          if str_eq j k
          then (elim (kept_text o) [ none ↦ rest | some s ↦ some (text s) ])
          else rest)
        (get-entries k es fs)

all_known-entries :
    (es : List (String × Option String)) (fs : Fields)
    → All (λ (e : String × Option String). str_mem e.0 policy_keys ≡ true) es
    → all_known (keys_of fs) ≡ true
    → all_known (keys_of (entries es fs)) ≡ true
all_known-entries [] fs h n = n
all_known-entries ((k, none) ∷ es) fs h n = all_known-entries es fs h.1 n
all_known-entries ((k, some s) ∷ es) fs h n = elim (Bool-cases (str_eq s "")) [
  | inl e ↦ rw e (all_known-entries es fs h.1 n)
  | inr e ↦ rw (e, h.0) (all_known-entries es fs h.1 n)
]

abbrev policy_entries : PolicyRecord → List (String × Option String)
policy_entries p =
    ("decision", some p.decision)
    ∷ ("tool", p.tool)
    ∷ ("policy_id", p.policy_id)
    ∷ ("policy_version", p.policy_version)
    ∷ ("reason", some p.reason)
    ∷ ("subject_id", p.subject_id)
    ∷ ("target", p.target)
    ∷ []

get_policy :
    (p : PolicyRecord) (k : String)
    → get k (policy_to_dict p) ≡ pick k (policy_entries p) (field "metadata" (dict p.metadata) end)
unfolding policy_to_dict
get_policy p k = get-entries k (policy_entries p) (field "metadata" (dict p.metadata) end)

policy_known : (p : PolicyRecord) → all_known (keys_of (policy_to_dict p)) ≡ true
unfolding policy_to_dict
policy_known p =
    all_known-entries (policy_entries p) (field "metadata" (dict p.metadata) end)
      (refl, (refl, (refl, (refl, (refl, (refl, (refl, tt))))))) refl

read_text-kept :
    (o : Option String)
    → read_text (elim (kept_text o) [ none ↦ none | some s ↦ some (text s) ]) ≡ got (kept_text o)
read_text-kept o = elim (Option-cases (kept_text o)) [ inl e ↦ rw e | inr (s, e) ↦ rw e ]

read_string-kept :
    (s : String)
    → read_string "" (elim (kept_text (some s)) [ none ↦ none | some t ↦ some (text t) ]) ≡ got s
read_string-kept s = elim (Bool-cases (str_eq s "")) [
  | inl e ↦ rw e (ap got (sym ((eq_iff s "").0 e)))
  | inr e ↦ rw e
]

pub policy_round_trip :
    (p : PolicyRecord)
    → str_eq p.decision "" ≡ false
    → policy_of (policy_to_dict p) ≡ got (sent_policy p)
unfolding policy_of
policy_round_trip p n = rw (
  policy_known p,
  get_policy p "decision",
  get_policy p "tool",
  get_policy p "policy_id",
  get_policy p "policy_version",
  get_policy p "reason",
  get_policy p "subject_id",
  get_policy p "target",
  get_policy p "metadata",
  n,
  read_text-kept p.tool,
  read_text-kept p.policy_id,
  read_text-kept p.policy_version,
  read_string-kept p.reason,
  read_text-kept p.subject_id,
  read_text-kept p.target,
)
