-- ===== src/Checkpoint/Participants.antt =====
-- `CheckpointParticipants` of src/looplet/checkpoint.py: the state of the host's components, saved and
-- restored together. Callbacks are the host's, and synchronous; an error is `none` or `false`. A capture
-- and a validation have no effect, as the source asks of them. The copy of a value by way of JSON and
-- the comparison with it are parameters.
use looplet.Prelude.{
  Bool, List, Option, String, [], false, if◌then◌else◌, is_some, map, none, not, some, str_eq,
  str_mem, true, ◌&&◌, ◌∷◌,
}
use looplet.Value.{Fields, Value, dict, end, field, get, text, dict, text, field, end}
use looplet.Registry.Arguments.{set_field}

pub record Participant (W : Type 0) : Type 0 where
  pub name : String
  pub version : String
  pub capture : W → Option Value
  pub validate : W → Fields → Bool
  pub restore : W → Fields → Bool × W

pub record Participants (W : Type 0) : Type 0 where
  pub participants : List (Participant W)
  pub identity : String
  pub failed_restore : Bool

-- `json.loads(json.dumps(value))`, `detached != value`, and `not text.strip()`
pub record Json : Type 0 where
  pub detach : Fields → Option Fields
  pub equal : Fields → Fields → Bool
  pub is_blank : String → Bool

unfoldable pub schema_name : String
schema_name = "looplet.checkpoint-participants.v1"

abbrev pub keys_of : Fields → List String
keys_of end = []
keys_of (field k v fs) = k ∷ keys_of fs

abbrev pub all_among : List String → List String → Bool
all_among [] names = true
all_among (k ∷ ks) names = str_mem k names && all_among ks names

-- the equality of the set of keys with a set of names
abbrev pub has_exactly : List String → Fields → Bool
has_exactly names fields = all_among (keys_of fields) names && all_among names (keys_of fields)

abbrev pub is_text : String → Option Value → Bool
is_text s (some (text t)) = str_eq t s
is_text s _ = false

abbrev pub dict_in : Option Value → Option Fields
dict_in (some (dict fields)) = some fields
dict_in _ = none

-- an entry of the manifest: its state, if it is one of this version
abbrev pub entry_state : String → Option Fields → Option Fields
entry_state version none = none
entry_state version (some entry) =
    if has_exactly ("version" ∷ "state" ∷ []) entry && is_text version (get "version" entry)
    then dict_in (get "state" entry)
    else none

abbrev pub state_of : {W : Type 0} → Participant W → Fields → Option Fields
state_of p saved = entry_state p.version (dict_in (get p.name saved))

module _ {W : Type 0} where
  abbrev pub names_of : List (Participant W) → List String
  names_of ps = map (λ p. p.name) ps

  -- `__init__`: `none` is the `ValueError`
  unfoldable pub well_named : Json → List String → List (Participant W) → Bool
  well_named j seen [] = true
  well_named j seen (p ∷ ps) =
      not (j.is_blank p.name)
      && (not (j.is_blank p.version)
          && (not (str_mem p.name seen) && well_named j (p.name ∷ seen) ps))

  unfoldable pub checkpoint_participants :
      Json → List (Participant W) → String → Option (Participants W)
  unfolding well_named
  checkpoint_participants j ps identity =
      if not (j.is_blank identity) && well_named j [] ps
      then some (record { participants = ps; identity = identity; failed_restore = false })
      else none

module _ (j : Json) where
  -- `_snapshot`
  abbrev pub detached : Fields → Option Fields → Option Fields
  detached fields none = none
  detached fields (some d) = if j.equal d fields then some d else none

  abbrev pub snapshot_of : Option Fields → Option Fields
  snapshot_of none = none
  snapshot_of (some fields) = detached fields (j.detach fields)

abbrev pub entry_of : String → Fields → Value
entry_of version state = dict (field "version" (text version) (field "state" (dict state) end))

abbrev pub manifest : String → Option Fields → Option Fields
manifest identity none = none
manifest identity (some states) = some (
    field "schema" (text schema_name)
      (field "identity" (text identity) (field "participants" (dict states) end)))

module _ {W : Type 0} (j : Json) where
  -- `capture`
  abbrev pub passes : Participant W → W → Option Fields → Bool
  passes p w none = false
  passes p w (some state) = p.validate w state

  abbrev pub captured : Participant W → W → Option Fields → Option Fields
  captured p w none = none
  captured p w (some state) = if passes p w (snapshot_of j (some state)) then some state else none

  abbrev pub capture_one : Participant W → W → Option Fields
  capture_one p w = captured p w (snapshot_of j (dict_in (p.capture w)))

  abbrev pub add_entry :
      (Fields → Option Fields) → Participant W → Option Fields → Fields → Option Fields
  add_entry next p none states = none
  add_entry next p (some state) states = next (set_field p.name (entry_of p.version state) states)

  unfoldable pub capture_all : List (Participant W) → W → Fields → Option Fields
  capture_all [] w states = some states
  capture_all (p ∷ ps) w states = add_entry (capture_all ps w) p (capture_one p w) states

  unfoldable pub capture : Participants W → W → Option Fields
  unfolding capture_all
  capture h w =
      if h.failed_restore then none else manifest h.identity (capture_all h.participants w end)

  -- the three passes of `_prepare`
  abbrev pub entries_of : Participants W → Option Fields → Option Fields
  entries_of h none = none
  entries_of h (some saved) =
      if has_exactly ("schema" ∷ "identity" ∷ "participants" ∷ []) saved
        && (is_text schema_name (get "schema" saved) && is_text h.identity (get "identity" saved))
      then dict_in (get "participants" saved)
      else none

  unfoldable pub all_versions : List (Participant W) → Fields → Bool
  all_versions [] entries = true
  all_versions (p ∷ ps) entries = is_some (state_of p entries) && all_versions ps entries

  unfoldable pub all_pass : List (Participant W) → W → Fields → Bool
  all_pass [] w entries = true
  all_pass (p ∷ ps) w entries =
      passes p w (snapshot_of j (state_of p entries)) && all_pass ps w entries

  abbrev pub checked : Participants W → W → Option Fields → Option Fields
  checked h w none = none
  checked h w (some entries) =
      if has_exactly (names_of h.participants) entries
        && (all_versions h.participants entries && all_pass h.participants w entries)
      then some entries
      else none

  -- `_prepare`: the entries of the manifest
  unfoldable pub prepare : Participants W → W → Fields → Option Fields
  unfolding all_versions all_pass
  prepare h w state =
      if h.failed_restore then none else checked h w (entries_of h (snapshot_of j (some state)))

  unfoldable pub validate : Participants W → W → Fields → Bool
  unfolding prepare
  validate h w state = is_some (prepare h w state)

  -- the restorations, up to the first that fails
  abbrev pub restore_one : Participant W → W → Option Fields → Bool × W
  restore_one p w none = (false, w)
  restore_one p w (some state) = p.restore w state

  abbrev pub go_on : (W → Bool × W) → Bool × W → Bool × W
  go_on next (false, w) = (false, w)
  go_on next (true, w) = next w

  unfoldable pub restore_all : List (Participant W) → Fields → W → Bool × W
  restore_all [] entries w = (true, w)
  restore_all (p ∷ ps) entries w =
      go_on (restore_all ps entries) (restore_one p w (snapshot_of j (state_of p entries)))

-- how a restoration ends: the manifest was refused, a component failed, or all are restored
pub data Restoration : Type 0 where
  refused failed restored : Restoration

module _ {W : Type 0} (j : Json) where
  abbrev pub after_restore : Participants W → Bool × W → Restoration × Participants W × W
  after_restore h (false, w) = (failed, record h { failed_restore = true }, w)
  after_restore h (true, w) = (restored, h, w)

  abbrev pub restore_prepared :
      Participants W → W → Option Fields → Restoration × Participants W × W
  restore_prepared h w none = (refused, h, w)
  restore_prepared h w (some entries) = after_restore h (restore_all j h.participants entries w)

  unfoldable pub restore : Participants W → W → Fields → Restoration × Participants W × W
  unfolding prepare restore_all
  restore h w state = restore_prepared h w (prepare j h w state)
