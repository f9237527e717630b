-- ===== src/Intent.antt =====
-- The intent of a supervisor: the document that says which cluster it belongs to
-- (intent/model.mjs). The files beside this one model its rendering, its reconciliation and its
-- state on disk.
pub mod Render
pub mod Reconcile
pub mod State
pub mod Valid
use elera.Prelude.{
  ℕ, zero, suc, ◌+◌, ◌-◌, ◌*◌, ◌/◌, ◌%◌, ◌^◌, ◌≤◌, ◌<◌, min, max, String, ◌≡◌, refl, sym, ap, ap₂,
  subst, ◌∙◌, ◌≢◌, ◌↔◌, ◌⊎◌, inl, inr, Bool, true, false, not, ◌&&◌, ◌||◌, Option, none, some, List,
  [], ◌∷◌, ◌++◌, map, Memᴰ, arith, eq_iff, ltb, leb, nat_eqb, Eq, ◌==◌, nat_eq, string_eq,
  if◌then◌else◌, ltb→lt, lt→ltb, leb→le, Bool-cases, Option-cases, &&-left, &&-right, is_some,
  length, filter, any, all, find, count, head?, get_last?, length-append, length-filter,
  count-le-length, mem-filter, mem-filter_of, any_of_mem, mem_of_any, all_mem, any-false_mem,
  find-some, find-none, count-add-le, mem_of_count, count_le_of, count_pos, includes, dedupe,
  dedupe_onto, nat_eqb_iff,
}
use elera.Prelude.Int.{ℤ, pos, negsuc, eqb_ℤ}
use elera.Prelude.Result.{Result, ok, err}
use elera.Fqdn.{fqdn}

-- A member of the document; a field that is missing or no text is `none`.
pub record Member : Type 0 where
  pub name : Option String
  pub address : Option String
  pub port : Option ℕ

-- The fields of an intent that the program reads. A number is `none` where it is missing or no
-- integer, the members where there is no array; no document at all is the one that misses
-- everything.
pub record Intent : Type 0 where
  pub api_version : Option String
  pub kind : Option String
  pub cluster_name : Option String
  pub members : Option (List Member)
  pub mariadb_port : Option ℤ
  pub data_dir : Option String
  pub health_interval : Option ℤ
  pub query_timeout : Option ℤ

pub data Fault : Type 0 where
  bad_version bad_kind no_members : Fault
  bad_name bad_address name_differs : ℕ → Fault
  names_repeat addresses_repeat bad_port bad_interval bad_timeout : Fault

pub data IntentError : Type 0 where
  invalid_intent : List Fault → IntentError
  invalid_json no_identity unsafe_change no_apply : IntentError
  unreadable : IntentError
  not_written : IntentError
  callback_failed : IntentError

abbrev pub is_text : Option String → String → Bool
is_text none t = false
is_text (some s) t = s == t

-- `Boolean(value)` of a text that may be missing.
abbrev pub is_truthy : Option String → Bool
is_truthy none = false
is_truthy (some s) = not (s == "")

-- `isFqdn(value)`
abbrev pub is_fqdn : Option String → Bool
is_fqdn none = false
is_fqdn (some s) = fqdn s

-- `a === b`
abbrev pub same_text : Option String → Option String → Bool
same_text none none = true
same_text (some a) (some b) = a == b
same_text _ _ = false

-- `xs ?? []`
abbrev pub or_empty : Option (List Member) → List Member
or_empty none = []
or_empty (some ms) = ms

-- `xs.map(...).filter(Boolean)`
unfoldable pub texts : List (Option String) → List String
texts [] = []
texts (none ∷ ts) = texts ts
texts (some t ∷ ts) = if t == "" then texts ts else t ∷ texts ts

-- `new Set(xs).size !== xs.length`
unfoldable pub repeats : List String → Bool
repeats xs = not (nat_eqb (length (dedupe xs)) (length xs))

abbrev pub at_least : ℕ → Option ℤ → Bool
at_least low none = false
at_least low (some (negsuc n)) = false
at_least low (some (pos n)) = leb low n

abbrev pub at_most : ℕ → Option ℤ → Bool
at_most high none = false
at_most high (some (negsuc n)) = true
at_most high (some (pos n)) = leb n high

-- `if (!good) errors.push(fault)`
unfoldable pub fault_unless : Bool → Fault → List Fault
fault_unless true e = []
fault_unless false e = e ∷ []

abbrev pub is_empty : {A : Type 0} → List A → Bool
is_empty [] = true
is_empty (x ∷ xs) = false

-- The loop over the members, from an index on.
unfoldable pub member_faults : ℕ → List Member → List Fault
unfolding fault_unless
member_faults i [] = []
member_faults i (m ∷ ms) =
    fault_unless (is_fqdn m.name) (bad_name i)
    ++ (fault_unless (is_fqdn m.address) (bad_address i)
        ++ (fault_unless (same_text m.name m.address) (name_differs i) ++ member_faults (suc i) ms))

-- `errors`, in the order in which they are pushed.
unfoldable pub faults : Intent → List Fault
unfolding fault_unless member_faults repeats texts
faults d =
    let ms = or_empty d.members in
    fault_unless (is_text d.api_version "elera.eliware.dev/v1alpha1") bad_version
    ++ (fault_unless (is_text d.kind "SupervisorIntent") bad_kind
        ++ (fault_unless (is_truthy d.cluster_name && not (is_empty ms)) no_members
            ++ (member_faults 0 ms
                ++ (fault_unless (not (repeats (texts (map (λ m. m.name) ms)))) names_repeat
                    ++ (fault_unless (not (repeats (texts (map (λ m. m.address) ms))))
                          addresses_repeat
                        ++ (fault_unless (at_least 1 d.mariadb_port && at_most 65535 d.mariadb_port)
                              bad_port
                            ++ (fault_unless (at_least 100 d.health_interval) bad_interval
                                ++ fault_unless (at_least 1 d.query_timeout) bad_timeout)))))))

abbrev pub unless_faults : Intent → List Fault → Result IntentError Intent
unless_faults d [] = ok d
unless_faults d (e ∷ es) = err (invalid_intent (e ∷ es))

-- `validateIntent`
unfoldable pub validate_intent : Intent → Result IntentError Intent
unfolding faults
validate_intent d = unless_faults d (faults d)

pub data Change : Type 0 where
  no_op unsafe restart reload : Change

pub record Plan : Type 0 where
  pub change : Change
  pub changed : Bool
  pub desired_hash : String
  pub active_hash : Option String

abbrev pub same_port : Option ℕ → Option ℕ → Bool
same_port none none = true
same_port (some a) (some b) = nat_eqb a b
same_port _ _ = false

-- Equality of the JSON texts of two lists of members.
unfoldable pub same_members : List Member → List Member → Bool
same_members [] [] = true
same_members [] (b ∷ ns) = false
same_members (a ∷ ms) [] = false
same_members (a ∷ ms) (b ∷ ns) =
    same_text a.name b.name
    && same_text a.address b.address
    && same_port a.port b.port
    && same_members ms ns

abbrev pub same_integer : Option ℤ → Option ℤ → Bool
same_integer none none = true
same_integer (some a) (some b) = eqb_ℤ a b
same_integer _ _ = false

-- `hash` is SHA-256 of the JSON text, `intentHash`.
module _ (hash : Intent → String) where
  abbrev pub same_cluster : Intent → Intent → Bool
  same_cluster d a =
      same_text d.cluster_name a.cluster_name
      && same_members (or_empty d.members) (or_empty a.members)

  -- What a valid intent changes; the first test compares the hashes.
  abbrev pub change_of : Intent → Option Intent → Change
  change_of d none = restart
  change_of d (some a) =
      if hash d == hash a
      then no_op
      else if not (same_cluster d a)
      then unsafe
      else if not (same_integer d.mariadb_port a.mariadb_port)
      then restart
      else reload

  abbrev pub hash_of : Option Intent → Option String
  hash_of none = none
  hash_of (some a) = some (hash a)

  abbrev pub is_change : Change → Bool
  is_change no_op = false
  is_change _ = true

  abbrev pub plan_valid : Option Intent → Intent → Plan
  plan_valid active d = record {
    change = change_of d active;
    changed = is_change (change_of d active);
    desired_hash = hash d;
    active_hash = hash_of active;
  }

  abbrev pub planned : Option Intent → Result IntentError Intent → Result IntentError Plan
  planned active (err e) = err e
  planned active (ok d) = ok (plan_valid active d)

  -- `planIntent`
  unfoldable pub plan_intent : Intent → Option Intent → Result IntentError Plan
  unfolding validate_intent same_members
  plan_intent desired active = planned active (validate_intent desired)

-- `defaultIntent` for a node of this name: the directory of MARIADB_DATA_DIR, the number of
-- ELERA_QUERY_TIMEOUT_MS, where they are set.
unfoldable pub default_intent : (data_dir : Option String) (timeout : Option ℤ) → String → Intent
default_intent dir timeout name = record {
  api_version = some "elera.eliware.dev/v1alpha1";
  kind = some "SupervisorIntent";
  cluster_name = some "local-elera";
  members = some (record { name = some name; address = some name; port = some 3306 } ∷ []);
  mariadb_port = some (pos 3306);
  data_dir = some (dir_or dir);
  health_interval = some (pos 1000);
  query_timeout = timeout;
}
  where
    dir_or : Option String → String
    dir_or none = "/var/lib/mysql"
    dir_or (some d) = d

-- SUPERVISOR_INTENT_JSON
pub data Supplied : Type 0 where
  unset unparsable : Supplied
  parsed : Intent → Supplied

-- `loadIntent`; `identity` is the name of the node, where it has one.
unfoldable pub load_intent :
    Supplied
    → (data_dir : Option String) (timeout : Option ℤ) (identity : Option String)
    → Result IntentError Intent
unfolding validate_intent default_intent
load_intent unset dir timeout none = err no_identity
load_intent unset dir timeout (some name) = validate_intent (default_intent dir timeout name)
load_intent unparsable dir timeout identity = err invalid_json
load_intent (parsed d) dir timeout identity = validate_intent d
