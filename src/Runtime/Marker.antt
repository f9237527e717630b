-- ===== src/Runtime/Marker.antt =====
-- The marker of a clean restart (runtime/clean-restart-marker.mjs).
pub mod Uses
pub mod Restart
use elera.Prelude.{
  ℕ, zero, suc, ◌+◌, ◌-◌, ◌*◌, ◌/◌, ◌%◌, ◌^◌, ◌≤◌, ◌<◌, min, max, String, ◌≡◌, refl, sym, ap, ap₂,
  subst, ◌∙◌, ◌≢◌, ◌↔◌, ◌⊎◌, inl, inr, Bool, true, false, not, ◌&&◌, ◌||◌, Option, none, some, List,
  [], ◌∷◌, ◌++◌, map, Memᴰ, arith, eq_iff, ltb, leb, nat_eqb, Eq, ◌==◌, nat_eq, string_eq,
  if◌then◌else◌, ltb→lt, lt→ltb, leb→le, Bool-cases, Option-cases, &&-left, &&-right, is_some,
  length, filter, any, all, find, count, head?, get_last?, length-append, length-filter,
  count-le-length, mem-filter, mem-filter_of, any_of_mem, mem_of_any, all_mem, any-false_mem,
  find-some, find-none, count-add-le, mem_of_count, count_le_of, count_pos, includes, dedupe,
  dedupe_onto, nat_eqb_iff,
}
use elera.Prelude.Result.{Result, ok, err}
use elera.Intent.{is_truthy, same_text}
use elera.Intent.State.{Attempt, lands}

-- What is read out of the file. A field that is missing or has another type is `none`; an epoch is
-- its JSON text.
pub record Marker : Type 0 where
  pub version : Option ℕ
  pub node : Option String
  pub epoch : Option String
  pub nonce : Option String
  pub written_at : Option ℕ

-- The file at `path`; one that does not parse is as good as absent.
pub data MarkerFile : Type 0 where
  absent garbled : MarkerFile
  keeps : Marker → MarkerFile

-- The options of `createCleanRestartMarker`, with what an epoch that is a function returns; `fresh`
-- is the random nonce.
pub record Options : Type 0 where
  pub path : Option String
  pub node : Option String
  pub epoch : Option String
  pub nonce : Option String
  pub fresh : String
  pub max_age_ms : Option ℕ

pub data MarkerError : Type 0 where
  requires_path_node_nonce not_written : MarkerError

pub record Handle : Type 0 where
  pub node : String
  pub epoch : Option String
  pub nonce : String
  pub max_age_ms : ℕ

abbrev text_or : String → Option String → String
text_or s none = s
text_or s (some t) = t

abbrev age_or : Option ℕ → ℕ
age_or none = 120000
age_or (some n) = n

-- `createCleanRestartMarker`
unfoldable pub create_clean_restart_marker : Options → Result MarkerError Handle
create_clean_restart_marker o =
    if is_truthy o.path && is_truthy o.node && not (text_or o.fresh o.nonce == "")
    then ok (record {
      node = text_or "" o.node;
      epoch = o.epoch;
      nonce = text_or o.fresh o.nonce;
      max_age_ms = age_or o.max_age_ms;
    })
    else err requires_path_node_nonce

abbrev pub payload : Handle → ℕ → Marker
payload c now = record {
  version = some 1;
  node = some c.node;
  epoch = c.epoch;
  nonce = some c.nonce;
  written_at = some now;
}

-- What the file system answers to `write`: the directory, and the two steps of the file.
pub record Works : Type 0 where
  pub directory : Bool
  pub file : Attempt

-- `write`
unfoldable pub write : Handle → ℕ → Works → MarkerFile → MarkerFile × Result MarkerError (Unit {0})
write c now w f =
    if w.directory && lands w.file then (keeps (payload c now), ok tt) else (f, err not_written)

-- What a caller of `read` expects.
pub record Expected : Type 0 where
  pub node : String
  pub epoch : Option String
  pub nonce : Option String

abbrev pub expected_of : Handle → Expected
expected_of c = record { node = c.node; epoch = c.epoch; nonce = none }

abbrev pub is_wanted : Option String → Option String → Bool
is_wanted none n = true
is_wanted (some e) n = same_text n (some e)

abbrev pub in_time : ℕ → ℕ → Option ℕ → Bool
in_time now max_age none = false
in_time now max_age (some t) = not (ltb now t) && not (ltb max_age (now - t))

abbrev pub is_one : Option ℕ → Bool
is_one none = false
is_one (some v) = v == 1

unfoldable pub is_valid : Handle → Expected → ℕ → Marker → Bool
is_valid c e now m =
    is_one m.version
    && same_text m.node (some e.node)
    && is_wanted e.nonce m.nonce
    && is_some m.nonce
    && same_text m.epoch e.epoch
    && in_time now c.max_age_ms m.written_at

-- `read`
unfoldable pub read : Handle → Expected → ℕ → MarkerFile → Option Marker
unfolding is_valid
read c e now (keeps m) = if is_valid c e now m then some m else none
read c e now _ = none

abbrev pub erased : Bool → MarkerFile → MarkerFile
erased true f = absent
erased false f = f

abbrev pub taken : Option Marker → Bool → MarkerFile → MarkerFile
taken none u f = f
taken (some m) u f = erased u f

-- `consume`, whose `unlink` may fail unnoticed.
unfoldable pub consume :
    Handle → Expected → ℕ → (unlinks : Bool) → MarkerFile → MarkerFile × Option Marker
unfolding read
consume c e now u f = (taken (read c e now f) u f, read c e now f)
