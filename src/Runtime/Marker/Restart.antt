-- ===== src/Runtime/Marker/Restart.antt =====
-- The clean restarts that a marker permits (runtime/clean-restart-recovery.mjs over
-- runtime/clean-restart-marker.mjs).
pub mod Spent
use elera.Prelude.{
  ℕ, zero, suc, ◌+◌, ◌-◌, ◌*◌, ◌/◌, ◌%◌, ◌^◌, ◌≤◌, ◌<◌, min, max, String, ◌≡◌, refl, sym, ap, ap₂,
  subst, ◌∙◌, ◌≢◌, ◌↔◌, ◌⊎◌, inl, inr, Bool, true, false, not, ◌&&◌, ◌||◌, Option, none, some, List,
  [], ◌∷◌, ◌++◌, map, Memᴰ, arith, eq_iff, ltb, leb, nat_eqb, Eq, ◌==◌, nat_eq, string_eq,
  if◌then◌else◌, ltb→lt, lt→ltb, leb→le, Bool-cases, Option-cases, &&-left, &&-right, is_some,
  length, filter, any, all, find, count, head?, get_last?, length-append, length-filter,
  count-le-length, mem-filter, mem-filter_of, any_of_mem, mem_of_any, all_mem, any-false_mem,
  find-some, find-none, count-add-le, mem_of_count, count_le_of, count_pos, includes, dedupe,
  dedupe_onto, nat_eqb_iff,
}
use elera.Intent.State.{lands}
use elera.Runtime.Marker.{Handle, Marker, MarkerFile, Works, read, consume, write, expected_of}

-- `resolveCleanRestart` from the marker that was read: without a Primary peer the file is left alone;
-- with one the marker is consumed by its nonce, and the node joins whatever that returns.
unfoldable pub resolve_read :
    Handle → (later : ℕ) → (peer unlinks : Bool) → MarkerFile → Option Marker → MarkerFile × Bool
resolve_read d later peer u f none = (f, false)
resolve_read d later peer u f (some m) =
    if peer
    then ((consume d (record (expected_of d) { nonce = m.nonce }) later u f).0, true)
    else (f, false)

-- `resolveCleanRestart`, which reads at `now`, and consumes at `later` when it has found a peer.
unfoldable pub resolve :
    Handle → (now later : ℕ) → (peer unlinks : Bool) → MarkerFile → MarkerFile × Bool
unfolding resolve_read
resolve d now later peer u f = resolve_read d later peer u f (read d (expected_of d) now f)

-- What happens to the marker of a node: it stops, and writes it; or it starts. Each after a time;
-- a start finds a peer or none after a second time.
pub data Act : Type 0 where
  stops : Handle → (after : ℕ) → Works → Act
  starts : (after search : ℕ) (peer unlinks : Bool) → Act

-- How many starts join as clean restarts.
unfoldable pub joins : Handle → List Act → ℕ → MarkerFile → ℕ
unfolding resolve write
joins d [] now f = 0
joins d (stops c dt w ∷ acts) now f = joins d acts (now + dt) (write c (now + dt) w f).0
joins d (starts dt search peer u ∷ acts) now f =
    (if (resolve d (now + dt) (now + dt + search) peer u f).1 then 1 else 0)
    + joins d acts (now + dt + search) (resolve d (now + dt) (now + dt + search) peer u f).0

-- A stop that has written the marker.
abbrev pub is_written : Act → Bool
is_written (stops c dt w) = w.directory && lands w.file
is_written _ = false

abbrev pub unlinks_well : Act → Bool
unlinks_well (starts dt search peer u) = u
unlinks_well _ = true
