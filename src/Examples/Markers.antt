-- ===== src/Examples/Markers.antt =====
-- The marker of a clean restart on concrete data.
use elera.Prelude.{
  ◌+◌, ◌≤◌, ◌≡◌, refl, ◌↔◌, true, false, some, List, [], ◌∷◌, nat_eq, string_eq, count,
}
use elera.Intent.State.{Attempt}
use elera.Runtime.Marker.{Handle, MarkerFile, absent, Works, write, read, payload, expected_of}
use elera.Runtime.Marker.Uses.{read-write}
use elera.Runtime.Marker.Restart.{starts, stops, Act, joins, is_written}
use elera.Runtime.Marker.Restart.Spent.{joins-le-writes}

abbrev handle : Handle
handle = record { node = "a.x"; epoch = some "null"; nonce = "n"; max_age_ms = 120000 }

abbrev works : Works
works = record { directory = true; file = record { written = true; renamed = true } }

abbrev full : Works
full = record works { file = record { written = false; renamed = false } }

abbrev acts : List Act
acts =
    starts 0 0 true true
    ∷ stops handle 1000 works
    ∷ starts 400 2000 true true
    ∷ starts 100 0 true true
    ∷ stops handle 2000 full
    ∷ starts 100 1000 true true
    ∷ []

joins-acts : joins handle acts 0 absent ≡ 1
unfolding joins elera.Intent.State.lands read elera.Runtime.Marker.consume
joins-acts = refl

joins-le-writes_example : joins handle acts 0 absent ≤ count is_written acts
joins-le-writes_example = joins-le-writes handle acts 0 refl

abbrev reader : Handle
reader = record handle { nonce = "m" }

read-write_example :
    (read reader (expected_of reader) 5000 (write handle 1000 works absent).0
      ≡ some (payload handle 1000))
    ↔ ((handle.node ≡ reader.node)
        × (handle.epoch ≡ reader.epoch)
        × ((1000 ≤ 5000) × (5000 ≤ 1000 + reader.max_age_ms)))
unfolding write elera.Intent.State.lands
read-write_example = read-write handle reader 1000 5000 works absent refl
