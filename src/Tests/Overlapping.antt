-- ===== src/Tests/Overlapping.antt =====
-- Two requests that end at once: one has the mutex of the access log and has written one character,
-- the other waits for it.
use mathlib.Core.List.{reverse}
use decision_gateway.Prelude.{◌≡◌, refl, ◌⊎◌, true, [], ◌∷◌, ◌++◌, map, Permᴰ, drop, Text, text}
use decision_gateway.Prelude.Threads.{here, there, total, SomeMoves}
use decision_gateway.Events.{entry_json, boot_json, stdout}
use decision_gateway.Events.Lines.{lines}
use decision_gateway.Events.Threads.{
  Output, Turns, waiting, writing, encoded, lock, put, Interleaves, start, spawn, step,
}
use decision_gateway.Events.Threads.Interleaving.{
  holds, unwritten, begun, whole, with_logged, Interleaves-whole,
}
use decision_gateway.Events.Threads.Progress.{to_write, Interleaves-SomeMoves}
use decision_gateway.Tests.Logging.{formats, formats-IsFormat, entry}
use decision_gateway.Tests.Serving.{booted}

-- The line that is written, without its first character.
abbrev rest : Text
rest = drop 1 (encoded formats entry)

abbrev output : Output
output = record { locked = true; out = stdout formats booted ++ text "{"; logged = entry ∷ [] }

overlap : Interleaves formats booted output (waiting entry ∷ writing entry rest ∷ [])
unfolding encoded entry_json
overlap =
    step (step (spawn entry (spawn entry start)) (there (here (lock refl)))) (there (here put))

Interleaves-whole_example :
    (whole output (waiting entry ∷ writing entry rest ∷ [])
      ≡ stdout formats (with_logged (entry ∷ []) booted))
    × (lines (whole output (waiting entry ∷ writing entry rest ∷ []))
        ≡ map (boot_json formats) (reverse booted.boot_log)
          ++ map (entry_json formats) (reverse (entry ∷ booted.access_log)))
    × Permᴰ (entry ∷ []) (begun (waiting entry ∷ writing entry rest ∷ []))
    × ((total holds (waiting entry ∷ writing entry rest ∷ []) ≡ 1)
        ⊎ ((total holds (waiting entry ∷ writing entry rest ∷ []) ≡ 0)
            × (unwritten (waiting entry ∷ writing entry rest ∷ []) ≡ [])))
Interleaves-whole_example =
    Interleaves-whole formats booted output (waiting entry ∷ writing entry rest ∷ [])
      formats-IsFormat overlap

Interleaves-SomeMoves_example :
    (total (to_write formats) (waiting entry ∷ writing entry rest ∷ []) ≡ 0)
    ⊎ SomeMoves (Turns formats) (to_write formats) output (waiting entry ∷ writing entry rest ∷ [])
Interleaves-SomeMoves_example =
    Interleaves-SomeMoves formats booted output (waiting entry ∷ writing entry rest ∷ []) overlap
