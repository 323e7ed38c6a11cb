-- ===== src/Tests/HistoryWitness.antt =====
-- The theorem on hooks at a concrete sequence of calls.
use ruminate.Base.{none, some, [], ◌∷◌, List}
use ruminate.World.{done}
use ruminate.Json.{JsonHook}
use ruminate.Json.History.{Change, added, removed, flagged, referenced}
use ruminate.Tests.Document.{Document}

-- A hook that writes null and reads to the address 0x7000, and one that does nothing.
abbrev null_hook : JsonHook Document
null_hook = record {
  serializer = some (λ cont rt a w. done (some Document.null) none w);
  deserializer = some (λ cont rt json w. done 0x7000 none w);
}

abbrev empty_hook : JsonHook Document
empty_hook = record { serializer = none; deserializer = none }

-- The newest call first.
abbrev calls : List (Change (JsonHook Document))
calls =
    removed "level"
    ∷ added "int" null_hook
    ∷ referenced
    ∷ flagged 4
    ∷ removed "int"
    ∷ added "int" empty_hook
    ∷ flagged 2
    ∷ []
