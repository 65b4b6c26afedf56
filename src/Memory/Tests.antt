-- ===== src/Memory/Tests.antt =====
-- A service with two memories, and the theorem at it.
use argus_os.Prelude.{String, Bool, ◌≡◌, refl, true, some, List, [], ◌∷◌}
use argus_os.Events.{text, number}
use argus_os.Memory.{plain, MemoryRecord, MemoryService, load_all}
use argus_os.Memory.Stored.{IsStored, Call, run, load_all-run}

abbrev memory : String → MemoryRecord
memory key = record {
  key = key;
  value = plain (text "red");
  id = key;
  expires_at = some 10;
  version = 1;
}

abbrev nothing : MemoryService
nothing = record { index = []; saved = []; published = [] }

nothing-IsStored : IsStored nothing
nothing-IsStored = record { own_key = λ k r h. absurd h; unique = tt; saved = refl }

-- The second "a" is refused, and "b" has expired when it is updated.
abbrev calls : List Call
calls =
    Call.put (memory "a")
    ∷ Call.put (memory "a")
    ∷ Call.put (memory "b")
    ∷ Call.update 3 "a" (plain (number 7))
    ∷ Call.update 12 "b" (plain (number 8))
    ∷ Call.delete 4 "a"
    ∷ []

abbrev always : List MemoryRecord → Bool
always rs = true

load_all-run_example :
    load_all (run always calls nothing).saved [] ≡ (run always calls nothing).index
load_all-run_example = load_all-run always (λ rs. refl) calls nothing nothing-IsStored
