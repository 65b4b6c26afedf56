-- ===== src/Knowledge/Tests.antt =====
-- Records of two categories, and the theorem at them.
use argus_os.Prelude.{String, Bool, refl, true, List, [], ◌∷◌}
use argus_os.Prelude.Dict.{lookup}
use argus_os.Prelude.Lists.{select}
use argus_os.Events.{text}
use argus_os.Knowledge.{KnowledgeRecord, KnowledgeService}
use argus_os.Knowledge.Saved.{Call, IsSaved, run, run-IsSaved}

abbrev fact : (category key : String) → KnowledgeRecord
fact category key = record {
  category = category;
  key = key;
  value = text "v";
  id = key;
  created_at = 0;
  updated_at = 0;
  version = 1;
}

abbrev nothing_known : KnowledgeService
nothing_known = record { index = []; saved = []; published = [] }

nothing_known-IsSaved : IsSaved nothing_known
unfolding lookup select
nothing_known-IsSaved = record { unique = tt; saved = λ c. refl }

abbrev saves_all : (category : String) → List KnowledgeRecord → Bool
saves_all category records = true

-- The second "a" is refused, and so is the update of "z".
abbrev calls : List (Call saves_all)
calls =
    Call.put (fact "projects" "a")
    ∷ Call.put (fact "tasks" "b")
    ∷ Call.put (fact "tasks" "a")
    ∷ Call.put (fact "projects" "c")
    ∷ Call.update "a" (text "w") 5
    ∷ Call.update "z" (text "w") 5
    ∷ Call.delete "b"
    ∷ []

run-IsSaved_example : IsSaved (run saves_all calls nothing_known)
run-IsSaved_example = run-IsSaved saves_all (λ c rs. refl) calls nothing_known nothing_known-IsSaved
