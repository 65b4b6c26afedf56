-- ===== src/Conversation/Settled.antt =====
-- argus/conversation/manager.py: what the writes of a session keep.
use argus_os.Prelude.{
  String, ◌≡◌, true, false, Option, none, some, arith, ◌⊎◌, string_eq, eq_iff, eq_of_some,
}
use argus_os.Prelude.Dict.{Dict, lookup, insert, lookup-insert}
use argus_os.Conversation.{is_closed, ConversationSession}

-- The active session is stored and open, every other session is closed, and each is stored under
-- its own id.
pub record IsSettled (active : Option String) (d : Dict String ConversationSession) : Type 0 where
  pub own_id : (k : String) (s : ConversationSession) → lookup k d ≡ some s → s.id ≡ k
  pub others :
      (k : String) (s : ConversationSession)
      → lookup k d ≡ some s
      → (is_closed s.state ≡ true) ⊎ (active ≡ some k)
  pub live :
      (k : String)
      → active ≡ some k
      → (s : ConversationSession) × ((lookup k d ≡ some s) × (is_closed s.state ≡ false))

-- The active session is written under its id, still open.
pub update-IsSettled :
    (k : String) (s : ConversationSession) (d : Dict String ConversationSession)
    → s.id ≡ k
    → is_closed s.state ≡ false
    → IsSettled (some k) d
    → IsSettled (some k) (insert k s d)
update-IsSettled k s d own fresh h = record {
  own_id = λ j t f. ground (arith, f, lookup-insert k j s d, h.own_id j t, eq_iff k j, own);
  others = λ j t f. ground (arith, f, lookup-insert k j s d, h.others j t, eq_iff k j);
  live = λ j e. (s, (ground (arith, e, lookup-insert k j s d, eq_iff k j, eq_of_some e), fresh));
}

pub open-IsSettled :
    (k : String) (s : ConversationSession) (d : Dict String ConversationSession)
    → s.id ≡ k
    → is_closed s.state ≡ false
    → IsSettled none d
    → IsSettled (some k) (insert k s d)
open-IsSettled k s d own fresh h = record {
  own_id = λ j t f. ground (arith, f, lookup-insert k j s d, h.own_id j t, eq_iff k j, own);
  others = λ j t f. ground (arith, f, lookup-insert k j s d, h.others j t, eq_iff k j);
  live = λ j e. (s, (ground (arith, e, lookup-insert k j s d, eq_iff k j, eq_of_some e), fresh));
}

pub close-IsSettled :
    (k : String) (s : ConversationSession) (d : Dict String ConversationSession)
    → s.id ≡ k
    → is_closed s.state ≡ true
    → IsSettled (some k) d
    → IsSettled none (insert k s d)
close-IsSettled k s d own ended h = record {
  own_id = λ j t f. ground (arith, f, lookup-insert k j s d, h.own_id j t, eq_iff k j, own);
  others = λ j t f. ground (arith, f, lookup-insert k j s d, h.others j t, eq_iff k j, ended);
  live = λ j e. cc;
}
