-- ===== src/Examples/Talk.antt =====
-- A conversation of three messages, compacted to two.
use puff.Common.{◌≡◌, some, Text, codes}
use puff.Common.Json.{Json}
use puff.Conversation.{Conversation, new, add_user_message, add_assistant_message, compact}
use puff.Conversation.Compaction.{compact-Compacted, Compacted}

abbrev show : Json → Text
show v = codes "json"

abbrev talk : Conversation
talk = add_user_message (codes "third") 3 (
    add_assistant_message (codes "second") 2
      (add_user_message (codes "first") 1 (new (codes "tester") (codes "id") 0)))

compact-Compacted_example :
    (d : Conversation) × (compact show 2 10 4 talk ≡ some d) × Compacted show 2 10 talk d
compact-Compacted_example = compact-Compacted show 2 10 4 talk

abbrev compacted_talk :
    (d : Conversation) × (compact show 2 10 4 talk ≡ some d) × Compacted show 2 10 talk d
compacted_talk = compact-Compacted show 2 10 4 talk
