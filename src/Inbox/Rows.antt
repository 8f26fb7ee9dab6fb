-- ===== src/Inbox/Rows.antt =====
-- Rows of internal/inbox by their id.
use kamacu.Common.{Bool, Option, List, String, str_eq, find}
use kamacu.Inbox.{Question}

abbrev pub has_id : String → Question → Bool
has_id id q = str_eq q.id id

-- `get`.
abbrev pub row_of : String → List Question → Option Question
row_of id rows = find (has_id id) rows
