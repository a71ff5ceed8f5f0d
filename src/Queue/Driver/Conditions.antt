-- ===== src/Queue/Driver/Conditions.antt =====
-- The conditions that several statements of SqliteQueueDriver.ts share, and the row mappers.
use nodestack.Prelude.{
  ℕ, String, Bool, true, false, List, [], ◌∷◌, ◌++◌, Option, none, some, ◌&&◌, ◌||◌, ◌=ₜ◌,
  if◌then◌else◌, codes, like, like_folded, starts_with, find, or_default,
}
use nodestack.Json.{null, stringify}
use nodestack.Queue.Types.{is_queued, is_processing, Queue, Message, or_null}

-- `column = ?`: a NULL equals nothing.
abbrev pub column_is : Option String → String → Bool
column_is none s = false
column_is (some t) s = t =ₜ s

abbrev pub find_queue : String → List Queue → Option Queue
find_queue name = find (λ q. q.name =ₜ name)

abbrev pub find_message : String → List Message → Option Message
find_message id = find (λ m. m.id =ₜ id)

-- `if (claimToken) sql += ' AND claimToken = ?'`
abbrev pub token_ok : Option String → Message → Bool
token_ok none m = true
token_ok (some t) m = if t =ₜ "" then true else column_is m.claim_token t

-- `id = ? AND status = 'processing'`, with the token where one is given
abbrev pub held : String → Option String → Message → Bool
held id token m = m.id =ₜ id && is_processing m.status && token_ok token m

-- `payload LIKE '%"originalMessageId":"<id>"%'`
unfoldable pub mentions_codes : List ℕ → Message → Bool
mentions_codes id m = elim m.payload [ none ↦ false | some v ↦ like_folded pattern (stringify v) ]
  where
    pattern : List ℕ
    pattern = (b'%' ∷ 34 ∷ codes "originalMessageId") ++ (34 ∷ b':' ∷ 34 ∷ (id ++ 34 ∷ b'%' ∷ []))

abbrev pub mentions : String → Message → Bool
mentions id m = mentions_codes (codes id) m

-- `status = 'queued' AND (id = ? OR originalMessageId = ? OR payload LIKE ?)`
abbrev pub pending_copy : String → String → Message → Bool
pending_copy copy_id id m =
    is_queued m.status && (m.id =ₜ copy_id || column_is m.original_message_id id || mentions id m)

-- `name.startsWith('_system:')`
unfoldable pub has_system_prefix : String → Bool
has_system_prefix name = starts_with (codes name) (codes "_system:")

-- `name LIKE '_system:%'`
unfoldable pub like_system : String → Bool
like_system name = like name "_system:%"

-- A column's empty text comes out as null, and a name decides that a queue is a system queue.
unfoldable pub map_row_to_queue : Queue → Queue
map_row_to_queue q = record q {
  dead_letter_queue = or_null q.dead_letter_queue;
  target_function = or_null q.target_function;
  is_system = q.is_system || has_system_prefix q.name;
}

unfoldable pub map_row_to_message : Message → Message
map_row_to_message m = record m {
  group_key = or_null m.group_key;
  payload = some (or_default m.payload null);
  error = or_null m.error;
  claimed_by = or_null m.claimed_by;
  claim_token = or_null m.claim_token;
  deduplication_id = or_null m.deduplication_id;
  original_message_id = or_null m.original_message_id;
  forwarded_to_message_id = or_null m.forwarded_to_message_id;
}
