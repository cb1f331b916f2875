-- ===== src/Context/Ask.antt =====
-- context.rs: `build_query`; its random id is an argument.
use ferrumdns.Base.{ℕ, true, [], ◌∷◌, Text, Result, ok, ◌>>=◌, ok_or, protocol}
use ferrumdns.Dns.OpCode
use ferrumdns.Dns.{MessageType, class_in, Message, new_message, Hickory}

unfoldable pub build_query : Hickory → ℕ → Text → ℕ → Result Message
build_query H id name qtype = do
  n ← ok_or (H.from_ascii name) (protocol "name")
  ok (record new_message {
    id = id;
    message_type = MessageType.query;
    op_code = OpCode.query;
    recursion_desired = true;
    queries = record { name = n; query_type = qtype; query_class = class_in } ∷ [];
  })
