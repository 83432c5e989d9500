-- ===== src/Stun/Tests.antt =====
-- The agent and the messages at concrete inputs.
use ortc.Common.{
  ◌+◌, ◌<◌, ◌≤◌, ◌≡◌, refl, true, false, Option, none, some, [], ◌∷◌, ◌++◌, ℕ, List, arith, length,
  ◌^◌,
}
use ortc.Common.Map.{keys, count}
use ortc.Stun.Agent.{ClientAgent, new}
use ortc.Stun.Agent.Accounting.{
  Call, run, ids, all_started, all_unasked, transactions_accounted, closed-reported,
}
use ortc.Stun.MessageType.{MessageType, value, read_value}
use ortc.Stun.MessageType.Bijection.{read_value-value}
use ortc.Stun.Attributes.{RawAttribute}
use ortc.Stun.Message.{Message, MessageError, encode, decode, unmarshal_binary}
use ortc.Stun.Message
use ortc.Stun.Message.Layout.{header, body, raw-encode}
use ortc.Stun.Message.Decoding.{decode-total}
use ortc.Stun.Message.RoundTrip.{unmarshal_binary-encode, IsMessage}

-- Two transactions, one answered, an answer that nobody waits for, and the end.
abbrev calls : List Call
calls =
    Call.handle (ClientAgent.start_event 7 100)
    ∷ Call.handle (ClientAgent.start_event 8 50)
    ∷ Call.handle (ClientAgent.process_event 7)
    ∷ Call.handle (ClientAgent.process_event 9)
    ∷ Call.poll
    ∷ Call.handle ClientAgent.close_event
    ∷ []

transactions_accounted_example :
    let (a, seen) = run (new, []) calls in
    count 8 (ids (seen ++ a.events_queue)) + count 8 (keys a.transactions)
    ≡ count 8 (all_started (new, []) calls) + count 8 (all_unasked (new, []) calls)
transactions_accounted_example = transactions_accounted 8 calls

calls-closed : (run (new, []) calls).0.closed ≡ true
unfolding run new ortc.Common.Map.contains_key ortc.Common.Map.insert
calls-closed = refl

closed-reported_example :
    count 8 (all_started (new, []) calls)
    ≤ count 8 (ids ((run (new, []) calls).1 ++ (run (new, []) calls).0.events_queue))
closed-reported_example = closed-reported 8 calls calls-closed

-- A binding success response.
abbrev success : MessageType
success = record { method = 1; class = 2 }

success-value : value success ≡ 0x101
unfolding value
success-value = refl

read_value-value_example : read_value (value success) ≡ success
read_value-value_example = read_value-value success (omega arith) (omega arith)

abbrev software : RawAttribute
software = record { typ = 0x8022; length = 3; value = 1 ∷ 2 ∷ 3 ∷ [] }

abbrev answer : Message
answer = record {
  typ = success;
  length = 0;
  transaction_id = 1 ∷ 2 ∷ 3 ∷ 4 ∷ 5 ∷ 6 ∷ 7 ∷ 8 ∷ 9 ∷ 10 ∷ 11 ∷ 12 ∷ [];
  attributes = software ∷ [];
  raw = [];
}

encode-answer :
    (encode answer).raw
    ≡ 1 ∷ 1 ∷ 0 ∷ 8 ∷ 0x21 ∷ 0x12 ∷ 0xa4 ∷ 0x42 ∷ 1 ∷ 2 ∷ 3 ∷ 4 ∷ 5 ∷ 6 ∷ 7 ∷ 8 ∷ 9 ∷ 10 ∷ 11 ∷ 12
      ∷ 0x80 ∷ 0x22 ∷ 0 ∷ 3 ∷ 1 ∷ 2 ∷ 3 ∷ 0 ∷ []
unfolding encode Message.add_all Message.add Message.write_at Message.grow Message.add_padded
    ortc.Stun.Attributes.nearest_padded_value_length Message.tlv value
encode-answer = refl

answer_fits : length (body answer.attributes) < 2 ^ 16
unfolding body ortc.Stun.Message.Layout.attribute_bytes Message.tlv
    ortc.Stun.Attributes.nearest_padded_value_length
answer_fits = omega arith

no_absurd : answer.attributes ≡ [] → answer.length ≡ 0
no_absurd e = refl

answer-IsMessage : IsMessage answer
answer-IsMessage = record {
  method = omega arith;
  class = omega arith;
  id = refl;
  attributes =
      (record { typ = omega arith; current = refl; value = omega arith; length_eq = refl }, tt);
  fits = answer_fits;
  no_length = no_absurd;
}

unmarshal_binary-encode_example :
    unmarshal_binary Message.new (encode answer).raw
    ≡ some (
      record answer { length = length (body answer.attributes); raw = (encode answer).raw },
      none,
    )
unmarshal_binary-encode_example = unmarshal_binary-encode Message.new answer answer-IsMessage

decode-total_example :
    (n : Message) × (e : Option MessageError) × (decode (encode answer) ≡ some (n, e))
decode-total_example = decode-total (encode answer)

-- A message without attributes that keeps a length: the header says 8, and the bytes do not decode.
abbrev stale : Message
stale = record answer { length = 8; attributes = [] }

stale_refused :
    unmarshal_binary Message.new (encode stale).raw
    ≡ some
        (record Message.new { raw = (encode stale).raw }, some (MessageError.short_message 20 28))
unfolding unmarshal_binary encode Message.add_all Message.write_at Message.grow
stale_refused = refl
