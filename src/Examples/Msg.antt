-- ===== src/Examples/Msg.antt =====
-- Messages on the wire, and the theorems on them at concrete ones.
use flom.Prelude.{
  ◌-◌, ◌≡◌, ◌≢◌, refl, ap, true, none, some, List, [], ltb, length, if◌then◌else◌, arith,
}
use flom.Prelude.Int.{pos, negsuc}
use flom.Rsrc.Types.{Rc}
use flom.Rsrc.Names.{RsrcType}
use flom.Rsrc.Names.Decimal.{digits}
use flom.Msg.{Bytes, MsgState, Message, init, kind}
use flom.Msg.Numbers.{print_int}
use flom.Msg.Write.{
  Codec, written, not_written, put, print_attributes, resource_of, serialize, codes,
}
use flom.Msg.Read.{Memory, Event, deserialize}
use flom.Msg.Content.{Content, lock_request, second_answer, message, received, document, events}
use flom.Msg.Length.{serialize-document}
use flom.Msg.Round.{IsAmple, serialize-deserialize}
use flom.Msg.Levels.{HasLevel, deserialize-level}

-- All names are those of numeric resources, and stand for themselves.
abbrev plain : Codec
plain = record {
  type_of = λ s. RsrcType.numeric;
  base64_encode = λ s. some s;
  base64_decode = λ s. some s;
}

abbrev memory : Memory
memory = record { duplicates = λ s. true; reallocates = λ s. true }

memory-IsAmple : IsAmple memory
memory-IsAmple = record { duplicated = λ s. refl; reallocated = λ s. refl }

abbrev ask_three : Content
ask_three = lock_request (record {
  peerid = codes "me";
  name = codes "r[3]";
  mode = pos 5;
  wait = pos 1;
  quantity = negsuc 2;
  create = pos 1;
  lifespan = pos 0;
})

abbrev reports : Bytes → List Event
reports text = events plain.type_of (λ s. s) ask_three

abbrev wire : Bytes
wire =
    codes
      "<?xml version=\"1.0\" encoding=\"UTF-8\" ?><msg level=\"3\" verb=\"1\" step=\"8\"><session peerid=\"me\"/><resource name=\"r[3]\" wait=\"1\" quantity=\"-3\" create=\"1\" lifespan=\"0\"/></msg>"

sent : serialize plain (message ask_three) 512 ≡ written wire (512 - length wire)
unfolding serialize put print_attributes resource_of message kind print_int digits
sent = refl

has_type : RsrcType.numeric ≢ RsrcType.null
has_type e = cc

serialize-deserialize_example :
    deserialize plain memory init (reports wire) ≡ (Rc.ok, message (received plain ask_three))
serialize-deserialize_example =
    serialize-deserialize plain (λ s. s) memory reports ask_three 512 (512 - length wire) wire
      (λ s. refl) (λ s. refl) memory-IsAmple refl has_type (omega arith) sent

abbrev enqueued : Content
enqueued = second_answer (record { rc = pos 9; element = none })

serialize-document_example :
    let d = document plain.type_of (λ s. s) enqueued in
    serialize plain (message enqueued) 100
    ≡ (if ltb (length d) 100 then written d (100 - length d) else not_written Rc.container_full)
serialize-document_example = serialize-document plain (λ s. s) (λ s. refl) enqueued 100 tt

arrived : (deserialize plain memory init (reports [])).1.state ≡ MsgState.ready
unfolding message received
arrived = ap (λ (o : Rc × Message). o.1.state) serialize-deserialize_example

deserialize-level_example : HasLevel (deserialize plain memory init (reports [])).1.level
deserialize-level_example = deserialize-level plain memory (reports []) arrived
