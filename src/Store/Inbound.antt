-- ===== src/Store/Inbound.antt =====
-- `InboundMessageRepository`
use ushnotice.Common.{String, ◌==◌, false, Option, none, some, ◌∷◌, find_first}
use ushnotice.Json.{Json}
use ushnotice.Domain.Models.{InboundMessage}
use ushnotice.Store.{Db, World, uuid4, on_db}

pub record NewInbound : Type 0 where
  pub provider_message_id : String
  pub from_number : String
  pub channel : String
  pub provider : String
  pub to_number_id : Option String
  pub sender_name : Option String
  pub message_type : String
  pub body : Option String
  pub payload : Option Json

unfoldable pub get_by_provider_message_id : Db → String → Option InboundMessage
get_by_provider_message_id db id = find_first (λ m. m.provider_message_id == id) db.inbound

abbrev row_of : NewInbound → String → InboundMessage
row_of n pk = record {
  id = pk;
  channel = n.channel;
  provider = n.provider;
  provider_message_id = n.provider_message_id;
  from_number = n.from_number;
  to_number_id = n.to_number_id;
  sender_name = n.sender_name;
  message_type = n.message_type;
  body = n.body;
  payload = n.payload;
  is_processed = false;
}

module _ {E : Type 0} where
  -- a new row under a drawn key
  unfoldable pub insert : NewInbound → World E → InboundMessage × World E
  unfolding uuid4
  insert n w =
      let (pk, w') = uuid4 w in
      (row_of n pk, on_db (λ db. record db { inbound = row_of n pk ∷ db.inbound }) w')

  unfoldable pub create : NewInbound → World E → InboundMessage × World E
  create n w = elim (get_by_provider_message_id w.db n.provider_message_id) [
    | some existing ↦ (existing, w)
    | none ↦ insert n w
  ]
