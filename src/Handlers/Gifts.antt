-- ===== src/Handlers/Gifts.antt =====
-- The handlers of app/events/handlers/gifts for gifts that are claimed, delivered or redeemed: each
-- tells the persons that it can reach by WhatsApp, and an exception of a message is only logged.
pub mod Frame
use Prim.Native.Char.{Char}
use ushnotice.Common.{
  String, ◌==◌, ◌<>◌, ◌&&◌, not, Bool, Option, none, some, List, [], lower, starts_with, keep_chars,
  ◌>>=◌, if◌then◌else◌,
}
use ushnotice.Json.{Json, str, Fields, field, end, get, or_else, truthy}
use ushnotice.Domain.Values.{Recipient, NotificationRequest}
use ushnotice.Store.{World}
use ushnotice.Events.Envelope.{EventEnvelope}
use ushnotice.Events.Handler.{Outcome, returned, raised}
use ushnotice.Invoicing.Lines.{or_get, or_dict, attr_get}
use ushnotice.Handlers.Messages.{Setup, Step, then_do, notify, whatsapp_of, text_or_empty, optional}

-- Python's tests on characters and on values that are no texts: `digits_of_other` is the join of the
-- digits of such a value, none where it raises, and `error_text` the message of an exception.
pub record Shapes : Type 0 where
  pub is_digit : Char → Bool
  pub digits_of_other : Json → Option String
  pub error_text : String

-- `"".join(c for c in v if c.isdigit())`
unfoldable pub digits : Shapes → Json → Option String
unfolding keep_chars
digits shapes (str t) = some (keep_chars shapes.is_digit t)
digits shapes v = shapes.digits_of_other v

-- a person of a gift: the name, the phone and the language
pub record Party : Type 0 where
  pub name : Json
  pub phone : Json
  pub language : String

module _ {E : Type 0} (u : Setup E) (shapes : Shapes) where
  abbrev pub language_of : Json → String
  language_of v =
      if starts_with (lower (u.services.strip (text_or_empty u v))) "en" then "en" else "ar"

  -- the language that is named at the key, or else in the dict
  unfoldable pub party_language : Json → Json → Option String
  party_language named inner = do
    a ← or_get named inner "language_preference"
    b ← or_get a inner "language"
    some (language_of b)

  unfoldable pub sender_of : Fields → Option Party
  unfolding party_language
  sender_of body = do
    let inner = or_dict (get body "sender_data")
    name ← attr_get inner "name"
    phone ← attr_get inner "phone_number"
    language ← party_language (get body "sender_language") inner
    let party : Party = record {
      name = or_else name (or_else (get body "sender_id") (str "A generous friend"));
      phone = or_else phone (str "");
      language = language;
    }
    some party

  unfoldable pub recipient_of : Fields → Option Party
  unfolding party_language
  recipient_of body = do
    let inner = or_dict (get body "recipient_data")
    name ← attr_get inner "name"
    phone ← or_get (get body "recipient_phone") inner "phone_number"
    language ← party_language (get body "recipient_language") inner
    let party : Party = record {
      name = or_else name (str "Valued Customer");
      phone = or_else phone (str "");
      language = language;
    }
    some party

  unfoldable pub gift_request : EventEnvelope → String → String → Recipient → NotificationRequest
  gift_request env template message r = record {
    event_id = env.event_id;
    recipient = r;
    template_name = template;
    template_context = field "message_body" (str message) end;
    subject = "";
    customer_id = none;
    booking_id = optional (text_or_empty u (get env.body "id"));
    correlation_id = env.correlation_id;
  }

  -- `except Exception`, after which the handler goes on
  unfoldable pub swallow : Step E → Step E
  swallow step w = (returned, (step w).1)

  abbrev payload : Party → Fields
  payload p =
      field "phone_number" p.phone
        (field "customer_name" p.name (field "language_preference" (str p.language) end))

  -- a message to a person by WhatsApp, in English or in Arabic
  unfoldable pub tell : EventEnvelope → String → Party → String → String → Step E
  unfolding swallow notify gift_request
  tell env template p english arabic =
      let message = if p.language == "en" then english else arabic in
      swallow (notify u (whatsapp_of u (payload p)) (gift_request env template message))

  abbrev raise : Step E
  raise w = (raised shapes.error_text, w)

  abbrev done : Step E
  done w = (returned, w)

  abbrev show : Json → String
  show = u.services.str_of

  tell_claimed : EventEnvelope → Option Party → Json → Step E
  unfolding tell
  tell_claimed env none recipient_name = raise
  tell_claimed env (some p) recipient_name =
      let opened =
        "🎁 Your Gift Has Been Opened!\n\nDear "
        <> show p.name
        <> ", your gift to "
        <> show recipient_name
        <> " has been opened." in
      let opened_ar =
        "🎁 \u{62a}\u{645} \u{641}\u{62a}\u{62d} \u{647}\u{62f}\u{64a}\u{62a}\u{643}!\n\n\u{639}\u{632}\u{64a}\u{632}\u{64a} "
        <> show p.name
        <> "، \u{642}\u{627}\u{645} "
        <> show recipient_name
        <> " \u{628}\u{641}\u{62a}\u{62d} \u{647}\u{62f}\u{64a}\u{62a}\u{643}." in
      if truthy p.phone then tell env "gifts/claimed_sender_whatsapp" p opened opened_ar else done

  claimed_by : EventEnvelope → Option Json → Step E
  unfolding tell_claimed sender_of
  claimed_by env none = raise
  claimed_by env (some name) =
      tell_claimed env (sender_of env.body) (or_else name (str "Valued Customer"))

  -- `GiftClaimedHandler.handle`
  unfoldable pub gift_claimed : EventEnvelope → Step E
  unfolding claimed_by
  gift_claimed env = claimed_by env (attr_get (or_dict (get env.body "recipient_data")) "name")

  -- `base_url` is USH_GIFT_VOUCHER_BASE_URL without the slashes at its end
  unfoldable pub build_gift_voucher_url : String → Json → String
  build_gift_voucher_url base_url token =
      if not (truthy token)
      then "https://ushspa.co/"
      else if base_url == ""
      then "https://ushspa.co/gift/" <> show token
      else base_url <> "/" <> show token

  tell_delivered : EventEnvelope → String → Option Party → Step E
  unfolding tell build_gift_voucher_url
  tell_delivered env base_url none = raise
  tell_delivered env base_url (some p) =
      let url = build_gift_voucher_url base_url (get env.body "public_token") in
      let english =
        "📦 Your USHSPA Physical Gift has been delivered! Please confirm receipt: " <> url in
      let arabic =
        "📦 \u{62a}\u{645} \u{62a}\u{648}\u{635}\u{64a}\u{644} \u{647}\u{62f}\u{64a}\u{62a}\u{643} \u{627}\u{644}\u{645}\u{627}\u{62f}\u{64a}\u{629} \u{645}\u{646} USHSPA! \u{64a}\u{631}\u{62c}\u{649} \u{62a}\u{623}\u{643}\u{64a}\u{62f} \u{627}\u{644}\u{627}\u{633}\u{62a}\u{644}\u{627}\u{645}: "
        <> url in
      if truthy p.phone
      then tell env "gifts/delivered_recipient_whatsapp" p english arabic
      else done

  -- `GiftDeliveredHandler.handle`
  unfoldable pub gift_delivered : String → EventEnvelope → Step E
  unfolding tell_delivered recipient_of
  gift_delivered base_url env = tell_delivered env base_url (recipient_of env.body)

  -- whether two numbers have the same digits
  abbrev pub same_digits : String → String → Bool
  same_digits s r = not (s == "") && (not (r == "") && s == r)

  tell_sender : EventEnvelope → Bool → Party → Json → Step E
  unfolding tell
  tell_sender env is_self_gift p recipient_name =
      let english =
        "🎁 Gift Redeemed — " <> show recipient_name <> " has redeemed your gift at USHSPA!" in
      let arabic =
        "🎁 \u{62a}\u{645} \u{627}\u{633}\u{62a}\u{62e}\u{62f}\u{627}\u{645} \u{627}\u{644}\u{647}\u{62f}\u{64a}\u{629} — \u{642}\u{627}\u{645} "
        <> show recipient_name
        <> " \u{628}\u{627}\u{633}\u{62a}\u{62e}\u{62f}\u{627}\u{645} \u{647}\u{62f}\u{64a}\u{62a}\u{643} \u{641}\u{64a} USHSPA!" in
      if truthy p.phone && not is_self_gift
      then tell env "gifts/redeemed_sender_whatsapp" p english arabic
      else done

  tell_recipient : EventEnvelope → Party → Step E
  unfolding tell
  tell_recipient env p =
      if truthy p.phone
      then tell env "gifts/redeemed_recipient_whatsapp" p
          "Your USHSPA gift has been successfully redeemed! Thank you."
          "\u{62a}\u{645} \u{627}\u{633}\u{62a}\u{62e}\u{62f}\u{627}\u{645} \u{647}\u{62f}\u{64a}\u{62a}\u{643} \u{641}\u{64a} USHSPA \u{628}\u{646}\u{62c}\u{627}\u{62d}! \u{634}\u{643}\u{631}\u{627}ً \u{644}\u{643}."
      else done

  -- the sender is told, unless the two numbers have the same digits, and then the recipient
  tell_apart : EventEnvelope → Party → Party → Option String → Option String → Step E
  unfolding tell_sender tell_recipient then_do
  tell_apart env s r (some s_digits) (some r_digits) =
      then_do (tell_sender env (same_digits s_digits r_digits) s r.name) (tell_recipient env r)
  tell_apart env s r _ _ = raise

  tell_both : EventEnvelope → Option Party → Option Party → Step E
  unfolding tell_apart digits
  tell_both env (some s) (some r) =
      tell_apart env s r (digits shapes s.phone) (digits shapes r.phone)
  tell_both env _ _ = raise

  -- `GiftRedeemedPurchaseHandler.handle`
  unfoldable pub gift_redeemed : EventEnvelope → Step E
  unfolding tell_both sender_of recipient_of
  gift_redeemed env = tell_both env (sender_of env.body) (recipient_of env.body)
