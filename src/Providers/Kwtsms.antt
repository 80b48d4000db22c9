-- ===== src/Providers/Kwtsms.antt =====
-- `KwtSmsProvider` of app/providers/sms/kwtsms.py. The HTTP client is a parameter; the HTTPStatusError
-- that the code catches is kept, although nothing in it raises one.
pub mod Laws
use Prim.Native.Char.{Char}
use ushnotice.Common.{
  ℕ, String, ◌==◌, ◌<>◌, ◌||◌, ◌&&◌, not, Bool, true, false, Option, none, some, List, [], ◌∷◌, any,
  keep_chars, all_chars, drop_chars, leb, starts_with, if◌then◌else◌,
}
use ushnotice.Json.{Json, null, bool, num, str, arr, obj, Fields, get, has_key}
use ushnotice.Domain.Values.{DeliveryResult, delivery_ok, delivery_fail}

abbrev pub non_retryable_codes : List String
non_retryable_codes =
    "ERR001" ∷ "ERR002" ∷ "ERR003" ∷ "ERR004" ∷ "ERR005" ∷ "ERR006" ∷ "ERR007" ∷ "ERR008" ∷ "ERR009"
    ∷ "ERR010" ∷ "ERR011" ∷ "ERR012" ∷ "ERR025" ∷ "ERR026" ∷ "ERR027" ∷ "ERR031" ∷ "ERR032"
    ∷ "ERR034" ∷ "ERR035" ∷ "ERR036" ∷ []

abbrev pub retryable_codes : List String
retryable_codes = "ERR013" ∷ "ERR028" ∷ []

-- How the call of the network ends: a response whose body is read as JSON, or an exception.
pub data Posted : Type 0 where
  responded : Json → Posted
  timed_out : String → Posted
  status_error : ℕ → String → Posted
  failed : String → Posted

-- the JSON of the request
pub record Payload : Type 0 where
  pub username : String
  pub password : String
  pub sender : String
  pub mobile : String
  pub message : String
  pub test : String

-- The provider's settings and what it uses of Python and httpx: `\d`, `str.isdigit` of one character,
-- `str`, `repr`, and the messages of the exceptions of a response that is no dict, or whose code
-- cannot be hashed.
pub record Provider (E : Type 0) : Type 0 where
  pub username : String
  pub password : String
  pub sender_id : String
  pub test_mode : Bool
  pub is_decimal : Char → Bool
  pub is_digit : Char → Bool
  pub str_of : Json → String
  pub str_of_int : ℕ → String
  pub repr : String → String
  pub shape_error : Json → String
  pub post : Payload → E → Posted × E

abbrev pub among : List String → Json → Bool
among codes (str t) = any (λ code. code == t) codes
among codes _ = false

-- a value of the answer as the text that is stored; a value that is no text is stored as its `str`
abbrev pub text_of : (Json → String) → Json → Option String
text_of str_of null = none
text_of str_of (str t) = some t
text_of str_of v = some (str_of v)

module _ {E : Type 0} (p : Provider E) where
  -- `_normalise_phone`
  unfoldable pub normalise_phone : String → String
  unfolding keep_chars drop_chars
  normalise_phone phone =
      let kept = keep_chars p.is_decimal phone in
      if starts_with kept "00" then drop_chars 2 kept else kept

  -- `s.isdigit()`
  unfoldable pub is_number : String → Bool
  unfolding all_chars
  is_number t = not (t == "") && all_chars p.is_digit t

  unfoldable pub is_retryable_code : Json → Bool
  is_retryable_code code = among retryable_codes code || not (among non_retryable_codes code)

  unfoldable pub get_or : Fields → String → Json → Json
  get_or fields key default = if has_key fields key then get fields key else default

  unexpected : String → DeliveryResult
  unfolding delivery_fail
  unexpected message = delivery_fail "UNEXPECTED" message true null

  -- an answer other than "OK"
  pub refused : Fields → Json → DeliveryResult
  unfolding is_retryable_code get_or unexpected
  refused fields (arr items) = unexpected (p.shape_error (arr items))
  refused fields (obj inner) = unexpected (p.shape_error (obj inner))
  refused fields code = record {
    success = false;
    provider_message_id = none;
    raw_response = obj fields;
    error_code = text_of p.str_of code;
    error_message = text_of p.str_of (get_or fields "description" (str "Unknown error"));
    is_retryable = is_retryable_code code;
  }

  abbrev pub is_ok : Json → Bool
  is_ok (str t) = t == "OK"
  is_ok _ = false

  pub read : Json → DeliveryResult
  unfolding delivery_ok refused unexpected get_or
  read (obj fields) =
      if is_ok (get fields "result")
      then delivery_ok (p.str_of (get_or fields "msg-id" (str ""))) (obj fields)
      else refused fields (get_or fields "code" (str "UNKNOWN"))
  read v = unexpected (p.shape_error v)

  unfoldable pub result_of : Posted → DeliveryResult
  unfolding read delivery_fail
  result_of (responded v) = read v
  result_of (timed_out message) = delivery_fail "TIMEOUT" message true null
  result_of (status_error status message) =
      delivery_fail ("HTTP_" <> p.str_of_int status) message (leb 500 status) null
  result_of (failed message) = unexpected message

  unfoldable pub payload : String → String → String → Payload
  payload mobile body sender = record {
    username = p.username;
    password = p.password;
    sender = if sender == "" then p.sender_id else sender;
    mobile = mobile;
    message = body;
    test = if p.test_mode then "1" else "0";
  }

  -- `send_sms`; an empty sender stands for none
  unfoldable pub send_sms : String → String → String → E → DeliveryResult × E
  unfolding normalise_phone is_number payload result_of delivery_fail
  send_sms to body sender e =
      let normalised = normalise_phone to in
      let (posted, e') = p.post (payload normalised body sender) e in
      if is_number normalised then (result_of posted, e') else (
        delivery_fail "ERR025" ("Invalid phone number after normalisation: " <> p.repr to) false
            null,
        e,
      )
