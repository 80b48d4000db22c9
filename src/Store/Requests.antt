-- ===== src/Store/Requests.antt =====
-- `ApiRequestRepository`
use ushnotice.Common.{ℕ, String, ◌==◌, Option, none, some, ◌∷◌, update_where}
use ushnotice.Json.{Fields}
use ushnotice.Domain.Enums.{ApiRequestStatus}
use ushnotice.Domain.Models.{ApiRequest}
use ushnotice.Store.{Db, World, uuid4, on_db}

pub record NewRequest : Type 0 where
  pub service : String
  pub method : String
  pub path : String
  pub request_body : Option Fields
  pub notification_id : Option String
  pub event_id : Option String
  pub request_id : Option String
  pub correlation_id : Option String

abbrev write : ApiRequest → Db → Db
write r db = record db { requests = update_where (λ q. q.id == r.id) (λ _. r) db.requests }

module _ {E : Type 0} where
  unfoldable pub create : NewRequest → World E → ApiRequest × World E
  unfolding uuid4
  create n w =
      let (pk, w') = uuid4 w in
      let r : ApiRequest = record {
        id = pk;
        notification_id = n.notification_id;
        event_id = n.event_id;
        service = n.service;
        method = n.method;
        path = n.path;
        request_body = n.request_body;
        response_status = none;
        response_body = none;
        status = ApiRequestStatus.pending;
        error = none;
        request_id = n.request_id;
        correlation_id = n.correlation_id;
      } in
      (r, on_db (λ db. record db { requests = r ∷ db.requests }) w')

  unfoldable pub mark_success : ApiRequest → ℕ → Option Fields → World E → World E
  mark_success r response_status response_body = on_db (
      write (record r {
        status = ApiRequestStatus.success;
        response_status = some response_status;
        response_body = response_body;
      }))

  unfoldable pub mark_failed : ApiRequest → String → Option ℕ → World E → World E
  mark_failed r error response_status = on_db (
      write (record r {
        status = ApiRequestStatus.failed;
        error = some error;
        response_status = response_status;
      }))
