-- ===== src/Lib.antt =====
-- ushnotice takes events from a queue, runs the handlers that are registered for their types, sends
-- the notifications that the handlers ask for by SMS, WhatsApp or email, and keeps a record of all
-- of it in a database. This library models that path and proves what keeps it from losing events
-- and from sending a message twice.
--
-- The parts, and the files that model them:
-- * Domain (app/notifications/domain): the enums, a record for the rows of each table, and the
--   value objects. The time stamps are left out.
-- * Store (app/notifications/infrastructure/repositories.py, app/core/database.py): a `Db` is the
--   tables as lists of rows, newest first. A `World` is the session's view `db`, the database as
--   last committed `saved`, the UUIDs still to be drawn, and the world outside `env`, whose type is
--   a parameter. Each repository has a module, with a function for each operation. Statements do
--   not fail, but for the foreign key of a notification's event.
-- * In Events: Envelope (app/events/schemas/envelope.py), Handler, Registry and Registry/Default
--   (app/events/handlers/base.py, app/events/registry/handler_registry.py), Idempotency
--   (app/events/idempotency.py), Router (app/events/router.py), Processor and Consumer
--   (app/events/consumer). A handler is any function of the envelope and the world that returns or
--   raises. `route` runs the handlers in order, each under a processing record; the processor
--   stores an event, commits, and routes it; the consumer deletes the message from the queue if
--   that ended well. Registry/Default is the table of all classes, with their types and aliases.
-- * In Notify: Renderer (app/templates/renderer.py), Settings (app/core/config.py), Services (what
--   the service calls outside), Attempting and Service (app/notifications/application/
--   notification_service.py). `send` claims a key in Redis, writes a notification, renders its text
--   and tries the provider until it accepts, refuses for good, or the attempts are used up.
--   Resolver (app/notifications/application/channel_resolver.py) reads the recipients out of a
--   payload.
-- * In Providers (app/providers): the client of KWT SMS, and the factory that keeps one provider
--   for each channel.
-- * In Invoicing: Lines, Booking, Shop and Gifts (app/invoicing/invoice_helper.py) make the lines
--   of an invoice; Accounting, Triggers and Purchases (app/invoicing/triggers.py) read the payloads
--   and call the accounts. An amount is a whole number of thousandths.
-- * In Util: the retries, the pages and the masks of app/common.
-- * In Handlers (app/events/handlers): SendSms; Messages, the steps of the handlers that send
--   messages, in Auth, Payment, PaymentRefunded and Gifts; Calls, those of one call; Services, the
--   calls of the other services, in Refunds, Bookings, LinkPaid, Cancellation, Cancelled and
--   PendingBooking. Default is the table of the handlers behind the classes of the registry. In it
--   a handler is told apart by what it leaves alone: its Frame module shows that it keeps to what
--   the router asks of one.
-- * Webhook (app/notifications/application/whatsapp_webhook_service.py): the statuses and messages
--   that Meta calls back with, over the same tables.
-- * Gateway (app/integrations/http_client.py): the client that the handlers call other services
--   with, its retries and its redirects.
-- * Json is the JSON values that these parts read; Common has the helpers; Tests has runs at
--   concrete inputs.
--
-- Exceptions are results: each operation that may raise returns a data type with a constructor for
-- each way in which it ends. The loops that are not over a list recurse on what bounds them in the
-- code: the attempts left of NOTIFICATION_MAX_RETRIES, those of the client's max_retries and of a
-- retry policy's, and the redirects left of three.
--
-- Parameters stand for what is not in the repository: `json.loads`, pydantic, Jinja2, Redis, the
-- providers' networks, the queue. Where a theorem needs something of them, it is a record of
-- hypotheses (`KeepsKeys`, `Counts`, `Carries`). Twenty-nine of the thirty-six classes are modelled.
-- The others (confirmed and updated bookings, active, redeemed and scheduled vouchers, shop orders,
-- completed gift purchases) are the parameter `others` of the table of handlers. Two of the modelled
-- ones, for paid links and for bookings paid at the desk, end with the handler of confirmed bookings
-- and so leave that part to `others`; `is_self_contained` names the other twenty-seven. The closing
-- of the HTTP clients is modelled for the client of ushanr in the triggers, and taken to raise
-- nothing elsewhere. Not modelled either: the HTTP API, the paths and answers of the other services,
-- the poll loop, logging, delays and time stamps, and how sessions that run at the same time
-- interleave.
pub mod Common
pub mod Json
pub mod Domain
pub mod Store
pub mod Events
pub mod Notify
pub mod Webhook
pub mod Handlers
pub mod Gateway
pub mod Invoicing
pub mod Providers
pub mod Util
mod Tests
