-- ===== src/Handlers/Messages/Frame.antt =====
-- What the steps leave alone.
use ushnotice.Common.{◌≡◌, refl, ap, ◌∙◌}
use ushnotice.Domain.Values.{Recipient, NotificationRequest}
use ushnotice.Store.{World}
use ushnotice.Events.Envelope.{EventEnvelope}
use ushnotice.Events.Handler.{EventHandler, Outcome, returned, raised, LeavesRouting, LeavesCommits}
use ushnotice.Notify.Service.{Sent, integrity_error, unpersisted, persisted}
use ushnotice.Notify.Service.Frame.{core, core-send}
use ushnotice.Notify.Resolver.{Resolved, nobody, somebody, value_error}
use ushnotice.Handlers.Messages.{Step, continue_with, then_do, Setup, sent_outcome, notify}

module _ {E : Type 0} where
  -- a step that leaves the router's tables, and what was committed
  pub record KeepsCore (step : Step E) : Type 0 where
    pub kept : (w : World E) → core (step w).1 ≡ core w

  core-continue_with :
      (r : Outcome × World E) (next : Step E)
      → KeepsCore next
      → core (continue_with r next).1 ≡ core r.1
  unfolding continue_with
  core-continue_with (returned, w) next h = h.kept w
  core-continue_with (raised message, w) next h = refl

  pub then_do-KeepsCore :
      (step next : Step E) → KeepsCore step → KeepsCore next → KeepsCore (then_do step next)
  unfolding then_do
  then_do-KeepsCore step next h k = record {
    kept = λ w. core-continue_with (step w) next k ∙ h.kept w;
  }

  module _ (u : Setup E) where
    core-sent_outcome : (r : Sent × World E) → core (sent_outcome u r).1 ≡ core r.1
    unfolding sent_outcome
    core-sent_outcome (unpersisted _ _, w) = refl
    core-sent_outcome (persisted _, w) = refl
    core-sent_outcome (integrity_error, w) = refl

    core-notify :
        (r : Resolved) (make : Recipient → NotificationRequest) (w : World E)
        → core (notify u r make w).1 ≡ core w
    unfolding notify
    core-notify nobody make w = refl
    core-notify value_error make w = refl
    core-notify (somebody r) make w =
        core-sent_outcome _ ∙ core-send u.services u.settings (make r) w

    pub notify-KeepsCore :
        (r : Resolved) (make : Recipient → NotificationRequest) → KeepsCore (notify u r make)
    notify-KeepsCore r make = record { kept = core-notify r make }

  -- A handler whose steps keep the core keeps to what the router asks of one.
  abbrev pub IsQuiet : EventHandler E → Type 0
  IsQuiet h = (env : EventEnvelope) → KeepsCore (h.handle env)

  pub IsQuiet-LeavesRouting : (h : EventHandler E) → IsQuiet h → LeavesRouting h
  IsQuiet-LeavesRouting h quiet = record {
    events = λ env w. ap (λ c. c.0) ((quiet env).kept w);
    processings = λ env w. ap (λ c. c.1) ((quiet env).kept w);
  }

  pub IsQuiet-LeavesCommits : (h : EventHandler E) → IsQuiet h → LeavesCommits h
  IsQuiet-LeavesCommits h quiet = record { saved = λ env w. ap (λ c. c.2) ((quiet env).kept w) }
