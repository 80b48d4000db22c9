-- ===== src/Handlers/Gifts/Frame.antt =====
-- What the handlers of gifts leave alone.
use ushnotice.Common.{refl, String, ◌&&◌, not, if◌then◌else◌, Bool, Option, none, some}
use ushnotice.Json.{Json, truthy}
use ushnotice.Events.Envelope.{EventEnvelope}
use ushnotice.Events.Handler.{Outcome, returned}
use ushnotice.Handlers.Messages.{Setup, Step}
use ushnotice.Handlers.Messages.Frame.{KeepsCore, then_do-KeepsCore, notify-KeepsCore}
use ushnotice.Handlers.Gifts.{
  Shapes, Party, swallow, tell, tell_claimed, claimed_by, gift_claimed, tell_delivered,
  gift_delivered, tell_sender, tell_recipient, same_digits, tell_apart, tell_both, gift_redeemed,
}

module _ {E : Type 0} (u : Setup E) (shapes : Shapes) where
  -- a step that changes nothing, however it ends
  still : (o : Outcome) → KeepsCore {E = E} (λ w. (o, w))
  still o = record { kept = λ w. refl }

  swallow-KeepsCore : (step : Step E) → KeepsCore step → KeepsCore (swallow u shapes step)
  unfolding swallow
  swallow-KeepsCore step h = record { kept = λ w. h.kept w }

  tell-KeepsCore :
      (env : EventEnvelope) (template : String) (p : Party) (english arabic : String)
      → KeepsCore (tell u shapes env template p english arabic)
  unfolding tell
  tell-KeepsCore env template p english arabic = swallow-KeepsCore _ (notify-KeepsCore u _ _)

  -- of a step that is taken or not
  if-KeepsCore :
      (b : Bool) (step next : Step E)
      → KeepsCore step
      → KeepsCore next
      → KeepsCore (if b then step else next)
  if-KeepsCore Bool.true step next h k = h
  if-KeepsCore Bool.false step next h k = k

  tell_claimed-KeepsCore :
      (env : EventEnvelope) (p : Option Party) (name : Json)
      → KeepsCore (tell_claimed u shapes env p name)
  unfolding tell_claimed
  tell_claimed-KeepsCore env none name = still _
  tell_claimed-KeepsCore env (some p) name =
      if-KeepsCore (truthy p.phone) _ _ (tell-KeepsCore env _ p _ _) (still returned)

  claimed_by-KeepsCore :
      (env : EventEnvelope) (name : Option Json) → KeepsCore (claimed_by u shapes env name)
  unfolding claimed_by
  claimed_by-KeepsCore env none = still _
  claimed_by-KeepsCore env (some name) = tell_claimed-KeepsCore env _ _

  pub gift_claimed-KeepsCore : (env : EventEnvelope) → KeepsCore (gift_claimed u shapes env)
  unfolding gift_claimed
  gift_claimed-KeepsCore env = claimed_by-KeepsCore env _

  tell_delivered-KeepsCore :
      (env : EventEnvelope) (base_url : String) (p : Option Party)
      → KeepsCore (tell_delivered u shapes env base_url p)
  unfolding tell_delivered
  tell_delivered-KeepsCore env base_url none = still _
  tell_delivered-KeepsCore env base_url (some p) =
      if-KeepsCore (truthy p.phone) _ _ (tell-KeepsCore env _ p _ _) (still returned)

  pub gift_delivered-KeepsCore :
      (base_url : String) (env : EventEnvelope) → KeepsCore (gift_delivered u shapes base_url env)
  unfolding gift_delivered
  gift_delivered-KeepsCore base_url env = tell_delivered-KeepsCore env base_url _

  tell_sender-KeepsCore :
      (env : EventEnvelope) (is_self : Bool) (p : Party) (name : Json)
      → KeepsCore (tell_sender u shapes env is_self p name)
  unfolding tell_sender
  tell_sender-KeepsCore env is_self p name =
      if-KeepsCore (truthy p.phone && not is_self) _ _ (tell-KeepsCore env _ p _ _) (still returned)

  tell_recipient-KeepsCore :
      (env : EventEnvelope) (p : Party) → KeepsCore (tell_recipient u shapes env p)
  unfolding tell_recipient
  tell_recipient-KeepsCore env p =
      if-KeepsCore (truthy p.phone) _ _ (tell-KeepsCore env _ p _ _) (still returned)

  tell_apart-KeepsCore :
      (env : EventEnvelope) (s r : Party) (a b : Option String)
      → KeepsCore (tell_apart u shapes env s r a b)
  unfolding tell_apart
  tell_apart-KeepsCore env s r none b = still _
  tell_apart-KeepsCore env s r (some a) none = still _
  tell_apart-KeepsCore env s r (some a) (some b) =
      then_do-KeepsCore _ _ (tell_sender-KeepsCore env (same_digits u shapes a b) s r.name)
        (tell_recipient-KeepsCore env r)

  tell_both-KeepsCore :
      (env : EventEnvelope) (s r : Option Party) → KeepsCore (tell_both u shapes env s r)
  unfolding tell_both
  tell_both-KeepsCore env none r = still _
  tell_both-KeepsCore env (some s) none = still _
  tell_both-KeepsCore env (some s) (some r) = tell_apart-KeepsCore env s r _ _

  pub gift_redeemed-KeepsCore : (env : EventEnvelope) → KeepsCore (gift_redeemed u shapes env)
  unfolding gift_redeemed
  gift_redeemed-KeepsCore env = tell_both-KeepsCore env _ _
