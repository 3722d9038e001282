-- ===== src/Outbox/Relaying.antt =====
-- One round of the relay with no Redis client.
use trustflow_backend.Prelude.{◌≡◌, Bool, false, All}
use trustflow_backend.Prelude.Keeps.{Keeps}
use trustflow_backend.World.{Env, World, Action}
use trustflow_backend.Data.Outbox.{OutboxEvent}
use trustflow_backend.Outbox.Relay.{Handler, Handlers}

module _ ⦃E : Env⦄ where
  abbrev has_client : World E.Remote → Bool
  has_client w = w.client

  abbrev pub IsSteady : Handler → Type 0
  IsSteady h = (event : OutboxEvent) → Keeps has_client (h event)

  -- No handler replaces the client of the process.
  abbrev pub AreSteady : Handlers → Type 0
  AreSteady handlers = All (λ e. All IsSteady e.1) handlers

  -- With no client before it, an action leaves none behind.
  record IsOff {A : Type 0} (m : Action A) : Type 0 where
    at : (w : World E.Remote) → w.client ≡ false → (m w).1.client ≡ false
