-- ===== src/Streaming/Attempts.antt =====
-- What every streamed attempt does to its slot, whatever ends it.
use llmbroker.Streaming.{still_held}
use llmbroker.Http.Verdict.{Verdict}
use llmbroker.Models.{LlmConfig}
use llmbroker.Pool
use llmbroker.Router.{World}
use llmbroker.Router.Attempts.{Handed}
use llmbroker.Streaming.{Settled}

-- What an attempt did to the slots, by what it raised.
abbrev pub Leaves : LlmConfig → World → Settled → Type 0
Leaves config w r = Handed config.name (still_held r.fault) w.pool.slots r.world.pool.slots
