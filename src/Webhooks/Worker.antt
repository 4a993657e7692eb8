-- ===== src/Webhooks/Worker.antt =====
-- The worker that takes the due deliveries from the queue, batch by batch. The deliveries of a batch
-- are tasks of their own in the source; here they run one after another. `attempt` is how each ends.
use clawdchat.Base.{ℕ, zero, suc, List, [], ◌∷◌}
use clawdchat.Store.Schema.{Store, Result, ok, err, DeliveryRow}
use clawdchat.Store.Queue.{load_due_deliveries}
use clawdchat.Webhooks.{Attempt, process_delivery}

abbrev pub batch_size : ℕ
batch_size = 32

unfoldable pub process_each : Store → ℕ → (DeliveryRow → Attempt) → List DeliveryRow → Store
process_each s now attempt [] = s
process_each s now attempt (d ∷ ds) =
    process_each (process_delivery s now d (attempt d)) now attempt ds

-- Nothing is done where the queue cannot be read.
unfoldable pub process_due : Store → ℕ → (DeliveryRow → Attempt) → Result (List DeliveryRow) → Store
unfolding process_each
process_due s now attempt (err e) = s
process_due s now attempt (ok due) = process_each s now attempt due

-- A number of rounds of the loop, all at one time. A round that finds nothing due waits.
unfoldable pub delivery_worker : ℕ → Store → ℕ → (DeliveryRow → Attempt) → Store
unfolding process_due
delivery_worker zero s now attempt = s
delivery_worker (suc n) s now attempt =
    delivery_worker n (process_due s now attempt (load_due_deliveries s now batch_size)) now attempt
