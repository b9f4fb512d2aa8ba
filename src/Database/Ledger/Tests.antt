-- ===== src/Database/Ledger/Tests.antt =====
-- The theorem on the event statistics at a concrete database.
use healpipe.Prelude.{[], ◌∷◌}
use healpipe.Database.State.{Db}
use healpipe.Samples.{empty_db, sample_event}

abbrev events_db : Db
events_db = record empty_db { healing_events = sample_event ∷ sample_event ∷ [] }
