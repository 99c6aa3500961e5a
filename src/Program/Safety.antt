-- ===== src/Program/Safety.antt =====
-- No parsing, merging or cleaning of the program ends in a fault.
use huntind.Sink.{Sink}
use huntind.Program.{Program}
