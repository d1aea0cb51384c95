-- ===== src/Witnesses/Drains.antt =====
-- The theorem of the drain at a sample node.
use kangal_patch.Prelude.{true, false, [], minutes}
use kangal_patch.Effect.Trace.{Trace}
use kangal_patch.Drain.{DrainOptions, drain_node}
use kangal_patch.Drain.Evictions.{Evicts, Blocked, drain_node-Evicts}

abbrev sample_options : DrainOptions
sample_options = record { respect_pdbs = true; evict_unmanaged = false; timeout = minutes 5 }

drain_node-Evicts_example :
    Trace (Evicts "node" true false) (Blocked true) [] (drain_node "node" sample_options)
drain_node-Evicts_example = drain_node-Evicts "node" sample_options []
