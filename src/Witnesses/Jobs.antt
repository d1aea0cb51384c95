-- ===== src/Witnesses/Jobs.antt =====
-- The theorems of the PatchJob controller at the sample job, in the sample world.
use kangal_patch.Prelude.{refl, [], All}
use kangal_patch.Api.Job.{rebooting, validating_kubernetes}
use kangal_patch.Effect.Prog.{run, requests}
use kangal_patch.Samples.{sample_libs, sample_job}
use kangal_patch.Samples.World.{sample_world}
use kangal_patch.Job.Reconcile.{reconcile}
use kangal_patch.Job.Effects.Allowed.{Allowed}
use kangal_patch.Effect.Trace.{Throughout, history}
use kangal_patch.Job.Progress.Ends.{Continues}
use kangal_patch.Job.Progress.Reconcile.{reconcile-Continues}
use kangal_patch.Job.Completion.RolledOut.{Concluding}
use kangal_patch.Job.Completion.Reconcile.{reconcile-Concluding}
use kangal_patch.Job.Recovery.Recovered.{Guarded}
use kangal_patch.Job.Recovery.Reconcile.{reconcile-Guarded}
use kangal_patch.Job.Effects.Reconcile.{reconcile-Allowed}

reconcile-Allowed_example :
    All
      (Allowed "kangal" (sample_job rebooting))
      (requests (sample_world rebooting) 0 (reconcile sample_libs "kangal" "plan-node"))
reconcile-Allowed_example =
    reconcile-Allowed (sample_world rebooting) sample_libs "kangal" 0 "plan-node"
      (sample_job rebooting) refl refl

reconcile-Continues_example :
    Continues
      (history (sample_world rebooting) 0 [] (reconcile sample_libs "kangal" "plan-node"))
      (run (sample_world rebooting) 0 (reconcile sample_libs "kangal" "plan-node")).0
reconcile-Continues_example =
    reconcile-Continues (sample_world rebooting) sample_libs "kangal" 0 "plan-node"

reconcile-Guarded_example :
    Throughout
      (Guarded (sample_job rebooting))
      (history (sample_world rebooting) 0 [] (reconcile sample_libs "kangal" "plan-node"))
reconcile-Guarded_example =
    reconcile-Guarded (sample_world rebooting) sample_libs "kangal" 0 "plan-node"
      (sample_job rebooting) refl refl

reconcile-Concluding_example :
    Throughout (Concluding (sample_job validating_kubernetes)) (
      history
        (sample_world validating_kubernetes)
        0
        []
        (reconcile sample_libs "kangal" "plan-node"))
reconcile-Concluding_example =
    reconcile-Concluding (sample_world validating_kubernetes) sample_libs "kangal" 0 "plan-node"
      (sample_job validating_kubernetes) refl refl
