-- ===== src/Samples/Fresh.antt =====
-- A world in which the sample plan has passed its checks and has no jobs.
use kangal_patch.Prelude.{ℕ, true, [], some}
use kangal_patch.Api.Kube.{ok}
use kangal_patch.Api.Plan.{PatchPlan}
use kangal_patch.Api.Job.{rebooting}
use kangal_patch.Effect.Request.{Request, Response, get_plan, list_jobs_of_plan}
use kangal_patch.Effect.Prog.{Handler}
use kangal_patch.Samples.{sample_plan}
use kangal_patch.Samples.World.{answer}

abbrev pub fresh_plan : PatchPlan
fresh_plan = record sample_plan {
  status = record (sample_plan.status) {
    preflight_condition = some (record {
      status = true;
      reason = "PreflightPassed";
      message = "";
      observed_generation = 1;
    });
  };
}

abbrev pub fresh_answer : (r : Request) → Response r
fresh_answer (get_plan n) = ok fresh_plan
fresh_answer (list_jobs_of_plan p) = ok []
fresh_answer r = answer rebooting r

abbrev pub fresh_world : Handler ℕ
fresh_world w r = (fresh_answer r, w)
