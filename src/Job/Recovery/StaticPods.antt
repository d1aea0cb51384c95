-- ===== src/Job/Recovery/StaticPods.antt =====
-- controllers/patchjob_controller.go: what controlPlaneStaticPodsReady has seen when it says yes.
use kangal_patch.Prelude.{◌≡◌, Bool, true, String, List}
use kangal_patch.Api.Kube.{Result, ok, ok-injective, err-ne-ok}
use kangal_patch.Effect.Trace.{Event, just_answered, Trace, stops, asks, Trace-on_err}
use kangal_patch.Job.Common.{static_pods_ready}
use kangal_patch.Job.Recovery.Recovered.{ComponentsUp}
use kangal_patch.Effect.Request.{Request, list_pods_in_namespace}
use kangal_patch.Job.Recovery.Failing.{Lenient}

-- The check of the static pods says yes only if they were listed so.
abbrev pub Listed : String → String → List Event → Result Bool → Type 0
Listed name version h r = r ≡ ok true → ComponentsUp name version h

module _ (P : List Event → Request → Type 0) (lenient : Lenient P) where
  pub static_pods_ready-Listed :
      (h : List Event) (name version : String)
      → Trace P (Listed name version) h (static_pods_ready name version)
  unfolding static_pods_ready
  static_pods_ready-Listed h name version =
      asks (lenient.reads h (list_pods_in_namespace "kube-system" name) tt) λ got.
        Trace-on_err got (λ e _. stops λ f. elim (err-ne-ok f) [ ])
          λ pods e.
            stops λ f. record { pods = pods; listed = just_answered got e; all_up = ok-injective f }
