-- ===== src/Plan/Creation/Nodes.antt =====
-- controllers/scheduler.go: scheduleNodes.
use mathlib.Core.List.{Mem, mem-cons_self, mem-cons_of_mem, append_assoc}
use kangal_patch.Prelude.{
  ℕ, zero, suc, ℤ, ◌+◌, ◌-◌, ◌≤◌, ◌≡◌, refl, sym, ap, ◌∙◌, pos, ltb_ℤ, leb, min_nat, sub_ℕ,
  add_duration, ◌==◌, true, false, List, [], ◌∷◌, ◌++◌, Option, none, some, Dict, lookup, is_some,
  is_empty, String, inl, inr, length, take, All, All-append, All-imp, Bool-cases, Option-cases,
  both_hold, true_apart, length-take, arith,
}
use kangal_patch.Api.Kube.{Node}
use kangal_patch.Api.Plan.{PatchPlan}
use kangal_patch.Api.Job.{PatchJob}
use kangal_patch.Effect.Request.{now}
use kangal_patch.Effect.Prog.{Handler}
use kangal_patch.Effect.Trace.{
  Event, Trace, stops, asks, Trace-bind, Trace-if, Trace-on_err, latest, Throughout, at_first,
  history, Trace-history,
}
use kangal_patch.Scheduling.{Group, Rollout}
use kangal_patch.Plan.Jobs.{count_of}
use kangal_patch.Plan.Schedule.{
  is_finished, pending_nodes, all_finished, delay_remaining, schedule_group, schedule_groups,
  schedule_nodes,
}
use kangal_patch.Plan.Creation.Starts.{
  created_in, creation_of, IsDone, IsPaced, Scheduled, last_activity,
}
use kangal_patch.Plan.Creation.Kept.{Uncounted, mark_in_progress-Keeps}
use kangal_patch.Plan.Creation.Rooms.{lenient, IsPaced-Later, create_jobs-Scheduled}
use kangal_patch.Job.Recovery.Failing.{ResultAny}

is_finished-IsDone :
    (jobs : Dict PatchJob) (n : Node) → is_finished (lookup n.name jobs) ≡ true → IsDone jobs n
is_finished-IsDone jobs n e = elim (Option-cases (lookup n.name jobs)) [
  | inl f ↦ elim (true_apart (sym e ∙ ap is_finished f)) [ ]
  | inr (job, f) ↦ (job, f, sym (ap is_finished f) ∙ e)
]

all_finished-IsDone :
    (jobs : Dict PatchJob) (ns : List Node) → all_finished jobs ns ≡ true → All (IsDone jobs) ns
unfolding all_finished
all_finished-IsDone jobs [] e = tt
all_finished-IsDone jobs (n ∷ ns) e =
    let (first, rest) = both_hold (is_finished (lookup n.name jobs)) _ e in
    (is_finished-IsDone jobs n first, all_finished-IsDone jobs ns rest)

no_job : {A : Type 0} (o : Option A) → is_some o ≡ false → o ≡ none
no_job none e = refl
no_job (some a) e = elim (true_apart e) [ ]

take-All : {A : Type 0} (P : A → Type 0) (n : ℕ) (xs : List A) → All P xs → All P (take n xs)
take-All P zero xs h = tt
take-All P (suc n) [] h = tt
take-All P (suc n) (x ∷ xs) h = (h.0, take-All P n xs h.1)

-- The pending nodes are those of the group that have no job.
pending_nodes-new :
    (jobs : Dict PatchJob) (ns : List Node)
    → All (λ n. Mem n ns × (lookup n.name jobs ≡ none)) (pending_nodes jobs ns)
unfolding pending_nodes
pending_nodes-new jobs [] = tt
pending_nodes-new jobs (n ∷ ns) = elim (Bool-cases (is_some (lookup n.name jobs))) [
  | inl e ↦ rw e (
      All-imp _ _ (pending_nodes jobs ns) (λ m (at, new). (mem-cons_of_mem n at, new))
        (pending_nodes-new jobs ns))
  | inr e ↦ rw e (
    (mem-cons_self, no_job _ e),
    All-imp _ _ (pending_nodes jobs ns) (λ m (at, new). (mem-cons_of_mem n at, new))
        (pending_nodes-new jobs ns),
  )
]

-- No more nodes start at once than the group has room for.
room_for :
    (limit used : ℕ) (ns : List Node)
    → leb limit used ≡ false
    → 0 + (length (take (min_nat (limit - used) (length ns)) ns) + used) ≤ limit
room_for limit used ns e = ground (arith, length-take (min_nat (limit - used) (length ns)) ns)

module _ (plan : PatchPlan) (rollout : Rollout) (jobs : Dict PatchJob) (active : Dict ℕ) where
  -- A wait that is over leaves the plan paced.
  abbrev IsOver : List Event → ℤ → Type 0
  IsOver h wait = ltb_ℤ (pos 0) wait ≡ false → IsPaced plan jobs h

  over :
      (last t : ℕ) (d : ℤ)
      → ltb_ℤ (pos 0) (sub_ℕ (add_duration last d) t) ≡ false
      → add_duration last d ≤ t
  over last t d e = ground arith

  is_zero : (n : ℕ) → (n == 0) ≡ true → n ≡ 0
  is_zero n e = ground arith

  delay_remaining-IsOver :
      (h : List Event)
      → created_in h ≤ 0
      → Trace
          (Scheduled plan rollout jobs active)
          (λ h' wait. (created_in h' ≤ 0) × IsOver h' wait)
          h
          (delay_remaining plan jobs)
  unfolding delay_remaining creation_of created_in
  delay_remaining-IsOver h none_yet =
      Trace-if (last_activity plan jobs == 0) (λ e. stops (none_yet, λ _. inl (is_zero _ e)))
        λ _. asks (lenient plan rollout jobs active h now refl) λ t.
          stops (
            omega (arith, none_yet),
            λ e. inr (t, latest, over _ t plan.spec.delay_between_nodes e),
          )

  module _ (namespace : String) where
    schedule_group-Scheduled :
        (h : List Event) (earlier later : List Group) (g : Group)
        → created_in h ≤ 0
        → rollout.groups ≡ earlier ++ g ∷ later
        → All (λ g'. All (IsDone jobs) g'.nodes) earlier
        → Trace
            (Scheduled plan rollout jobs active)
            ResultAny
            h
            (schedule_group namespace plan rollout jobs active g (pending_nodes jobs g.nodes))
    unfolding schedule_group
    schedule_group-Scheduled h earlier later g none_yet order done_before =
        let pending = pending_nodes jobs g.nodes in
        let free = min_nat (g.concurrency - count_of g.name active) (length pending) in
        Trace-if (is_empty pending) (λ _. stops tt)
          λ _.
            Trace-if (leb g.concurrency (count_of g.name active)) (λ _. stops tt)
              λ room.
                Trace-bind (delay_remaining-IsOver h none_yet) λ h' wait l (none_yet', is_over).
                  Trace-if (ltb_ℤ (pos 0) wait) (λ _. stops tt)
                    λ short.
                      Trace-bind
                        (Uncounted (lenient plan rollout jobs active) h' 0 none_yet'
                          (mark_in_progress-Keeps plan plan (refl, refl)))
                        λ h'' marked l' (none_yet'', keeps).
                          Trace-on_err marked (λ _ _. stops tt)
                            λ p is.
                              create_jobs-Scheduled plan rollout jobs active namespace earlier later
                                g order done_before h'' 0 p (take free pending) (keeps p is)
                                none_yet'' (room_for _ _ pending room)
                                (take-All _ free pending (pending_nodes-new jobs g.nodes))
                                (IsPaced-Later plan jobs l' (is_over short))

    schedule_groups-Scheduled :
        (h : List Event) (earlier gs : List Group)
        → created_in h ≤ 0
        → rollout.groups ≡ earlier ++ gs
        → All (λ g. All (IsDone jobs) g.nodes) earlier
        → Trace
            (Scheduled plan rollout jobs active)
            ResultAny
            h
            (schedule_groups namespace plan rollout jobs active gs)
    unfolding schedule_groups
    schedule_groups-Scheduled h earlier [] none_yet order done_before = stops tt
    schedule_groups-Scheduled h earlier (g ∷ gs) none_yet order done_before =
        Trace-if (all_finished jobs g.nodes)
          (λ e.
            schedule_groups-Scheduled h (earlier ++ g ∷ []) gs none_yet
              (order ∙ sym (append_assoc earlier (g ∷ []) gs))
              (All-append _ earlier (g ∷ []) done_before (all_finished-IsDone jobs g.nodes e, tt)))
          (λ _. schedule_group-Scheduled h earlier gs g none_yet order done_before)

    pub schedule_nodes-Trace :
        (h : List Event)
        → created_in h ≤ 0
        → Trace
            (Scheduled plan rollout jobs active)
            ResultAny
            h
            (schedule_nodes namespace plan rollout jobs active)
    unfolding schedule_nodes
    schedule_nodes-Trace h none_yet = schedule_groups-Scheduled h [] rollout.groups none_yet refl tt

module _ {W : Type 0} (world : Handler W) (namespace : String) where
  -- In every world, each job that scheduleNodes creates is that of a node that has none, in a group
  -- that has fewer leases and new jobs together than its concurrency. Every node of each group before
  -- that one in the order has a job in a terminal phase; the delay between nodes is over; and, where
  -- the plan names a Kubernetes version, the node is of the control plane or the jobs of all control
  -- plane nodes are Completed.
  pub schedule_nodes-Scheduled :
      (w : W) (plan : PatchPlan) (rollout : Rollout) (jobs : Dict PatchJob) (active : Dict ℕ)
      → Throughout
          (Scheduled plan rollout jobs active)
          (history world w [] (schedule_nodes namespace plan rollout jobs active))
  unfolding created_in
  schedule_nodes-Scheduled w plan rollout jobs active =
      Trace-history world w at_first
        (schedule_nodes-Trace plan rollout jobs active namespace [] (omega arith))
