-- ===== src/Drain/Evictions.antt =====
-- internal/drain/drain.go: which pods DrainNode evicts or deletes, and when.
use mathlib.Core.List.{Mem, mem-cons_self, mem-cons_of_mem}
use kangal_patch.Prelude.{
  ◌≡◌, refl, sym, ap, ◌∙◌, ◌||◌, if◌then◌else◌, Bool, true, false, not, String, List, [], ◌∷◌, keep,
  is_empty, All, All-imp, All-both, subst, keep-All, Bool-cases, not-false, true_apart, inl, inr,
}
use kangal_patch.Api.Kube.{
  Pod, Error, ErrorKind, Result, ok, err, ok-injective, err-ne-ok, not_found, too_many_requests,
}
use kangal_patch.Effect.Request.{Request, list_pods_on_node, evict_pod, delete_pod}
use kangal_patch.Effect.Trace.{
  Event, Answered, just_answered, Answered-Later, Later, now_or, after, Trace, stops, asks,
  Trace-bind, Trace-if, Trace-on_err,
}
use kangal_patch.Drain.{
  DrainOptions, list_pods, ignore_not_found, force_delete_pod, eviction_refused, evict, evict_all,
  drain_node,
}
use kangal_patch.Drain.Pods.{should_evict_pod, is_unmanaged}

-- The pod was listed on the node and should be evicted; it has a controller, unless pods without one
-- may be lost.
pub record Evictable (name : String) (evict_unmanaged : Bool) (pod : Pod) (h : List Event)
    : Type 0 where
  pub pods : List Pod
  pub listed : Answered (list_pods_on_node name) (ok pods) h
  pub member : Mem pod pods
  pub wanted : should_evict_pod pod ≡ true
  pub managed : evict_unmanaged ≡ false → is_unmanaged pod ≡ false

-- The eviction of the pod was refused by a PodDisruptionBudget.
pub record Refused (pod : Pod) (h : List Event) : Type 0 where
  pub error : Error
  pub refusal : Answered (evict_pod pod) (err error) h
  pub budget : error.kind ≡ too_many_requests

-- What DrainNode may ask for: the pods of its node, their evictions, and deletions only of pods whose
-- eviction a budget refused, where budgets are not respected.
abbrev pub Evicts : String → Bool → Bool → List Event → Request → Type 0
Evicts name respect_pdbs unmanaged h (list_pods_on_node n) = n ≡ name
Evicts name respect_pdbs unmanaged h (evict_pod pod) = Evictable name unmanaged pod h
Evicts name respect_pdbs unmanaged h (delete_pod pod) =
    Evictable name unmanaged pod h × Refused pod h × (respect_pdbs ≡ false)
Evicts name respect_pdbs unmanaged h _ = ⊥

-- A drain is blocked only where budgets are respected.
abbrev pub Blocked : Bool → List Event → Result Bool → Type 0
Blocked respect_pdbs h r = r ≡ ok true → respect_pdbs ≡ true

All-mem : {A : Type 0} (xs : List A) → All (λ x. Mem x xs) xs
All-mem [] = tt
All-mem (x ∷ xs) = (mem-cons_self, All-imp _ _ xs (λ y m. mem-cons_of_mem x m) (All-mem xs))

keep-All_of :
    {A : Type 0} (P : A → Type 0) (p : A → Bool) (xs : List A) → All P xs → All P (keep p xs)
keep-All_of P p [] h = tt
keep-All_of P p (x ∷ xs) h = elim (Bool-cases (p x)) [
  | inl e ↦ rw e (h.0, keep-All_of P p xs h.1)
  | inr e ↦ rw e (keep-All_of P p xs h.1)
]

empty_if :
    {A : Type 0} (b : Bool) (x : A) (xs : List A)
    → is_empty (if b then x ∷ xs else xs) ≡ true
    → (b ≡ false) × (is_empty xs ≡ true)
empty_if true x xs h = elim (true_apart (sym h)) [ ]
empty_if false x xs h = (refl, h)

-- No element is kept: none passes the test.
keep-empty :
    {A : Type 0} (p : A → Bool) (xs : List A)
    → is_empty (keep p xs) ≡ true
    → All (λ x. p x ≡ false) xs
keep-empty p [] h = tt
keep-empty p (x ∷ xs) h =
    let step = empty_if (p x) x (keep p xs) h in (step.0, keep-empty p xs step.1)

Evictable-Later :
    {name : String} {unmanaged : Bool} {pod : Pod} {h h' : List Event}
    → Later h h'
    → Evictable name unmanaged pod h
    → Evictable name unmanaged pod h'
Evictable-Later l e = record {
  pods = e.pods;
  listed = Answered-Later l e.listed;
  member = e.member;
  wanted = e.wanted;
  managed = e.managed;
}

module _ (name : String) (opts : DrainOptions) where
  unblocked : ok false ≡ ok true → opts.respect_pdbs ≡ true
  unblocked e = elim (true_apart (sym (ok-injective e))) [ ]

  refused-Evicts :
      (h : List Event) (pod : Pod) (e : Error) (kind : ErrorKind)
      → e.kind ≡ kind
      → Evictable name opts.evict_unmanaged pod h
      → Answered (evict_pod pod) (err e) h
      → Trace
          (Evicts name opts.respect_pdbs opts.evict_unmanaged)
          (Blocked opts.respect_pdbs)
          h
          (eviction_refused pod opts e kind)
  unfolding eviction_refused force_delete_pod
  refused-Evicts h pod e not_found is evictable refusal = stops unblocked
  refused-Evicts h pod e too_many_requests is evictable refusal =
      Trace-if opts.respect_pdbs (λ respected. stops λ _. respected)
        λ ignored.
          asks (evictable, record { error = e; refusal = refusal; budget = is }, ignored)
            λ deleted.
              Trace-bind
                (Trace-on_err {Q = λ h' x. Unit} (ignore_not_found deleted) (λ _ _. stops tt)
                  (λ _ _. stops tt))
                λ _ x _ _.
                  Trace-on_err x (λ _ _. stops λ f. elim (err-ne-ok f) [ ]) (λ _ _. stops unblocked)
  refused-Evicts h pod e _ is evictable refusal = stops λ f. elim (err-ne-ok f) [ ]

  evict-Evicts :
      (h : List Event) (pod : Pod)
      → Evictable name opts.evict_unmanaged pod h
      → Trace
          (Evicts name opts.respect_pdbs opts.evict_unmanaged)
          (Blocked opts.respect_pdbs)
          h
          (evict pod opts)
  unfolding evict
  evict-Evicts h pod evictable = asks evictable λ evicted.
      Trace-on_err evicted
        (λ e is.
          refused-Evicts _ pod e e.kind refl (Evictable-Later (after now_or) evictable)
            (just_answered evicted is))
        (λ _ _. stops unblocked)

  or_blocked :
      (a b c : Bool) → (a ≡ true → c ≡ true) → (b ≡ true → c ≡ true) → (a || b) ≡ true → c ≡ true
  or_blocked true b c f g h = f refl
  or_blocked false b c f g h = g h

  evict_all-Evicts :
      (h : List Event) (pods : List Pod) (blocked : Bool)
      → (blocked ≡ true → opts.respect_pdbs ≡ true)
      → All (λ pod. Evictable name opts.evict_unmanaged pod h) pods
      → Trace
          (Evicts name opts.respect_pdbs opts.evict_unmanaged)
          (Blocked opts.respect_pdbs)
          h
          (evict_all pods opts blocked)
  unfolding evict_all
  evict_all-Evicts h [] blocked so_far evictable = stops λ e. so_far (ok-injective e)
  evict_all-Evicts h (pod ∷ pods) blocked so_far evictable =
      Trace-bind (evict-Evicts h pod evictable.0) λ h' evicted later respected.
        Trace-on_err evicted (λ e _. stops λ f. elim (err-ne-ok f) [ ])
          λ pod_blocked is.
            evict_all-Evicts h' pods (blocked || pod_blocked)
              (or_blocked blocked pod_blocked _ so_far (λ e. respected (is ∙ ap ok e)))
              (All-imp _ _ pods (λ p e. Evictable-Later later e) evictable.1)

module _ (name : String) (opts : DrainOptions) where
  -- What listPods returns was listed on the node and passes the test.
  Found : List Event → Result (List Pod) → Type 0
  Found h r = (pods : List Pod) → r ≡ ok pods → All (λ pod. Evictable name true pod h) pods

  list_pods-Found :
      (h : List Event)
      → Trace
          (Evicts name opts.respect_pdbs opts.evict_unmanaged)
          Found
          h
          (list_pods name should_evict_pod)
  unfolding list_pods Found
  list_pods-Found h = asks refl λ got.
      Trace-on_err got (λ e _. stops λ pods f. elim (err-ne-ok f) [ ])
        λ pods is. stops λ kept f. subst (All (λ pod. Evictable name true pod _)) (ok-injective f) (
          All-both _ _ _ (keep should_evict_pod pods)
            (λ pod member wanted. record {
              pods = pods;
              listed = just_answered got is;
              member = member;
              wanted = wanted;
              managed = λ e. elim (true_apart e) [ ];
            })
            (keep-All_of _ should_evict_pod pods (All-mem pods)) (keep-All should_evict_pod pods))

  managed_too :
      {h : List Event} {pod : Pod}
      → Evictable name true pod h
      → (opts.evict_unmanaged ≡ false → is_unmanaged pod ≡ false)
      → Evictable name opts.evict_unmanaged pod h
  managed_too e managed = record {
    pods = e.pods;
    listed = e.listed;
    member = e.member;
    wanted = e.wanted;
    managed = managed;
  }

  -- In every world, DrainNode evicts only pods that were listed on its node and should be evicted,
  -- none without a controller unless those may be lost, and it deletes a pod only after a
  -- PodDisruptionBudget refused its eviction, where budgets are not respected. It is blocked only
  -- where budgets are respected.
  pub drain_node-Evicts :
      (h : List Event)
      → Trace
          (Evicts name opts.respect_pdbs opts.evict_unmanaged)
          (Blocked opts.respect_pdbs)
          h
          (drain_node name opts)
  unfolding drain_node Found
  drain_node-Evicts h = Trace-bind (list_pods-Found h) λ h' listed _ found.
      Trace-on_err listed (λ e _. stops λ f. elim (err-ne-ok f) [ ])
        λ pods is.
          Trace-if (is_empty pods) (λ _. stops (unblocked name opts))
            λ _.
              Trace-if (not opts.evict_unmanaged)
                (λ strict.
                  Trace-if (is_empty (keep is_unmanaged pods))
                    (λ none_bare.
                      evict_all-Evicts name _ h' pods false (λ e. elim (true_apart (sym e)) [ ])
                        (All-both _ _ _ pods (λ pod e managed. managed_too e (λ _. managed))
                          (found pods is) (keep-empty is_unmanaged pods none_bare)))
                    (λ _. stops λ f. elim (err-ne-ok f) [ ]))
                (λ lax.
                  evict_all-Evicts name _ h' pods false (λ e. elim (true_apart (sym e)) [ ])
                    (All-imp _ _ pods
                      (λ pod e.
                        managed_too e (λ f. elim (true_apart (sym (not-false _ lax) ∙ f)) [ ]))
                      (found pods is)))
