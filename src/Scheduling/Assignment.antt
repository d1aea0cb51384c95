-- ===== src/Scheduling/Assignment.antt =====
-- internal/scheduling/scheduling.go: which group Resolve gives a node to.
use kangal_patch.Prelude.{
  ◌≡◌, refl, sym, ap, ◌∙◌, Bool, false, not, ◌&&◌, ◌||◌, String, List, [], ◌∷◌, member, same, All,
  All-imp, All-both, same_self, or_comm, or_swap, or_false, keep-same, map, keep, any, length,
  arith, if◌then◌else◌,
}
use kangal_patch.Api.Kube.{Node, Result, ok, err, err-ne-ok, ok-injective}
use kangal_patch.Api.Plan.{PatchPlanSpec}
use kangal_patch.Libs.{Libs}
use kangal_patch.Scheduling.{
  Group, Rollout, GroupMatcher, matches, claim_nodes, claim_groups, assign_nodes, compile_groups,
  order_of, resolve, rollout_with,
}
use kangal_patch.Scheduling.Sorting.{Distinct, same_comm, selected_nodes, selected_nodes-Distinct}

-- Whether the name is recorded as claimed exactly where `f` says so.
abbrev Agrees : (Node → Bool) → List String → List Node → Type 0
Agrees f claimed = All (λ n. member n.name claimed ≡ f n)

untouched :
    (b : Bool) (name other : String) (claimed : List String)
    → same name other ≡ false
    → member other (if b then name ∷ claimed else claimed) ≡ member other claimed
untouched b name other claimed h = ground arith

module _ (lib : Libs) (m : GroupMatcher) where
  -- The nodes of a list that bears no name twice, and the names that are claimed after the loop.
  record Claims (f : Node → Bool) (claimed : List String) (ns : List Node) : Type 0 where
    taken : (claim_nodes lib m claimed ns).0 ≡ keep (λ n. not (f n) && matches lib m n) ns
    after : Agrees (λ n. f n || matches lib m n) (claim_nodes lib m claimed ns).1 ns
    others :
        (x : String)
        → All (λ n. same n.name x ≡ false) ns
        → member x (claim_nodes lib m claimed ns).1 ≡ member x claimed

  -- One round of the loop.
  Claims-next :
      (f : Node → Bool) (claimed : List String) (n : Node) (ns : List Node)
      → All (λ o. same n.name o.name ≡ false) ns
      → member n.name claimed ≡ f n
      → Claims f
          (if not (member n.name claimed) && matches lib m n then n.name ∷ claimed else claimed)
          ns
      → Claims f claimed (n ∷ ns)
  unfolding claim_nodes
  Claims-next f claimed n ns apart agree rest = record {
    taken = rw (rest.taken, agree);
    after = (
      rest.others n.name (All-imp _ _ ns (λ o e. same_comm n.name o.name e) apart) ∙ here,
      rest.after,
    );
    others = λ x q. rest.others x q.1 ∙ untouched _ n.name x claimed q.0;
  }
    where
      here :
          member n.name
            (if not (member n.name claimed) && matches lib m n then n.name ∷ claimed else claimed)
          ≡ (f n || matches lib m n)
      here = ground (arith, agree, same_self n.name)

  claim_nodes-Claims :
      (f : Node → Bool) (claimed : List String) (ns : List Node)
      → Distinct ns
      → Agrees f claimed ns
      → Claims f claimed ns
  unfolding claim_nodes
  claim_nodes-Claims f claimed [] d h = record { taken = refl; after = tt; others = λ x q. refl }
  claim_nodes-Claims f claimed (n ∷ ns) d h = Claims-next f claimed n ns d.0 h.0 (
      claim_nodes-Claims f
        (if not (member n.name claimed) && matches lib m n then n.name ∷ claimed else claimed) ns
        d.1 (All-both _ _ _ ns (λ o e a. untouched _ n.name o.name claimed e ∙ a) d.0 h.1))

-- The groups by their definition: each has the nodes that it matches and no earlier group does.
abbrev pub owned : Libs → List GroupMatcher → Node → Bool
owned lib earlier n = any (λ m. matches lib m n) earlier

abbrev pub first_matches : Libs → List GroupMatcher → List GroupMatcher → List Node → List Group
first_matches lib earlier [] nodes = []
first_matches lib earlier (m ∷ ms) nodes =
    record {
      name = m.name;
      concurrency = m.concurrency;
      nodes = keep (λ n. not (owned lib earlier n) && matches lib m n) nodes;
    }
    ∷ first_matches lib (m ∷ earlier) ms nodes

-- The matchers, latest first, when the loop has run.
abbrev pub behind : List GroupMatcher → List GroupMatcher → List GroupMatcher
behind earlier [] = earlier
behind earlier (m ∷ ms) = behind (m ∷ earlier) ms

module _ (lib : Libs) where
  claim_groups-first_matches :
      (earlier ms : List GroupMatcher) (claimed : List String) (ns : List Node)
      → Distinct ns
      → Agrees (owned lib earlier) claimed ns
      → ((claim_groups lib ms claimed ns).0 ≡ first_matches lib earlier ms ns)
        × Agrees (owned lib (behind earlier ms)) (claim_groups lib ms claimed ns).1 ns
  unfolding claim_groups
  claim_groups-first_matches earlier [] claimed ns d h = (refl, h)
  claim_groups-first_matches earlier (m ∷ ms) claimed ns d h =
      let one = claim_nodes-Claims lib m (owned lib earlier) claimed ns d h in
      let all =
        claim_groups-first_matches (m ∷ earlier) ms (claim_nodes lib m claimed ns).1 ns d
          (All-imp _ _ ns (λ n e. e ∙ or_comm (owned lib earlier n) (matches lib m n)) one.after) in
      (rw (one.taken, all.0), all.1)

  behind-owned :
      (earlier ms : List GroupMatcher) (n : Node)
      → owned lib (behind earlier ms) n ≡ (any (λ m. matches lib m n) ms || owned lib earlier n)
  behind-owned earlier [] n = refl
  behind-owned earlier (m ∷ ms) n =
      behind-owned (m ∷ earlier) ms n
      ∙ or_swap (any (λ k. matches lib k n) ms) (matches lib m n) (owned lib earlier n)

  assign_nodes-first_matches :
      (ms : List GroupMatcher) (ns : List Node)
      → Distinct ns
      → assign_nodes lib ms ns ≡ record {
        groups = first_matches lib [] ms ns;
        selected = length ns;
        unassigned = map (λ n. n.name) (keep (λ n. not (owned lib ms n)) ns);
      }
  unfolding assign_nodes
  assign_nodes-first_matches ms ns d =
      let (same_groups, agree) = claim_groups-first_matches [] ms [] ns d (nothing_claimed ns) in
      rw (
        same_groups,
        keep-same _ (λ n. not (owned lib ms n)) ns
            (All-imp _ _ ns (λ n e. ap not (e ∙ behind-owned [] ms n ∙ or_false _)) agree),
      )
    where
      nothing_claimed : (ns : List Node) → Agrees (owned lib []) [] ns
      nothing_claimed [] = tt
      nothing_claimed (n ∷ ns) = (refl, nothing_claimed ns)

  -- A rollout divides the selected nodes, sorted and once each: a group has those that it matches and
  -- no earlier group of the order does, and what no group matches is unassigned.
  pub resolve-first_matches :
      (nodes : List Node) (spec : PatchPlanSpec) (r : Rollout)
      → resolve lib nodes spec ≡ ok r
      → (ms : List GroupMatcher) × (compile_groups lib (order_of spec) spec.groups ≡ ok ms)
        × (r ≡ record {
          groups = first_matches lib [] ms (selected_nodes nodes);
          selected = length (selected_nodes nodes);
          unassigned = map (λ n. n.name) (keep (λ n. not (owned lib ms n)) (selected_nodes nodes));
        })
  unfolding resolve
  resolve-first_matches nodes spec r h =
      split (compile_groups lib (order_of spec) spec.groups) refl h
    where
      split :
          (c : Result (List GroupMatcher))
          → compile_groups lib (order_of spec) spec.groups ≡ c
          → rollout_with lib nodes c ≡ ok r
          → (ms : List GroupMatcher) × (compile_groups lib (order_of spec) spec.groups ≡ ok ms)
            × (r ≡ record {
              groups = first_matches lib [] ms (selected_nodes nodes);
              selected = length (selected_nodes nodes);
              unassigned =
                  map (λ n. n.name) (keep (λ n. not (owned lib ms n)) (selected_nodes nodes));
            })
      split (err e) eq k = absurd (err-ne-ok k)
      split (ok ms) eq k = (
        ms,
        eq,
        sym (ok-injective k)
            ∙ assign_nodes-first_matches ms (selected_nodes nodes) (selected_nodes-Distinct nodes),
      )
