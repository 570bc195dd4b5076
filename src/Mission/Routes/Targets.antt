-- ===== src/Mission/Routes/Targets.antt =====
-- What a campaign that was created holds, and that a control has one at a time.
use valsec.Prelude.{
  ℕ, String, Bool, true, false, Option, none, List, [], ◌∷◌, ◌++◌, map, any, keep, ◌≡◌, refl, ap,
  sym, is_empty, ok, is_ok, is_some, if-eq, inl, inr, eq_refl, eq_iff, arith, Bool-cases, All,
  All-append, All-map, ◌&&◌, ◌||◌, ◌==◌, ◌is◌, not, some,
}
use valsec.Compliance.Verdicts.{Verdict, fail, is_fail}
use mathlib.Core.List.{Mem, mem-cons_self, mem-cons_of_mem}
use valsec.Mission.Types.{Node, same_id}
use valsec.Mission.Campaign.{pending_approval, pending}
use valsec.Mission.Routes.Campaigns.{
  ResultFinding, CampaignTarget, CampaignRow, Fleet, is_offered, is_joined, new_target,
  join_targets, is_open_campaign, new_campaign, add_campaign, create_targets, create_campaign,
}

-- The target is new, of a failed finding of the control with a deterministic text, and on the
-- device of a row of the mission whose configuration the finding is of.
abbrev pub IsOffered : List Node → String → String → CampaignTarget → Type 0
IsOffered nodes framework control_id t =
    ((n : Node) × Mem n nodes
      × (n.config_id ≡ some t.finding.config_id)
      × (t.mission_device_id ≡ n.id)
      × (t.device_id ≡ n.device_id))
    × (t.finding.framework ≡ framework)
    × (t.finding.control_id ≡ control_id)
    × (t.finding.verdict ≡ fail)
    × (is_some t.finding.remediation_cli ≡ true)
    × (t.finding.is_remediation_fallback ≡ false)
    × (is_some t.device_id ≡ true)
    × (t.remediation_action ≡ none)
    × (t.status ≡ pending)

fail_verdict : (v : Verdict) → is_fail v ≡ true → v ≡ fail
fail_verdict fail e = refl
fail_verdict _ e = cc

same_id-eq : (a : Option ℕ) (b : ℕ) → same_id a (some b) ≡ true → a ≡ some b
same_id-eq none b e = cc
same_id-eq (some a) b e = ground (arith, e)

new_target_lem :
    (nodes : List Node) (framework control_id : String) (f : ResultFinding) (n : Node)
    → Mem n nodes
    → is_offered framework control_id f ≡ true
    → is_joined f n ≡ true
    → IsOffered nodes framework control_id (new_target f n)
unfolding is_offered is_joined
new_target_lem nodes framework control_id f n row offered joined = (
  (n, row, same_id-eq n.config_id f.config_id (ground (arith, joined)), refl, refl),
  (eq_iff _ _).0 (ground (arith, offered)),
  (eq_iff _ _).0 (ground (arith, offered)),
  fail_verdict f.verdict (ground (arith, offered)),
  ground (arith, offered),
  ground (arith, offered),
  ground (arith, joined),
  refl,
  refl,
)

joined-All :
    (all_nodes : List Node) (framework control_id : String) (f : ResultFinding) (nodes : List Node)
    → ((n : Node) → Mem n nodes → Mem n all_nodes)
    → is_offered framework control_id f ≡ true
    → All (IsOffered all_nodes framework control_id) (map (new_target f) (keep (is_joined f) nodes))
joined-All all_nodes framework control_id f [] within offered = tt
joined-All all_nodes framework control_id f (n ∷ ns) within offered =
    let later =
      joined-All all_nodes framework control_id f ns (λ k k_in. within k (mem-cons_of_mem n k_in))
        offered in
    elim (Bool-cases (is_joined f n)) [
      | inl joined ↦ rw joined (
        new_target_lem all_nodes framework control_id f n (within n mem-cons_self) offered joined,
        later,
      )
      | inr apart ↦ rw apart later
    ]

join_targets-All :
    (framework control_id : String) (nodes : List Node) (fs : List ResultFinding)
    → All (IsOffered nodes framework control_id) (join_targets framework control_id nodes fs)
unfolding join_targets
join_targets-All framework control_id nodes [] = tt
join_targets-All framework control_id nodes (f ∷ fs) =
    let rest = join_targets-All framework control_id nodes fs in
    elim (Bool-cases (is_offered framework control_id f)) [
      | inl offered ↦ rw offered (
          All-append _ (map (new_target f) (keep (is_joined f) nodes)) _
            (joined-All nodes framework control_id f nodes (λ n n_in. n_in) offered) rest)
      | inr other ↦ rw other rest
    ]

-- A target pairs a finding with a row.
abbrev pub pairs : ResultFinding → Node → CampaignTarget → Bool
pairs f n t = t.finding.id == f.id && t.mission_device_id == n.id

-- Each of some rows is paired with a finding.
abbrev HasPairs : ResultFinding → List Node → List CampaignTarget → Type 0
HasPairs f ns targets = All (λ n. any (pairs f n) targets ≡ true) ns

abbrev Paired : List Node → List CampaignTarget → ResultFinding → Type 0
Paired nodes targets f =
    HasPairs f (keep (λ n. same_id n.config_id (some f.config_id) && is_some n.device_id) nodes)
      targets

-- Every row with a device is paired with every finding that is offered of its configuration.
abbrev pub IsComplete :
    String → String → List Node → List ResultFinding → List CampaignTarget → Type 0
IsComplete framework control_id nodes findings targets = All (Paired nodes targets) (
    keep
      (λ f.
        (f.framework is framework)
        && ((f.control_id is control_id)
            && (is_fail f.verdict && (is_some f.remediation_cli && not f.is_remediation_fallback))))
      findings)

any-append-left :
    {A : Type 0} (p : A → Bool) (xs ys : List A) → any p ys ≡ true → any p (xs ++ ys) ≡ true
any-append-left p [] ys h = h
any-append-left p (x ∷ xs) ys h = ground (arith, any-append-left p xs ys h)

any-append-right :
    {A : Type 0} (p : A → Bool) (xs ys : List A) → any p xs ≡ true → any p (xs ++ ys) ≡ true
any-append-right p [] ys h = cc
any-append-right p (x ∷ xs) ys h = ground (arith, h, any-append-right p xs ys)

HasPairs-left :
    (f : ResultFinding) (ns : List Node) (xs ys : List CampaignTarget)
    → HasPairs f ns ys
    → HasPairs f ns (xs ++ ys)
HasPairs-left f ns xs ys h = All-map _ _ ns (λ n e. any-append-left (pairs f n) xs ys e) h

HasPairs-right :
    (f : ResultFinding) (ns : List Node) (xs ys : List CampaignTarget)
    → HasPairs f ns xs
    → HasPairs f ns (xs ++ ys)
HasPairs-right f ns xs ys h = All-map _ _ ns (λ n e. any-append-right (pairs f n) xs ys e) h

pairs_new : (f : ResultFinding) (n : Node) (b : Bool) → (pairs f n (new_target f n) || b) ≡ true
pairs_new f n b = ground arith

new_targets-HasPairs : (f : ResultFinding) (ns : List Node) → HasPairs f ns (map (new_target f) ns)
new_targets-HasPairs f [] = tt
new_targets-HasPairs f (n ∷ ns) = (
  pairs_new f n _,
  HasPairs-left f ns (new_target f n ∷ []) (map (new_target f) ns) (new_targets-HasPairs f ns),
)

join_targets-IsComplete :
    (framework control_id : String) (nodes : List Node) (fs : List ResultFinding)
    → IsComplete framework control_id nodes fs (join_targets framework control_id nodes fs)
unfolding join_targets is_offered is_joined
join_targets-IsComplete framework control_id nodes [] = tt
join_targets-IsComplete framework control_id nodes (f ∷ fs) =
    let rest = join_targets-IsComplete framework control_id nodes fs in
    let made = map (new_target f) (keep (is_joined f) nodes) in
    elim (Bool-cases (
      (f.framework is framework)
      && ((f.control_id is control_id)
          && (is_fail f.verdict
              && (is_some f.remediation_cli && not f.is_remediation_fallback))))) [
                | inr other ↦ rw other rest
                | inl offered ↦ rw offered (
                  HasPairs-right f (keep (is_joined f) nodes) made
                      (join_targets framework control_id nodes fs)
                      (new_targets-HasPairs f (keep (is_joined f) nodes)),
                  All-map _ _ _
                      (λ g h.
                        HasPairs-left g (keep (is_joined g) nodes) made
                          (join_targets framework control_id nodes fs) h)
                      rest,
                )
              ]

any-last :
    {A : Type 0} (p : A → Bool) (xs : List A) (x : A) → p x ≡ true → any p (xs ++ x ∷ []) ≡ true
any-last p [] x h = ground (arith, h)
any-last p (y ∷ ys) x h = ground (arith, any-last p ys x h)

create_targets-refused :
    (control_id : String) (user : Option ℕ) (fleet : Fleet) (targets : List CampaignTarget)
    → any (is_open_campaign fleet.framework control_id) fleet.campaigns ≡ true
    → is_ok (create_targets control_id user fleet targets) ≡ false
unfolding create_targets
create_targets-refused control_id user fleet [] exists_ = refl
create_targets-refused control_id user fleet (first ∷ targets) exists_ = rw exists_ refl

open_campaign :
    (control_id : String) (user : Option ℕ) (fleet : Fleet) (first : CampaignTarget)
    (targets : List CampaignTarget)
    → is_open_campaign fleet.framework control_id (new_campaign control_id user fleet first targets)
      ≡ true
unfolding is_open_campaign
open_campaign control_id user fleet first targets =
    rw (eq_refl fleet.framework, eq_refl control_id) refl

create_targets-ok :
    (control_id : String) (user : Option ℕ) (fleet : Fleet) (targets : List CampaignTarget)
    {fleet' : Fleet}
    → create_targets control_id user fleet targets ≡ ok fleet'
    → (c : CampaignRow) × (add_campaign c fleet ≡ fleet')
      × (is_open_campaign fleet.framework control_id c ≡ true)
      × (c.status ≡ pending_approval)
      × (c.created_by_user_id ≡ user)
      × (is_empty c.targets ≡ false)
      × (c.targets ≡ targets)
unfolding create_targets
create_targets-ok control_id user fleet [] e = cc
create_targets-ok control_id user fleet (first ∷ targets) {fleet'} e =
    elim (if-eq (any (is_open_campaign fleet.framework control_id) fleet.campaigns) e) [
      | inl (exists_, e1) ↦ cc
      | inr (free, e1) ↦ (
        new_campaign control_id user fleet first targets,
        cc,
        open_campaign control_id user fleet first targets,
        refl,
        refl,
        refl,
        refl,
      )
    ]

-- A creation that succeeds appends one campaign, which waits for approval, names the user, and
-- has at least one target. Each target is pending and without an action, and it pairs a device
-- with a finding of the mission's framework and the control that failed and has a remediation
-- text that is no fallback. The device is that of a row of the mission, the finding is of that
-- row's configuration, and every such pair has a target. After it, any creation for the same control is refused.
pub create_campaign-IsOffered :
    (control_id : String) (user again : Option ℕ) (fleet : Fleet) {fleet' : Fleet}
    → create_campaign control_id user fleet ≡ ok fleet'
    → (c : CampaignRow) × (fleet'.campaigns ≡ fleet.campaigns ++ c ∷ [])
      × (c.status ≡ pending_approval)
      × (c.created_by_user_id ≡ user)
      × (is_empty c.targets ≡ false)
      × All (IsOffered fleet.nodes fleet.framework control_id) c.targets
      × IsComplete fleet.framework control_id fleet.nodes fleet.findings c.targets
      × (is_ok (create_campaign control_id again fleet') ≡ false)
unfolding create_campaign
create_campaign-IsOffered control_id user again fleet {fleet'} e =
    let targets = join_targets fleet.framework control_id fleet.nodes fleet.findings in
    let (c, added, still_open, status, by, filled, at) =
      create_targets-ok control_id user fleet targets e in
    let second =
      create_targets-refused control_id again (add_campaign c fleet) _
        (any-last (is_open_campaign fleet.framework control_id) fleet.campaigns c still_open) in
    (
      c,
      ap (λ f. f.campaigns) (sym added),
      status,
      by,
      filled,
      rw at (join_targets-All fleet.framework control_id fleet.nodes fleet.findings),
      rw at (join_targets-IsComplete fleet.framework control_id fleet.nodes fleet.findings),
      rw (← added) second,
    )
