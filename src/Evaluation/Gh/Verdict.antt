-- ===== src/Evaluation/Gh/Verdict.antt =====
-- src/contexts/evaluation/infrastructure/gh.rs, evaluate_single_pr, and gh/mapper.rs: the verdict
-- on a pull request as a whole.
use merge_ready.Prelude.{
  ℕ, Text, codes, eqb, Bool, true, false, not, ◌&&◌, ◌||◌, Option, none, some, List, any, is_some,
  if◌then◌else◌, ◌==◌, ◌≡◌, refl, sym, ◌∙◌, ◌↔◌, arith, Permᴰ, Bool-cases, inl, inr, subst,
  eqb_sound,
}
use merge_ready.Evaluation.State.{
  CiState, UnblockedState, State, evaluate, calculating, unblocked, without_blocker,
}
use merge_ready.Evaluation.Gh.{
  CheckBucket, GhPrNode, translate_sync, needs_compare, translate_review, translate_unblocked,
  is_failure, is_action, is_pending, aggregate_ci, ci_from_node, evaluate_single_pr,
}

any-perm : {A : Type 0} (p : A → Bool) {l m : List A} → Permᴰ l m → any p l ≡ any p m
any-perm p Permᴰ.nil = refl
any-perm p (Permᴰ.cons e q) = λ i. p (e i) || any-perm p q i
any-perm p (Permᴰ.swap {a = a} {b = b} {l = l} e f) =
    swap_tests ∙ (λ i. p (f i) || (p (e i) || any p l))
  where
    swap_tests : (p a || (p b || any p l)) ≡ (p b || (p a || any p l))
    swap_tests = ground arith
any-perm p (Permᴰ.trans q r) = any-perm p q ∙ any-perm p r

-- The state that a list of check results amounts to does not depend on their order.
pub aggregate_ci-perm :
    {buckets others : List CheckBucket}
    → Permᴰ buckets others
    → aggregate_ci buckets ≡ aggregate_ci others
unfolding aggregate_ci
aggregate_ci-perm p = λ i.
    if any-perm is_failure p i
    then some CiState.fail
    else if any-perm is_action p i
    then some CiState.action_required
    else if any-perm is_pending p i
    then some CiState.pending
    else none

-- The state of a pull request if the branches were compared in every case.
pub always_compared : (Text → Text → Option ℕ) → GhPrNode → State
always_compared fetch_behind_by node =
    evaluate (translate_sync node.mergeable (fetch_behind_by node.base_ref_name node.head_ref_name))
      (ci_from_node node) (translate_review node.review_decision)
      (translate_unblocked node.is_draft node.merge_state_status)

pub is_undecided : GhPrNode → Bool
is_undecided node =
    eqb node.merge_state_status (codes "MERGE_STATE_UNKNOWN")
    || eqb node.merge_state_status (codes "UNKNOWN")

-- Leaving out the compare call where a conflict is known changes no state: it is that of a pull
-- request whose branches are compared, unless GitHub has not decided on the merge state.
pub state-evaluate_single_pr :
    (fetch_behind_by : Text → Text → Option ℕ) (node : GhPrNode)
    → (evaluate_single_pr fetch_behind_by node).state
      ≡ (if is_undecided node then calculating else always_compared fetch_behind_by node)
unfolding evaluate_single_pr always_compared is_undecided needs_compare translate_sync
state-evaluate_single_pr fetch_behind_by node = ground arith

undecided_of : Text → Bool
undecided_of t = eqb t (codes "MERGE_STATE_UNKNOWN") || eqb t (codes "UNKNOWN")

passing_of : Text → Bool
passing_of t = eqb t (codes "CLEAN") || eqb t (codes "HAS_HOOKS")

clean_decided : undecided_of (codes "CLEAN") ≡ false
unfolding eqb undecided_of
clean_decided = refl

hooks_decided : undecided_of (codes "HAS_HOOKS") ≡ false
unfolding eqb undecided_of
hooks_decided = refl

passing_decided : (t : Text) → passing_of t ≡ true → undecided_of t ≡ false
unfolding passing_of undecided_of
passing_decided t h = elim (Bool-cases (eqb t (codes "CLEAN"))) [
  | inl e ↦ subst (λ u. undecided_of u ≡ false) (sym (eqb_sound t (codes "CLEAN") e)) clean_decided
  | inr n ↦
      subst (λ u. undecided_of u ≡ false) (sym (eqb_sound t (codes "HAS_HOOKS") (ground arith)))
        hooks_decided
]

-- Everything that lets a pull request be merged.
pub is_mergeable : (Text → Text → Option ℕ) → GhPrNode → Bool
is_mergeable fetch_behind_by node =
    not node.is_draft
    && (eqb node.merge_state_status (codes "CLEAN")
        || eqb node.merge_state_status (codes "HAS_HOOKS"))
    && not (eqb node.mergeable (codes "CONFLICTING"))
    && elim (fetch_behind_by node.base_ref_name node.head_ref_name) [
      | none ↦ false
      | some n ↦ n == 0
    ]
    && not (is_some (ci_from_node node))
    && not (is_some (translate_review node.review_decision))

-- A pull request is ready to merge if and only if it is no draft, GitHub reports it clean or with
-- hooks and without conflicts, its branch is compared and not behind, no check fails, needs action
-- or is pending, and no review is missing or asks for changes.
pub ready_iff :
    (fetch_behind_by : Text → Text → Option ℕ) (node : GhPrNode)
    → (evaluate_single_pr fetch_behind_by node).state ≡ unblocked UnblockedState.ready_to_merge
      ↔ is_mergeable fetch_behind_by node ≡ true
unfolding evaluate_single_pr is_mergeable needs_compare translate_sync translate_unblocked evaluate
    without_blocker passing_of undecided_of
ready_iff fetch_behind_by node = ground (arith, passing_decided node.merge_state_status)
