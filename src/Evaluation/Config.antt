-- ===== src/Evaluation/Config.antt =====
-- src/contexts/evaluation/domain/display_config.rs and the two entry points of
-- display_config/render.rs: the tokens of the display, compiled.
use merge_ready.Prelude.{Text, codes, Option, none, some, [], ◌∷◌, Result, ok, Panic, ◌>>=◌}
use merge_ready.Evaluation.Style.{StyleSpec}
use merge_ready.Evaluation.Token.{CompiledSegments, compile_segments, eval_segments, Vars}
use merge_ready.Evaluation.Display.{
  DisplayItem, conflict, update_branch, sync_unknown, ci_fail, ci_action, ci_pending,
  changes_requested, review_required, ready_to_merge, draft, status_calculating, blocked_unknown,
}

pub record TokenConfig : Type 0 where
  pub symbol : Text
  pub label : Text
  pub format : Text

pub record ErrorConfig : Type 0 where
  pub symbol : Text
  pub format : Text

-- The field `merge_ready` is `ready_to_merge` here.
pub record DisplayConfig : Type 0 where
  pub ready_to_merge : TokenConfig
  pub no_pull_request : TokenConfig
  pub conflict : TokenConfig
  pub update_branch : TokenConfig
  pub sync_unknown : TokenConfig
  pub ci_fail : TokenConfig
  pub ci_action : TokenConfig
  pub ci_pending : TokenConfig
  pub changes_requested : TokenConfig
  pub review_required : TokenConfig
  pub draft : TokenConfig
  pub status_calculating : TokenConfig
  pub blocked_unknown : TokenConfig
  pub error : ErrorConfig

pub record CompiledTokenConfig : Type 0 where
  pub symbol : Text
  pub label : Text
  pub segments : CompiledSegments

pub record CompiledErrorConfig : Type 0 where
  pub symbol : Text
  pub segments : CompiledSegments

pub record CompiledDisplayConfig : Type 0 where
  pub ready_to_merge : CompiledTokenConfig
  pub no_pull_request : CompiledTokenConfig
  pub conflict : CompiledTokenConfig
  pub update_branch : CompiledTokenConfig
  pub sync_unknown : CompiledTokenConfig
  pub ci_fail : CompiledTokenConfig
  pub ci_action : CompiledTokenConfig
  pub ci_pending : CompiledTokenConfig
  pub changes_requested : CompiledTokenConfig
  pub review_required : CompiledTokenConfig
  pub draft : CompiledTokenConfig
  pub status_calculating : CompiledTokenConfig
  pub blocked_unknown : CompiledTokenConfig
  pub error : CompiledErrorConfig

-- `TokenConfig::compile`, `ErrorConfig::compile` and `DisplayConfig::compile`: a style that panics
-- makes the whole panic.
unfoldable pub compile_token : TokenConfig → Result Panic CompiledTokenConfig
compile_token t = do
  s ← compile_segments t.format
  ok (record { symbol = t.symbol; label = t.label; segments = s })

unfoldable pub compile_error : ErrorConfig → Result Panic CompiledErrorConfig
compile_error t = do s ← compile_segments t.format; ok (record { symbol = t.symbol; segments = s })

unfoldable pub compile : DisplayConfig → Result Panic CompiledDisplayConfig
compile c = do
  a ← compile_token c.ready_to_merge
  b ← compile_token c.no_pull_request
  d ← compile_token c.conflict
  e ← compile_token c.update_branch
  f ← compile_token c.sync_unknown
  g ← compile_token c.ci_fail
  h ← compile_token c.ci_action
  i ← compile_token c.ci_pending
  j ← compile_token c.changes_requested
  k ← compile_token c.review_required
  l ← compile_token c.draft
  m ← compile_token c.status_calculating
  n ← compile_token c.blocked_unknown
  o ← compile_error c.error
  ok (record {
    ready_to_merge = a;
    no_pull_request = b;
    conflict = d;
    update_branch = e;
    sync_unknown = f;
    ci_fail = g;
    ci_action = h;
    ci_pending = i;
    changes_requested = j;
    review_required = k;
    draft = l;
    status_calculating = m;
    blocked_unknown = n;
    error = o;
  })

abbrev pr_ids_var : Option Text → Vars
pr_ids_var none = []
pr_ids_var (some ids) = (codes "pr_ids", ids) ∷ []

module _ (paint : StyleSpec → Text → Text) where
  unfoldable pub render_token : CompiledTokenConfig → Option Text → Text
  render_token token pr_ids =
      eval_segments paint
        ((codes "symbol", token.symbol) ∷ (codes "label", token.label) ∷ pr_ids_var pr_ids)
        token.segments

  unfoldable pub render_error_token : CompiledErrorConfig → Text → Text
  render_error_token config message =
      eval_segments paint ((codes "symbol", config.symbol) ∷ (codes "message", message) ∷ [])
        config.segments

-- `item_to_token` of interface/prompt.rs
unfoldable pub item_to_token : DisplayItem → CompiledDisplayConfig → CompiledTokenConfig
item_to_token ready_to_merge c = c.ready_to_merge
item_to_token conflict c = c.conflict
item_to_token update_branch c = c.update_branch
item_to_token sync_unknown c = c.sync_unknown
item_to_token ci_fail c = c.ci_fail
item_to_token ci_action c = c.ci_action
item_to_token ci_pending c = c.ci_pending
item_to_token changes_requested c = c.changes_requested
item_to_token review_required c = c.review_required
item_to_token draft c = c.draft
item_to_token status_calculating c = c.status_calculating
item_to_token blocked_unknown c = c.blocked_unknown
