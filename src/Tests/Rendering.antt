-- ===== src/Tests/Rendering.antt =====
-- Runs of the rendering of prompts.
use merge_ready.Prelude.{ℕ, [], ◌∷◌, Permᴰ, ok, ◌≡◌, ◌≢◌, refl, arith}
use merge_ready.Evaluation.State.{pull_requests}
use merge_ready.Evaluation.Display.{draft, ci_pending}
use merge_ready.Evaluation.Render.{render, Items, group_by_display_item}
use merge_ready.Evaluation.Render.Order.{render-perm}
use merge_ready.Evaluation.Render.Grouping.{ids_of, showing, ids_of-group_by_display_item}
use merge_ready.Tests.EvaluationData.{plain_paint, pending_pr, ready_pr, display}

seven_not_three : ◌≢◌ {A = ℕ} 7 3
seven_not_three e = omega (arith, e)

render-perm_example :
    render plain_paint display (ok (pull_requests (pending_pr ∷ ready_pr ∷ [])))
    ≡ render plain_paint display (ok (pull_requests (ready_pr ∷ pending_pr ∷ [])))
render-perm_example =
    render-perm plain_paint display (Permᴰ.swap refl refl) ((seven_not_three, tt), (tt, tt))

abbrev items : Items
items = (3, draft ∷ []) ∷ (4, ci_pending ∷ draft ∷ []) ∷ []

ids_of-group_by_display_item_example :
    ids_of draft (group_by_display_item items) ≡ showing draft items
ids_of-group_by_display_item_example = ids_of-group_by_display_item draft items
