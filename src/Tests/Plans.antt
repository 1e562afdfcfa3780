-- ===== src/Tests/Plans.antt =====
-- A message with two plans, of which the last counts.
use peek_mcp.Prelude.{◌≡◌, refl, List, [], ◌∷◌, ◌++◌, String, true}
use peek_mcp.Prelude.Text.{trim_space}
use peek_mcp.Codex.Plan.{cut_plan, join_lines, plan_of_lines}
use peek_mcp.Codex.Plan.Last.{opens, closes, NoneOpens, NoneCloses, plan_of_lines-last}

abbrev before : List String
before = "Two drafts:" ∷ "<proposed_plan>" ∷ "old" ∷ "</proposed_plan>" ∷ []

abbrev plan : List String
plan = "1. read" ∷ "2. write" ∷ []

abbrev after : List String
after = "Shall I?" ∷ "</proposed_plan>" ∷ []

tag-opens : opens " <proposed_plan>" ≡ true
unfolding trim_space
tag-opens = refl

tag-closes : closes "</proposed_plan>" ≡ true
unfolding trim_space
tag-closes = refl

plan-NoneOpens : NoneOpens plan
unfolding trim_space
plan-NoneOpens = (refl, (refl, tt))

plan-NoneCloses : NoneCloses plan
unfolding trim_space
plan-NoneCloses = (refl, (refl, tt))

after-NoneOpens : NoneOpens after
unfolding trim_space
after-NoneOpens = (refl, (refl, tt))

plan_of_lines-last_example :
    plan_of_lines (before ++ " <proposed_plan>" ∷ (plan ++ "</proposed_plan>" ∷ after))
    ≡ cut_plan (join_lines plan)
plan_of_lines-last_example =
    plan_of_lines-last before plan after " <proposed_plan>" "</proposed_plan>" tag-opens tag-closes
      plan-NoneOpens plan-NoneCloses after-NoneOpens
