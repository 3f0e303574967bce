-- ===== src/AgenticLoop/Tests.antt =====
-- A cycle that refines once.
use crewai_go.Base.{
  ℕ, zero, suc, ◌≤◌, ◌≡◌, refl, true, false, some, [], str_eq, ◌==◌, if◌then◌else◌,
}
use crewai_go.Base.Int.{pos}
use crewai_go.Base.Result.{ok}
use crewai_go.AgenticLoop.{Options, Evaluation, World, run}
use crewai_go.AgenticLoop.Passes.{Passed, run_passes}
use crewai_go.AgenticLoop.Bounds.{refinements, evaluations, run_bounded}

-- The first output scores 10, the next one 90.
abbrev scored : ℕ → Evaluation
scored zero = record { score = some (pos 10); feedback = "short" }
scored (suc n) = record { score = some (pos 90); feedback = "" }

abbrev world : World ℕ
world = record {
  ctx_done = λ i. false;
  has_tools = false;
  planner = λ w c. (w, ok "");
  execute = λ w c. (suc w, ok ("draft", []));
  evaluator = λ w output. (w, ok (if◌then◌else◌ (w == 1) "low" "high"));
  repair = λ w raw. (w, ok raw);
  rewriter = λ w output prompt. (w, ok output);
  unmarshal = λ raw. some (if◌then◌else◌ (str_eq raw "low") (scored 0) (scored 1));
  refine_prompt = λ feedback score threshold. feedback;
  trim = λ s. s;
  strip_final = λ s. s;
  join = λ a b. b;
}

abbrev plain : Options
plain = record {
  max_refinements = pos 0;
  pass_threshold = pos 0;
  skip_plan = true;
  rewrite_only = false;
}

run-plain : (run world plain 0 "").1 ≡ ok "draft"
unfolding run
run-plain = refl

run_passes_example : Passed world 70 "draft"
run_passes_example = run_passes world plain 0 "" run-plain

run_bounded_example :
    (refinements (run world plain 0 "").0.phases ≤ 2)
    × (evaluations (run world plain 0 "").0.phases ≤ 3)
run_bounded_example = run_bounded world plain 0 ""
