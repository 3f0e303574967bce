-- ===== src/Crew/Group/Tests.antt =====
-- Groups of two workers.
use crewai_go.Base.{zero, suc, true, false, none, some, [], ◌∷◌, ◌≡◌, refl, subst}
use crewai_go.Memory.Policy.{new_policy, save_entry, auto_save_entry}
use crewai_go.Crew.{Task, add_warnings, context_text}
use crewai_go.Crew.Samples.{ada, bob, swapped_host, opened, first_task, second_task, wave_crew}
use crewai_go.Crew.Context.{is_in}
use crewai_go.Crew.Execute.{execute}
use crewai_go.Crew.Execute.Steady.{IsSteady}
use crewai_go.Crew.Group.{Group, run_task_group}
use crewai_go.Crew.Group.Results.{HasSucceeded}
use crewai_go.Crew.Group.Success.{run_task_group_succeeds}
use crewai_go.Crew.Group.Alone.{AreApart, alone_result, run_task_group_alone}

abbrev pair : Group
pair = record {
  members = (first_task, some ada) ∷ (second_task, some bob) ∷ [];
  slotted = true;
  fail_fast = false;
}

swapped-IsSteady : IsSteady swapped_host
swapped-IsSteady = record {
  notes = λ a t text. [];
  ending = λ a t text. (swapped_host.run false a t text 0).2;
  run_eq = λ stop a t text w. refl;
  write_eq = λ file jail out w. refl;
  query_eq = λ w scope limit chars. refl;
  calm = λ w. refl;
}

pair-AreApart : AreApart pair.members
unfolding AreApart
pair-AreApart j zero t u a b e e' =
    let same : first_task ≡ u = cc in
    subst (λ (x : Task). is_in t.plan.pointer x.plan.context ≡ false) same refl
pair-AreApart j (suc zero) t u a b e e' =
    let same : second_task ≡ u = cc in
    subst (λ (x : Task). is_in t.plan.pointer x.plan.context ≡ false) same refl
pair-AreApart j (suc (suc k)) t u a b e e' = absurd (cc)

run_task_group_alone_example :
    (run_task_group swapped_host wave_crew new_policy pair opened).results 1
    ≡ alone_result swapped_host wave_crew new_policy opened (some (second_task, some bob))
run_task_group_alone_example =
    run_task_group_alone swapped_host swapped-IsSteady wave_crew new_policy pair opened refl
      pair-AreApart refl 1 refl

pair_first : (run_task_group swapped_host wave_crew new_policy pair opened).first ≡ none
unfolding run_task_group execute save_entry auto_save_entry add_warnings context_text
pair_first = refl

run_task_group_succeeds_example :
    HasSucceeded second_task
      (some bob)
      ((run_task_group swapped_host wave_crew new_policy pair opened).results 1)
run_task_group_succeeds_example =
    run_task_group_succeeds swapped_host wave_crew new_policy pair opened 1 second_task (some bob)
      pair_first refl refl
