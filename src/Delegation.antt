-- ===== src/Delegation.antt =====
-- delegation.go: the tool by which an agent asks a coworker. The values that the code keeps in the
-- context are a record. `Chains` is about nested delegations.
pub mod Chains
mod Tests
use crewai_go.Base.{
  ℕ, suc, leb, if◌then◌else◌, Bool, true, false, not, ◌&&◌, ◌||◌, Option, none, some, List, [], ◌∷◌,
  ◌++◌, String, str_eq,
}
use crewai_go.Base.Result.{Result, ok, err, ◌>>=◌}

abbrev pub max_delegation_depth : ℕ
max_delegation_depth = 2

pub record Context : Type 0 where
  pub role : String
  pub depth : ℕ
  pub stack : List String

pub record Agent : Type 0 where
  pub role : String
  pub allow_delegation : Bool

pub record Input : Type 0 where
  pub coworker : String
  pub request : String
  pub context : String

-- The observations that refuse a delegation.
pub data Refusal : Type 0 where
  no_roster empty_input invalid_json missing_fields depth_limit to_self : Refusal
  cycle not_eligible : String → Refusal
  not_found : String → List String → Refusal

-- What the agent's answer becomes.
pub data Answer : Type 0 where
  failed : String → String → Answer
  empty_answer : String → Answer
  answered : String → Answer

-- strings.TrimSpace, strings.EqualFold, json.Unmarshal, the text of the request with its context,
-- truncateToolOutput, and the coworker's Execute in a context.
pub record Host (W : Type 0) : Type 0 where
  pub trim : String → String
  pub equal_fold : String → String → Bool
  pub unmarshal : String → Option Input
  pub describe : String → String → String
  pub truncate : String → String
  pub execute : Context → Agent → String → W → W × Result String String

-- ContextWithAgentRole.
abbrev pub with_role : String → Context → Context
with_role role c = if str_eq role "" then c else record c { role = role }

module _ {W : Type 0} (host : Host W) where
  pub find_roster_agent : List (Option Agent) → String → Option Agent
  find_roster_agent [] role = none
  find_roster_agent (none ∷ agents) role = find_roster_agent agents role
  find_roster_agent (some a ∷ agents) role =
      if host.equal_fold (host.trim a.role) role then some a else find_roster_agent agents role

  abbrev pub on_stack : List String → String → Bool
  on_stack [] coworker = false
  on_stack (r ∷ rs) coworker = host.equal_fold r coworker || on_stack rs coworker

abbrev pub roster_roles : List (Option Agent) → List String
roster_roles [] = []
roster_roles (none ∷ agents) = roster_roles agents
roster_roles (some a ∷ agents) =
    if str_eq a.role "" then roster_roles agents else a.role ∷ roster_roles agents

-- What is handed to Execute.
pub record Delegated : Type 0 where
  pub target : Agent
  pub context : Context
  pub text : String

module _ {W : Type 0} (host : Host W) where
  -- The input, with its fields trimmed.
  pub parse_input : String → Result Refusal Input
  parse_input input =
      let raw = host.trim input in
      if str_eq raw "" then err empty_input else elim (host.unmarshal raw) [
        | none ↦ err invalid_json
        | some i ↦
            let coworker = host.trim i.coworker in
            let request = host.trim i.request in
            if str_eq coworker "" || str_eq request ""
            then err missing_fields
            else ok (record { coworker = coworker; request = request; context = i.context })
      ]

  -- The context of the coworker.
  pub nested_context : Context → Agent → Context
  nested_context c target =
      let stack = if str_eq c.role "" then c.stack else c.stack ++ c.role ∷ [] in
      with_role target.role (record { role = c.role; depth = suc c.depth; stack = stack })

  -- The guards on the depth, the caller and the stack.
  pub check_guards : Context → Input → Result Refusal Input
  check_guards c i =
      if leb max_delegation_depth c.depth
      then err depth_limit
      else if not (str_eq c.role "") && host.equal_fold i.coworker c.role
      then err to_self
      else if on_stack host c.stack i.coworker
      then err (cycle i.coworker)
      else ok i

  pub choose_target : List (Option Agent) → Context → Input → Result Refusal Delegated
  unfolding find_roster_agent nested_context
  choose_target agents c i = elim (find_roster_agent host agents i.coworker) [
    | none ↦ err (not_found i.coworker (roster_roles agents))
    | some a ↦
        let text =
          if str_eq (host.trim i.context) ""
          then i.request
          else host.describe i.request i.context in
        if not a.allow_delegation
        then err (not_eligible a.role)
        else ok (record { target = a; context = nested_context c a; text = text })
  ]

  -- Call, up to the coworker's Execute.
  pub admit : Option (List (Option Agent)) → Context → String → Result Refusal Delegated
  unfolding parse_input check_guards choose_target
  admit none c input = err no_roster
  admit (some agents) c input =
      parse_input input >>= λ i. check_guards c i >>= λ i'. choose_target agents c i'

  pub delegate : Option (List (Option Agent)) → Context → String → W → W × Result Refusal Answer
  unfolding admit
  delegate roster c input w = elim (admit roster c input) [
    | err e ↦ (w, err e)
    | ok d ↦
        let (w', r) = host.execute d.context d.target d.text w in
        elim r [
          | err e ↦ (w', ok (failed d.target.role e))
          | ok out ↦
              let answer = host.trim out in
              if str_eq answer ""
              then (w', ok (empty_answer d.target.role))
              else (w', ok (answered (host.truncate answer)))
        ]
  ]
