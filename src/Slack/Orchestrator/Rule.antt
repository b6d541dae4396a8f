-- ===== src/Slack/Orchestrator/Rule.antt =====
-- The invariant rule of the loop of brightbean-studio/apps/slack_bot/tool_execution.py: what holds
-- at the start and is kept by each step of the loop holds of what `run` returns.
use bright_bean_paysys.Common.{
  ℕ, zero, suc, ◌+◌, ◌-◌, ◌≤◌, ◌≡◌, refl, inl, inr, false, Option, none, some, List, [], ◌∷◌, arith,
  length, All, is_empty, ltb, leb, ltb_iff, Bool-cases, Result, ok, err, ◌>>=◌,
}
use bright_bean_paysys.ApiKeys.Token.{Codes}
use bright_bean_paysys.Slack.Directory.{ErrorCode, ToolContext}
use bright_bean_paysys.Slack.Llm.{LlmMessage, LlmResponse, LlmRouterResult, route}
use bright_bean_paysys.Slack.Tools.{
  ToolResult, ExecutorAnswer, raised, other_value, gave, to_llm_tool_definitions, TerminationReason,
  ToolOrchestrator,
}
use bright_bean_paysys.Slack.Tools.Execution.{
  ValidatedCall, Progress, Ended, stopped, is_late, after_reading, validate_calls, keep_result,
  with_executed, absorbed, execute, execute_all,
}
use bright_bean_paysys.Slack.Tools.Approval.{IsApproved, validate_calls-IsApproved}
use bright_bean_paysys.Slack.Orchestrator.{
  finished, identities, repeated, or_stop, asked, accept, call_tools, answered, take_round,
  run_rounds, started, run,
}

-- What has to be shown of the steps, for a property of the variables and one of the return.
pub record LoopProof (o : ToolOrchestrator) (context : ToolContext) (P : Progress → Type 0)
    (Q : Ended → Type 0) : Type 0 where
  pub reads : (p : Progress) → P p → P (after_reading p)
  pub asks : (p : Progress) (r : LlmResponse) (vs : List ValidatedCall) → P p → P (asked r vs p)
  pub keeps :
      (p : Progress) (round : ℕ) (v : ValidatedCall) (r : ToolResult)
      → IsApproved o v
      → v.tool.executor p.readings v.arguments context ≡ gave r
      → p.total_calls + 1 ≤ o.limits.max_total_calls
      → P p
      → P (keep_result o round v r (with_executed context round v p))
  pub stops :
      (p : Progress) (rounds : ℕ) (reason : TerminationReason) (code : ErrorCode)
      → rounds ≤ o.limits.max_rounds
      → P p
      → Q (stopped p rounds p.total_calls reason code)
  pub breaks :
      (p : Progress) (round : ℕ) (v : ValidatedCall) (reason : TerminationReason) (code : ErrorCode)
      → IsApproved o v
      → p.total_calls + 1 ≤ o.limits.max_total_calls
      → round ≤ o.limits.max_rounds
      → P p
      → Q (stopped (with_executed context round v p) round (p.total_calls + 1) reason code)
  pub finishes :
      (p : Progress) (round : ℕ) (r : LlmRouterResult) (response : LlmResponse)
      → round ≤ o.limits.max_rounds
      → P p
      → Q (finished p round r response)

-- The property that a step gives.
abbrev pub Holds : (Progress → Type 0) → (Ended → Type 0) → Result Ended Progress → Type 0
Holds P Q (ok p) = P p
Holds P Q (err e) = Q e

module _ (o : ToolOrchestrator) (context : ToolContext) (P : Progress → Type 0) (Q : Ended → Type 0)
    (lp : LoopProof o context P Q) where
  bind-Holds :
      (m : Result Ended Progress) (k : Progress → Result Ended Progress)
      → Holds P Q m
      → ((p : Progress) → m ≡ ok p → P p → Holds P Q (k p))
      → Holds P Q (m >>= k)
  bind-Holds (ok p) k h f = f p refl h
  bind-Holds (err e) k h f = h

  absorbed-Holds :
      (p : Progress) (round : ℕ) (v : ValidatedCall) (x : ExecutorAnswer)
      → IsApproved o v
      → v.tool.executor p.readings v.arguments context ≡ x
      → p.total_calls + 1 ≤ o.limits.max_total_calls
      → round ≤ o.limits.max_rounds
      → P p
      → Holds P Q (absorbed o round v (with_executed context round v p) x)
  absorbed-Holds p round v raised a x t r h = lp.breaks p round v _ _ a t r h
  absorbed-Holds p round v other_value a x t r h = lp.breaks p round v _ _ a t r h
  absorbed-Holds p round v (gave g) a x t r h = lp.keeps p round v g a x t h

  execute-Holds :
      (p : Progress) (round : ℕ) (v : ValidatedCall)
      → IsApproved o v
      → p.total_calls + 1 ≤ o.limits.max_total_calls
      → round ≤ o.limits.max_rounds
      → P p
      → Holds P Q (execute o context round v p)
  unfolding execute
  execute-Holds p round v a t r h = elim (Bool-cases (is_late o p)) [
    | inl e ↦ rw e (lp.stops p round _ _ r h)
    | inr e ↦ rw e (absorbed-Holds p round v _ a refl t r h)
  ]

  execute-counts :
      (p q : Progress) (round : ℕ) (v : ValidatedCall)
      → execute o context round v p ≡ ok q
      → q.total_calls ≡ p.total_calls + 1
  unfolding execute keep_result
  execute-counts p q round v h = ground arith

  execute_all-Holds :
      (vs : List ValidatedCall) (p : Progress) (round : ℕ)
      → All (IsApproved o) vs
      → p.total_calls + length vs ≤ o.limits.max_total_calls
      → round ≤ o.limits.max_rounds
      → P p
      → Holds P Q (execute_all o context round vs p)
  unfolding execute_all
  execute_all-Holds [] p round a t r h = h
  execute_all-Holds (v ∷ vs) p round a t r h =
      bind-Holds (execute o context round v p) _ (execute-Holds p round v a.0 (omega arith) r h)
        λ q e hq.
          let c = execute-counts p q round v e in
          execute_all-Holds vs q round a.1 (omega arith) r hq

  room :
      (p : Progress) (response : LlmResponse) (vs : List ValidatedCall)
      → length vs ≡ length response.tool_calls
      → ltb o.limits.max_total_calls (p.total_calls + length response.tool_calls) ≡ false
      → p.total_calls + length vs ≤ o.limits.max_total_calls
  room p response vs l w =
      let iff = ltb_iff o.limits.max_total_calls (p.total_calls + length response.tool_calls) in
      grind (arith, iff)

  accept-Holds :
      (p : Progress) (round : ℕ) (response : LlmResponse) (vs : List ValidatedCall)
      → All (IsApproved o) vs
      → p.total_calls + length vs ≤ o.limits.max_total_calls
      → round ≤ o.limits.max_rounds
      → P p
      → Holds P Q (accept o context round response p vs)
  unfolding accept
  accept-Holds p round response vs a t r h =
      elim (Bool-cases
        (leb o.limits.max_repeated_calls (repeated p.last_call_identities (identities vs)))) [
          | inl e ↦ rw e (lp.stops p round _ _ r h)
          | inr e ↦
              rw e
                (execute_all-Holds vs (asked response vs p) round a t r (lp.asks p response vs h))
        ]

  validated-Holds :
      (p : Progress) (round : ℕ) (response : LlmResponse)
      (m : Result ErrorCode (List ValidatedCall))
      → validate_calls o.registry response.tool_calls ≡ m
      → ltb o.limits.max_total_calls (p.total_calls + length response.tool_calls) ≡ false
      → round ≤ o.limits.max_rounds
      → P p
      → Holds P Q (or_stop p round m >>= accept o context round response p)
  validated-Holds p round response (ok vs) e w r h =
      let (a, l) = validate_calls-IsApproved o response.tool_calls vs e in
      accept-Holds p round response vs a (room p response vs l w) r h
  validated-Holds p round response (err code) e w r h = lp.stops p round _ code r h

  call_tools-Holds :
      (p : Progress) (round : ℕ) (response : LlmResponse)
      → round ≤ o.limits.max_rounds
      → P p
      → Holds P Q (call_tools o context round response p)
  unfolding call_tools
  call_tools-Holds p round response r h =
      elim (Bool-cases (ltb o.limits.max_calls_per_response (length response.tool_calls))) [
        | inl e ↦ rw e (lp.stops p round _ _ r h)
        | inr e ↦
            elim (Bool-cases
              (ltb o.limits.max_total_calls (p.total_calls + length response.tool_calls))) [
                | inl f ↦ rw (e, f) (lp.stops p round _ _ r h)
                | inr f ↦ rw (e, f) (validated-Holds p round response _ refl f r h)
              ]
      ]

  answered-Holds :
      (p : Progress) (round : ℕ) (r : LlmRouterResult) (a : Option LlmResponse)
      → round ≤ o.limits.max_rounds
      → P p
      → Holds P Q (answered o context round r p a)
  answered-Holds p round r none b h = lp.stops p (round - 1) _ _ (omega arith) h
  answered-Holds p round r (some response) b h = elim (Bool-cases (is_empty response.tool_calls)) [
    | inl e ↦ rw e (lp.finishes p round r response b h)
    | inr e ↦ rw e (call_tools-Holds p round response b h)
  ]

  take_round-Holds :
      (prompt : Codes) (p : Progress) (round : ℕ)
      → round ≤ o.limits.max_rounds
      → P p
      → Holds P Q (take_round o context prompt round p)
  unfolding take_round
  take_round-Holds prompt p round b h = elim (Bool-cases (is_late o p)) [
    | inl e ↦ rw e (lp.stops p (round - 1) _ _ (omega arith) h)
    | inr e ↦
        let r = route p.readings o.router (record {
          system_prompt = prompt;
          messages = p.conversation;
          tools = to_llm_tool_definitions o.registry;
        }) in
        rw e (answered-Holds (after_reading p) round r r.response b (lp.reads p h))
  ]

  run_rounds-Holds :
      (prompt : Codes) (left round : ℕ) (p : Progress)
      → round + left ≡ o.limits.max_rounds + 1
      → P p
      → Q (run_rounds o context prompt left round p)
  unfolding run_rounds
  run_rounds-Holds prompt zero round p e h = lp.stops p _ _ _ (omega arith) h
  run_rounds-Holds prompt (suc left) round p e h =
      next (take_round o context prompt round p) (take_round-Holds prompt p round (omega arith) h)
        λ q hq. run_rounds-Holds prompt left (round + 1) q (omega arith) hq
    where
      next :
          (m : Result Ended Progress)
          → Holds P Q m
          → ((q : Progress) → P q → Q (run_rounds o context prompt left (round + 1) q))
          → Q (elim m [ ok q ↦ run_rounds o context prompt left (round + 1) q | err e ↦ e ])
      next (ok q) h f = f q h
      next (err e) h f = h

  pub run_rule :
      (messages : List LlmMessage) (prompt : Codes)
      → P (started messages)
      → Q (run o messages context prompt)
  unfolding run
  run_rule messages prompt h =
      run_rounds-Holds prompt o.limits.max_rounds 1 (started messages) (omega arith) h
