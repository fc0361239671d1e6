-- ===== src/Negotiation/Gated.antt =====
-- shared/agent/negotiation.py: contracts and their approval, call by call.
use rg_agent_engine.Base.{
  ℕ, ◌≡◌, refl, true, ◌&&◌, Option, some, Key, arith, Bool-cases, Option-cases, inl, inr, map,
  subst,
}
use rg_agent_engine.Base.Int.{ℤ}
use rg_agent_engine.Base.Lists.{member}
use rg_agent_engine.Base.Dict.{Dict, get, get-nil}
use rg_agent_engine.Autonomy.{AutonomyModeManager}
use rg_agent_engine.Wallet.State.{AgentWalletSystem}
use rg_agent_engine.Negotiation.Types.{
  ContractStatus, active, completed, breached, called_off, pending_approval, AgentContract,
  NegotiationEngine, new_engine,
}
use rg_agent_engine.Negotiation.Auction.{
  create_task_auction, create_resource_trade, index_negotiation,
}
use rg_agent_engine.Negotiation.Award.{accept_bid}
use rg_agent_engine.Negotiation.Contract.{
  complete_contract, complete_active, trigger_payments, breach_contract, approve_contract,
  reject_contract, reopen, store_contract, same_status, complete_duty, all_completed,
}
use rg_agent_engine.Negotiation.Reach.{
  Step, auctions, trades, submits, accepts, completes, breaches, approves, rejects, Reach, here,
  next,
}
use rg_agent_engine.Negotiation.Approval.{
  IsGated, AreGated, Change, kept, stored, Change-AreGated, contracts-submit_bid, accept_bid-Change,
}

contracts-trigger_payments :
    (ids : Key → Key) (rewards : Dict ℤ) (k : Key) (now : ℕ) (s : NegotiationEngine)
    → (trigger_payments ids rewards k now s).1.contracts ≡ s.contracts
unfolding trigger_payments
contracts-trigger_payments ids rewards k now s = elim (Option-cases s.wallet_system) [
  | inl e ↦ ground arith
  | inr (w, e) ↦ ground arith
]

same_status-eq : (a b : ContractStatus) → same_status a b ≡ true → a ≡ b
same_status-eq a b h = ground arith

complete_active-Change :
    (m : AutonomyModeManager) (ids : Key → Key) (c : AgentContract) (k agent_id : Key) (now : ℕ)
    (s : NegotiationEngine)
    → c.status ≡ active
    → IsGated m c
    → Change m s (complete_active ids c k agent_id now s).1
unfolding complete_active
complete_active-Change m ids c k agent_id now s live gated =
    let c' = record c { obligations = map (complete_duty agent_id now) c.obligations } in
    let done = record c' { status = completed; completed_at = some now } in
    elim (Bool-cases (all_completed c'.obligations)) [
      | inl all ↦
          stored k done (ground arith) (
            ground
              (arith, contracts-trigger_payments ids c.rewards k now (store_contract k done s)))
      | inr some_left ↦ stored k c' gated (ground arith)
    ]

complete_contract-active :
    (ids : Key → Key) (k agent_id : Key) (now : ℕ) (s : NegotiationEngine) (c : AgentContract)
    → get k s.contracts ≡ some c
    → (member agent_id c.parties && same_status c.status active) ≡ true
    → complete_contract ids k agent_id now s ≡ complete_active ids c k agent_id now s
unfolding complete_contract
complete_contract-active ids k agent_id now s c e fine = ground arith

complete_contract-Change :
    (m : AutonomyModeManager) (ids : Key → Key) (k agent_id : Key) (now : ℕ) (s : NegotiationEngine)
    → AreGated m s
    → Change m s (complete_contract ids k agent_id now s).1
complete_contract-Change m ids k agent_id now s h = elim (Option-cases (get k s.contracts)) [
  | inl e ↦ kept (unfold complete_contract in ground arith)
  | inr (c, e) ↦ elim (Bool-cases (member agent_id c.parties && same_status c.status active)) [
    | inr refused ↦ kept (unfold complete_contract in ground arith)
    | inl fine ↦
        let live = same_status-eq c.status active (ground arith) in
        rw (complete_contract-active ids k agent_id now s c e fine)
          (complete_active-Change m ids c k agent_id now s live (h k c e))
  ]
]

breach_contract-Change :
    (m : AutonomyModeManager) (k agent_id why : Key) (now : ℕ) (s : NegotiationEngine)
    → Change m s (breach_contract k agent_id why now s).1
breach_contract-Change m k agent_id why now s = elim (Option-cases (get k s.contracts)) [
  | inl e ↦ kept (unfold breach_contract in ground arith)
  | inr (c, e) ↦
      stored k (record c { status = breached; breach = some (why, agent_id, now) }) (ground arith)
        (unfold breach_contract in ground arith)
]

approve_contract-Change :
    (m : AutonomyModeManager) (k approver : Key) (now : ℕ) (s : NegotiationEngine)
    → Change m s (approve_contract k approver now s).1
approve_contract-Change m k approver now s = elim (Option-cases (get k s.contracts)) [
  | inl e ↦ kept (unfold approve_contract in ground arith)
  | inr (c, e) ↦ elim (Bool-cases (same_status c.status pending_approval)) [
    | inr other ↦ kept (unfold approve_contract in ground arith)
    | inl waits ↦
        let c' = record c {
          status = active;
          approved_by = some approver;
          activated_at = some now;
        } in
        stored k c' (ground arith) (unfold approve_contract in ground arith)
  ]
]

contracts-reopen : (k : Key) (s : NegotiationEngine) → (reopen k s).contracts ≡ s.contracts
unfolding reopen
contracts-reopen k s = ground arith

reject_contract-Change :
    (m : AutonomyModeManager) (k rejector why : Key) (s : NegotiationEngine)
    → Change m s (reject_contract k rejector why s).1
reject_contract-Change m k rejector why s = elim (Option-cases (get k s.contracts)) [
  | inl e ↦ kept (unfold reject_contract in ground arith)
  | inr (c, e) ↦ elim (Bool-cases (same_status c.status pending_approval)) [
    | inr other ↦ kept (unfold reject_contract in ground arith)
    | inl waits ↦
        let c' = record c { status = called_off; rejection = some (why, rejector) } in
        stored k c' (ground arith) (
          unfold reject_contract in
          ground (arith, contracts-reopen c.negotiation_id (store_contract k c' s)))
  ]
]

Step-AreGated :
    (m : AutonomyModeManager) {s t : NegotiationEngine} → Step m s t → AreGated m s → AreGated m t
Step-AreGated m {s} {t} step h = Change-AreGated m s t (change step) h
  where
    change : {t : NegotiationEngine} → Step m s t → Change m s t
    change (auctions id initiator task text targets hours low high now fresh) =
        kept (unfold create_task_auction index_negotiation in refl)
    change (trades id initiator offering requesting text targets hours now fresh) =
        kept (unfold create_resource_trade index_negotiation in refl)
    change (submits id agent_id negotiation_id offer price confidence completion hours now) = kept (
        contracts-submit_bid id agent_id negotiation_id offer price confidence completion hours now
          s)
    change (accepts env negotiation_id bid_id acceptor e) =
        subst (λ x. Change x s (accept_bid env negotiation_id bid_id acceptor s).1) e
          (accept_bid-Change env negotiation_id bid_id acceptor s)
    change (completes ids k agent_id now) = complete_contract-Change m ids k agent_id now s h
    change (breaches k agent_id why now) = breach_contract-Change m k agent_id why now s
    change (approves k approver now) = approve_contract-Change m k approver now s
    change (rejects k rejector why) = reject_contract-Change m k rejector why s

Reach-preserves :
    (m : AutonomyModeManager) {s t : NegotiationEngine} → Reach m s t → AreGated m s → AreGated m t
Reach-preserves m here h = h
Reach-preserves m (next r step) h = Step-AreGated m step (Reach-preserves m r h)

-- On an engine that began empty, under one mode manager: no contract whose first party, the one
-- who accepted the bid, is governed, and whose value exceeds the contract limit of the governed
-- mode, is active or completed without an approver, after any calls.
pub Reach-AreGated :
    (m : AutonomyModeManager) (w : Option AgentWalletSystem) {s : NegotiationEngine}
    → Reach m (new_engine w) s
    → AreGated m s
Reach-AreGated m w r = Reach-preserves m r (unfold new_engine in λ k c found. get-nil k found)
