-- ===== src/Negotiation/Approval.antt =====
-- shared/agent/negotiation.py: contracts that need approval, and the calls that make contracts.
use rg_agent_engine.Base.{
  ℕ, ◌≡◌, refl, Bool, true, false, ◌&&◌, Option, none, some, List, [], ◌∷◌, Key, ◌==◌, arith,
  Bool-cases, Option-cases, inl, inr,
}
use rg_agent_engine.Base.Int.{ℤ}
use rg_agent_engine.Base.Dict.{get, put, get-put_inv}
use rg_agent_engine.Base.Exec.{Result, ok, err}
use rg_agent_engine.Autonomy.{AutonomyModeManager, get_mode}
use rg_agent_engine.Negotiation.Types.{
  ContractStatus, active, completed, Bid, Negotiation, AgentContract, NegotiationEngine,
  NegotiationException,
}
use rg_agent_engine.Negotiation.Auction.{index_contract, submit_bid}
use rg_agent_engine.Negotiation.Award.{
  AcceptEnv, accept_bid, accept_found, conclude, new_contract, needs_approval, ask_approval,
}
use rg_agent_engine.Negotiation.Accept.{accept_bid-found}

abbrev pub initiator : List Key → Key
initiator [] = 0
initiator (a ∷ rest) = a

-- The contract is in force, or was fulfilled.
abbrev pub is_live : ContractStatus → Bool
is_live active = true
is_live completed = true
is_live _ = false

abbrev is_none : Option Key → Bool
is_none none = true
is_none (some k) = false

abbrev pub IsGated : AutonomyModeManager → AgentContract → Type 0
IsGated m c =
    (needs_approval (get_mode (initiator c.parties) m) m c.total_value
      && (is_live c.status && is_none c.approved_by))
    ≡ false

abbrev pub AreGated : AutonomyModeManager → NegotiationEngine → Type 0
AreGated m s = (k : Key) (c : AgentContract) → get k s.contracts ≡ some c → IsGated m c

-- What a call does to the contracts: nothing, or it stores one that is gated.
pub data Change (m : AutonomyModeManager) (s s' : NegotiationEngine) : Type 0 where
  kept : s'.contracts ≡ s.contracts → Change m s s'
  stored :
      (k : Key) (c : AgentContract)
      → IsGated m c
      → s'.contracts ≡ put k c s.contracts
      → Change m s s'

pub Change-AreGated :
    (m : AutonomyModeManager) (s s' : NegotiationEngine)
    → Change m s s'
    → AreGated m s
    → AreGated m s'
Change-AreGated m s s' (kept e) h j d found = h j d (rw e at found)
Change-AreGated m s s' (stored k c gated e) h j d found =
    elim (get-put_inv k j c s.contracts (rw e at found)) [
      | inl (at, is) ↦ rw (← is) gated
      | inr (ne, there) ↦ h j d there
    ]

new_contract-IsGated :
    (env : AcceptEnv) (n : Negotiation) (negotiation_id : Key) (b : Bid) (approval : Option Key)
    → let waits = needs_approval (get_mode n.initiator_agent_id env.manager) env.manager b.price in
      IsGated env.manager
        (record (new_contract env n negotiation_id b waits) { approval_id = approval })
unfolding new_contract
new_contract-IsGated env n negotiation_id b approval = ground arith

pub contracts-submit_bid :
    (id agent_id negotiation_id offer : Key) (price : ℤ) (confidence : ℕ) (completion : Option ℕ)
    (hours now : ℕ) (s : NegotiationEngine)
    → (submit_bid id agent_id negotiation_id offer price confidence completion hours now
        s).1.contracts
      ≡ s.contracts
unfolding submit_bid
contracts-submit_bid id agent_id negotiation_id offer price confidence completion hours now s =
    ground arith

module _ (env : AcceptEnv) (negotiation_id bid_id acceptor : Key) (s : NegotiationEngine) where
  accept_found-Change :
      (n : Negotiation) (b : Bid)
      → acceptor ≡ n.initiator_agent_id
      → Change env.manager s (accept_found env n negotiation_id b bid_id acceptor s).1
  unfolding accept_found
  accept_found-Change n b same = by_answer (ask_approval env acceptor b.price waits) refl
    where
      waits : Bool
      waits = needs_approval (get_mode acceptor env.manager) env.manager b.price

      by_answer :
          (r : Result NegotiationException (Option Key))
          → ask_approval env acceptor b.price waits ≡ r
          → Change env.manager s (accept_found env n negotiation_id b bid_id acceptor s).1
      by_answer (err e) eq = kept (rw (eq, accept_found))
      by_answer (ok approval) eq =
          let c = record (new_contract env n negotiation_id b waits) { approval_id = approval } in
          stored env.contract_id c (rw same (new_contract-IsGated env n negotiation_id b approval))
            (rw (eq, accept_found) (unfold conclude index_contract new_contract in refl))

  pub accept_bid-Change : Change env.manager s (accept_bid env negotiation_id bid_id acceptor s).1
  accept_bid-Change = elim (Option-cases (get negotiation_id s.negotiations)) [
    | inl e ↦ kept (unfold accept_bid in ground arith)
    | inr (n, e) ↦ elim (Bool-cases (acceptor == n.initiator_agent_id)) [
      | inr other ↦ kept (unfold accept_bid in ground arith)
      | inl same ↦ elim (Option-cases (get bid_id s.bids)) [
        | inl f ↦ kept (unfold accept_bid in ground arith)
        | inr (b, f) ↦ elim (Bool-cases (b.negotiation_id == negotiation_id)) [
          | inr foreign ↦ kept (unfold accept_bid in ground arith)
          | inl own ↦
              rw (accept_bid-found env negotiation_id bid_id acceptor s e same f own)
                (accept_found-Change n b (ground arith))
        ]
      ]
    ]
  ]
