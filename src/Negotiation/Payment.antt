-- ===== src/Negotiation/Payment.antt =====
-- shared/agent/negotiation.py: the money of a contract, when it is completed and when it is
-- breached.
use rg_agent_engine.Base.{
  ℕ, ◌≡◌, refl, Bool, true, false, ◌&&◌, Option, none, some, List, [], ◌∷◌, Key, ◌==◌,
  if◌then◌else◌, arith, Option-cases, inl, inr, map,
}
use rg_agent_engine.Base.Int.{ℤ, pos, ◌+ℤ◌, ltb_ℤ, cancel_given}
use rg_agent_engine.Base.Lists.{member}
use rg_agent_engine.Base.Dict.{get, get_or, put, get-put}
use rg_agent_engine.Base.Exec.{ok, err}
use rg_agent_engine.Wallet.Types.{AgentWallet}
use rg_agent_engine.Wallet.State.{AgentWalletSystem, append_transaction, write_wallet}
use rg_agent_engine.Wallet.Spend.{give_to}
use rg_agent_engine.Wallet.Manage.{get_wallet_by_agent, credit, get_balance}
use rg_agent_engine.Wallet.Invariant.{IsWellFormed, list_of}
use rg_agent_engine.Wallet.Money.{total, total-put, get_balance-put, get_balance-get}
use rg_agent_engine.Negotiation.Types.{
  active, completed, breached, AgentContract, NegotiationEngine, type_error,
}
use rg_agent_engine.Negotiation.Contract.{
  complete_contract, complete_active, complete_duty, all_completed, trigger_payments, pay_all,
  pay_agent, store_contract, breach_contract, apply_penalty,
}

by_agent-get :
    (a : Key) (w : AgentWalletSystem) (v : AgentWallet)
    → get_wallet_by_agent a w ≡ some v
    → IsWellFormed w
    → get v.id w.wallets ≡ some v
unfolding get_wallet_by_agent
by_agent-get a w v h ok' = elim (Option-cases (get a w.agent_wallets)) [
  | inl e ↦ cc (rw (e, get_wallet_by_agent) at h)
  | inr (k, e) ↦
      let found : get k w.wallets ≡ some v = ground arith in simp (ok'.own_id k v found) found
]

pay_agent-credits :
    (id a : Key) (r : ℤ) (contract_id : Key) (now : ℕ) (w : AgentWalletSystem) (v : AgentWallet)
    {ids : List Key}
    → get_wallet_by_agent a w ≡ some v
    → get v.id w.wallets ≡ some v
    → get v.id w.wallet_transactions ≡ some ids
    → let (result, w') = pay_agent id a r contract_id now w in
      (result ≡ ok tt) × (w'.wallets ≡ put v.id (give_to r now v) w.wallets)
unfolding pay_agent credit append_transaction write_wallet
pay_agent-credits id a r contract_id now w v known found listed = (ground arith, ground arith)

-- The wallets `w'` are the wallets `w` where one balance has grown.
pub record IsGrown (k : Key) (amount : ℤ) (w w' : AgentWalletSystem) : Type 0 where
  pub sum : total w'.wallets ≡ total w.wallets +ℤ amount
  pub each :
      (j : Key) → get_balance j w' ≡ (if k == j then get_balance j w +ℤ amount else get_balance j w)

put-IsGrown :
    (v : AgentWallet) (r : ℤ) (now : ℕ) (w w' : AgentWalletSystem)
    → get v.id w.wallets ≡ some v
    → w'.wallets ≡ put v.id (give_to r now v) w.wallets
    → IsGrown v.id r w w'
put-IsGrown v r now w w' found e =
    let v' = give_to r now v in
    let more : v'.balance ≡ v.balance +ℤ r = unfold give_to in refl in
    record {
      sum = rw e (
          cancel_given (total (put v.id v' w.wallets)) (total w.wallets) v.balance v'.balance r
            (total-put v.id v v' w.wallets found) more);
      each =
          λ j. ground (arith, get_balance-put v.id v' w w' j e, get_balance-get v.id w found, more);
    }

-- A contract that this completion fulfils: it is active, the completing agent is a party, and no
-- obligation is left open. Its reward goes to one agent, who has a wallet.
pub record IsPayable (k agent_id a : Key) (r : ℤ) (now : ℕ) (s : NegotiationEngine)
    (c : AgentContract) (w : AgentWalletSystem) (v : AgentWallet) : Type 0 where
  pub stored : get k s.contracts ≡ some c
  pub in_force : c.status ≡ active
  pub party : member agent_id c.parties ≡ true
  pub fulfilled : all_completed (map (complete_duty agent_id now) c.obligations) ≡ true
  pub reward : c.rewards ≡ (a, r) ∷ []
  pub wallets : s.wallet_system ≡ some w
  pub has_wallet : get_wallet_by_agent a w ≡ some v

trigger-pays :
    (ids : Key → Key) (a : Key) (r : ℤ) (k : Key) (now : ℕ) (s : NegotiationEngine)
    (w w' : AgentWalletSystem)
    → s.wallet_system ≡ some w
    → pay_agent (ids a) a r k now w ≡ (ok tt, w')
    → let o = trigger_payments ids ((a, r) ∷ []) k now s in
      (o.0 ≡ ok true) × (o.1.wallet_system ≡ some w') × (o.1.contracts ≡ s.contracts)
unfolding trigger_payments pay_all
trigger-pays ids a r k now s w w' e paid = (ground arith, ground arith, ground arith)

complete_contract-pays :
    (ids : Key → Key) (k agent_id a : Key) (r : ℤ) (now : ℕ) (s : NegotiationEngine)
    (c : AgentContract) (w : AgentWalletSystem) (v : AgentWallet)
    → IsPayable k agent_id a r now s c w v
    → let c' = record c { obligations = map (complete_duty agent_id now) c.obligations } in
      let done = record c' { status = completed; completed_at = some now } in
      complete_contract ids k agent_id now s
      ≡ trigger_payments ids ((a, r) ∷ []) k now (store_contract k done s)
unfolding complete_contract complete_active
complete_contract-pays ids k agent_id a r now s c w v h =
    rw (h.stored, complete_contract) (ground (arith, h.party, h.in_force, h.fulfilled, h.reward))

-- The last completion of an active contract marks it completed and credits its reward to the
-- wallet of the agent that it names. Nobody pays for it: the sum of all balances grows by the
-- reward, and no other balance changes, the initiator's included.
pub complete_contract_lem :
    (ids : Key → Key) (k agent_id a : Key) (r : ℤ) (now : ℕ) (s : NegotiationEngine)
    (c : AgentContract) (w : AgentWalletSystem) (v : AgentWallet)
    → IsWellFormed w
    → IsPayable k agent_id a r now s c w v
    → let o = complete_contract ids k agent_id now s in
      (o.0 ≡ ok true)
      × ((d : AgentContract) × (get k o.1.contracts ≡ some d) × (d.status ≡ completed))
      × ((w' : AgentWalletSystem) × (o.1.wallet_system ≡ some w') × IsGrown v.id r w w')
complete_contract_lem ids k agent_id a r now s c w v ok' h =
    let c' = record c { obligations = map (complete_duty agent_id now) c.obligations } in
    let done = record c' { status = completed; completed_at = some now } in
    let s' = store_contract k done s in
    let found = by_agent-get a w v h.has_wallet ok' in
    let (listed, l) = list_of w v.id v ok' found in
    let w' = (pay_agent (ids a) a r k now w).1 in
    let (fine, e) = pay_agent-credits (ids a) a r k now w v h.has_wallet found l in
    let (returns, paid, kept) =
      trigger-pays ids a r k now s' w w' h.wallets (ground (arith, fine)) in
    rw (complete_contract-pays ids k agent_id a r now s c w v h) (
      returns,
      (done, ground (arith, kept, get-put k k done s.contracts), refl),
      (w', paid, put-IsGrown v r now w w' found e),
    )

-- The agent has a penalty above zero in the contract, and a wallet.
abbrev pub owes_penalty : Key → AgentContract → Option AgentWalletSystem → Bool
owes_penalty agent_id c none = false
owes_penalty agent_id c (some w) =
    ltb_ℤ (pos 0) (get_or agent_id (pos 0) c.penalties)
    && elim (get_wallet_by_agent agent_id w) [ none ↦ false | some v ↦ true ]

-- Anyone can breach a stored contract, whatever its status: it is marked breached, and no balance
-- changes. If the one named has a penalty above zero in it and a wallet, the call ends in a
-- `TypeError`, since the penalty is asked of the wallet system in a way that it does not take; else
-- it returns True.
pub breach_contract_lem :
    (k agent_id why : Key) (now : ℕ) (s : NegotiationEngine) (c : AgentContract)
    → get k s.contracts ≡ some c
    → let (result, s') = breach_contract k agent_id why now s in
      ((d : AgentContract) × (get k s'.contracts ≡ some d) × (d.status ≡ breached))
      × (s'.wallet_system ≡ s.wallet_system)
      × (result ≡ (if owes_penalty agent_id c s.wallet_system then err type_error else ok true))
unfolding breach_contract apply_penalty
breach_contract_lem k agent_id why now s c e =
    let c' = record c { status = breached; breach = some (why, agent_id, now) } in
    ((c', ground (arith, get-put k k c' s.contracts), refl), ground arith, ground arith)
