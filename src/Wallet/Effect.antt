-- ===== src/Wallet/Effect.antt =====
-- shared/agent/wallet.py: what `spend` does to the wallets, on every path.
use rg_agent_engine.Base.{
  ◌≡◌, Bool, true, false, some, List, [], ◌∷◌, ◌++◌, Key, ◌||◌, if◌then◌else◌, not, arith,
  Bool-cases, inl, inr,
}
use rg_agent_engine.Base.Int.{ltb_ℤ, Limit, min_limit}
use rg_agent_engine.Base.Dict.{get, put, get-put, has_key}
use rg_agent_engine.Base.Exec.{Result, ok, err}
use rg_agent_engine.Autonomy.{AutonomyMode, unbounded, governed, GovernedModeConfig, get_mode}
use rg_agent_engine.Wallet.Types.{AgentWallet, SpendRequest, SpendResult, WalletException}
use rg_agent_engine.Wallet.State.{AgentWalletSystem, Env, maybe_reset_limits, write_wallet}
use rg_agent_engine.Wallet.Spend.{
  execute_spend, request_approval, spend_governed, spend_as, spend_found, take_from,
}

abbrev pub Outcome : Type 0
Outcome = Result WalletException SpendResult × AgentWalletSystem

-- The result is a success.
abbrev pub succeeded : Result WalletException SpendResult → Bool
succeeded (ok r) = r.success
succeeded (err e) = false

-- How a spending that began at `s` with the wallet `w` under its key has left the system: it took
-- the amount from that wallet exactly if it succeeded, and no wallet lost its list of transactions.
pub record Takes (w : AgentWallet) (r : SpendRequest) (env : Env) (s : AgentWalletSystem)
    (o : Outcome) : Type 0 where
  pub wallets : o.1.wallets ≡ (
      if succeeded o.0 then put r.wallet_id (take_from r.amount env.now w) s.wallets else s.wallets)
  pub agents : o.1.agent_wallets ≡ s.agent_wallets
  pub lists :
      (k : Key) → has_key k s.wallet_transactions ≡ true → has_key k o.1.wallet_transactions ≡ true

module _ (id : Key) (w : AgentWallet) (r : SpendRequest) (env : Env) (s : AgentWalletSystem)
    {ids : List Key} (listed : get w.id s.wallet_transactions ≡ some ids) where
  execute_spend-Takes : Takes w r env s (execute_spend id w r env s)
  unfolding execute_spend
  execute_spend-Takes = record {
    wallets = ground arith;
    agents = ground arith;
    lists = λ k h. ground (arith, get-put w.id k (ids ++ id ∷ []) s.wallet_transactions);
  }

  request_approval-Takes : (l : Limit) → Takes w r env s (request_approval id w r l env s)
  unfolding request_approval
  request_approval-Takes l = record {
    wallets = ground arith;
    agents = ground arith;
    lists = λ k h. ground (arith, get-put w.id k (ids ++ id ∷ []) s.wallet_transactions);
  }

  spend_governed-Takes :
      (config : GovernedModeConfig) → Takes w r env s (spend_governed id w r config env s)
  unfolding spend_governed
  spend_governed-Takes config =
      let limit = min_limit w.transaction_limit config.transaction_limit in
      let x = execute_spend-Takes in
      let a = request_approval-Takes limit in
      record {
        wallets = ground (arith, x.wallets, a.wallets);
        agents = ground (arith, x.agents, a.agents);
        lists = λ k h. ground (arith, x.lists k, a.lists k);
      }

  spend_as-Takes : (mode : AutonomyMode) → Takes w r env s (spend_as mode id w r env s)
  unfolding spend_as
  spend_as-Takes unbounded = execute_spend-Takes
  spend_as-Takes governed = spend_governed-Takes env.manager.governed_config

-- What a spending can do to the wallets: nothing, where it is refused before the daily and monthly
-- counters are looked at; put the reset counters in place; or take the amount as well.
pub data SpendEffect (r : SpendRequest) (env : Env) (s : AgentWalletSystem) (o : Outcome)
    : Type 0 where
  refused : succeeded o.0 ≡ false → o.1.wallets ≡ s.wallets → SpendEffect r env s o
  declined :
      (w : AgentWallet)
      → get r.wallet_id s.wallets ≡ some w
      → succeeded o.0 ≡ false
      → o.1.wallets ≡ put r.wallet_id (maybe_reset_limits env w) s.wallets
      → SpendEffect r env s o
  paid :
      (w : AgentWallet)
      → get r.wallet_id s.wallets ≡ some w
      → ltb_ℤ w.balance r.amount ≡ false
      → (w.is_active ≡ true) × (w.is_frozen ≡ false)
      → succeeded o.0 ≡ true
      → o.1.wallets
        ≡ put r.wallet_id
            (take_from r.amount env.now (maybe_reset_limits env w))
            (put r.wallet_id (maybe_reset_limits env w) s.wallets)
      → SpendEffect r env s o

-- The tables beside the wallets: the agents keep theirs, and no list of transactions is lost.
pub record KeepsTables (s s' : AgentWalletSystem) : Type 0 where
  pub agents : s'.agent_wallets ≡ s.agent_wallets
  pub lists :
      (k : Key) → has_key k s.wallet_transactions ≡ true → has_key k s'.wallet_transactions ≡ true

pub id-maybe_reset : (env : Env) (w : AgentWallet) → (maybe_reset_limits env w).id ≡ w.id
unfolding maybe_reset_limits
id-maybe_reset env w = ground arith

pub agent-maybe_reset :
    (env : Env) (w : AgentWallet) → (maybe_reset_limits env w).agent_id ≡ w.agent_id
unfolding maybe_reset_limits
agent-maybe_reset env w = ground arith

pub balance-maybe_reset :
    (env : Env) (w : AgentWallet) → (maybe_reset_limits env w).balance ≡ w.balance
unfolding maybe_reset_limits
balance-maybe_reset env w = ground arith

-- The part of `spend` behind its three guards.
behind_guards : AgentWallet → Key → SpendRequest → Env → AgentWalletSystem → Outcome
behind_guards w id r env s =
    let w' = maybe_reset_limits env w in
    spend_as (get_mode w'.agent_id env.manager) id w' r env (write_wallet r.wallet_id w' s)

behind_guards-Takes :
    (w : AgentWallet) (id : Key) (r : SpendRequest) (env : Env) (s : AgentWalletSystem)
    {ids : List Key}
    → get w.id s.wallet_transactions ≡ some ids
    → let w' = maybe_reset_limits env w in
      Takes w' r env (write_wallet r.wallet_id w' s) (behind_guards w id r env s)
unfolding behind_guards write_wallet
behind_guards-Takes w id r env s {ids} h =
    let w' = maybe_reset_limits env w in
    spend_as-Takes id w' r env (write_wallet r.wallet_id w' s) {ids = ids}
      (rw (id-maybe_reset env w) h) (get_mode w'.agent_id env.manager)

behind_guards-SpendEffect :
    (w : AgentWallet) (id : Key) (r : SpendRequest) (env : Env) (s : AgentWalletSystem)
    {ids : List Key}
    → get r.wallet_id s.wallets ≡ some w
    → get w.id s.wallet_transactions ≡ some ids
    → ltb_ℤ w.balance r.amount ≡ false
    → (w.is_active ≡ true) × (w.is_frozen ≡ false)
    → SpendEffect r env s (behind_guards w id r env s)
unfolding write_wallet
behind_guards-SpendEffect w id r env s found h enough usable =
    let o = behind_guards w id r env s in
    let t = behind_guards-Takes w id r env s h in
    elim (Bool-cases (succeeded o.0)) [
      | inl yes' ↦ paid w found enough usable yes' (rw yes' at t.wallets)
      | inr no' ↦ declined w found no' (rw no' at t.wallets)
    ]

module _ (id : Key) (r : SpendRequest) (env : Env) (s : AgentWalletSystem) (w : AgentWallet)
    {ids : List Key} (found : get r.wallet_id s.wallets ≡ some w)
    (listed : get w.id s.wallet_transactions ≡ some ids) where
  pub spend_found-SpendEffect : SpendEffect r env s (spend_found (some w) id r env s)
  unfolding spend_found behind_guards
  spend_found-SpendEffect = elim (Bool-cases (not w.is_active || w.is_frozen)) [
    | inl shut ↦ refused (rw shut) (rw shut)
    | inr usable ↦ elim (Bool-cases (ltb_ℤ w.balance r.amount)) [
      | inl short ↦ refused (rw (usable, short)) (rw (usable, short))
      | inr enough ↦
          rw (usable, enough)
            (behind_guards-SpendEffect w id r env s found listed enough (ground arith))
    ]
  ]

  pub spend_found-KeepsTables : KeepsTables s (spend_found (some w) id r env s).1
  unfolding spend_found behind_guards write_wallet
  spend_found-KeepsTables =
      let t = behind_guards-Takes w id r env s listed in
      record { agents = ground (arith, t.agents); lists = λ k h. ground (arith, t.lists k) }
