-- ===== src/Wallet/Limits.antt =====
-- shared/agent/wallet.py: the guards and limits of a spending in the governed mode.
use rg_agent_engine.Base.{◌≡◌, true, false, some, Key, ◌||◌, not, arith}
use rg_agent_engine.Base.Int.{
  ℤ, ◌+ℤ◌, ◌≤ℤ◌, ltb_ℤ, Limit, min_limit, exceeds, exceeds-false, Within, Within-min_limit,
}
use rg_agent_engine.Base.Dict.{get}
use rg_agent_engine.Autonomy.{governed, GovernedModeConfig, get_mode}
use rg_agent_engine.Wallet.Types.{AgentWallet, SpendRequest}
use rg_agent_engine.Wallet.State.{AgentWalletSystem, Env, maybe_reset_limits, write_wallet}
use rg_agent_engine.Wallet.Spend.{spend_governed, spend_as, spend_found, spend, request_approval}
use rg_agent_engine.Wallet.Effect.{succeeded, agent-maybe_reset}

-- The limits that hold for an amount: the wallet's own and the mode's for one transaction, and the
-- mode's for the day and the month.
pub record IsWithinLimits (w : AgentWallet) (amount : ℤ) (config : GovernedModeConfig)
    : Type 0 where
  pub wallet_transaction : Within amount w.transaction_limit
  pub mode_transaction : Within amount config.transaction_limit
  pub day : Within (w.daily_spent +ℤ amount) config.max_budget_per_day
  pub month : Within (w.monthly_spent +ℤ amount) config.max_budget_per_month

request_approval_fails :
    (id : Key) (w : AgentWallet) (r : SpendRequest) (l : Limit) (env : Env) (s : AgentWalletSystem)
    → succeeded (request_approval id w r l env s).0 ≡ false
unfolding request_approval
request_approval_fails id w r l env s = ground arith

spend_governed-tests :
    (id : Key) (w : AgentWallet) (r : SpendRequest) (config : GovernedModeConfig) (env : Env)
    (s : AgentWalletSystem)
    → succeeded (spend_governed id w r config env s).0 ≡ true
    → (exceeds r.amount (min_limit w.transaction_limit config.transaction_limit) ≡ false)
      × (exceeds (w.daily_spent +ℤ r.amount) config.max_budget_per_day ≡ false)
      × (exceeds (w.monthly_spent +ℤ r.amount) config.max_budget_per_month ≡ false)
unfolding spend_governed
spend_governed-tests id w r config env s h =
    let l = min_limit w.transaction_limit config.transaction_limit in
    ground (arith, request_approval_fails id w r l env s)

spend_governed-IsWithinLimits :
    (id : Key) (w : AgentWallet) (r : SpendRequest) (config : GovernedModeConfig) (env : Env)
    (s : AgentWalletSystem)
    → succeeded (spend_governed id w r config env s).0 ≡ true
    → IsWithinLimits w r.amount config
spend_governed-IsWithinLimits id w r config env s h =
    let (transaction, day, month) = spend_governed-tests id w r config env s h in
    let l = min_limit w.transaction_limit config.transaction_limit in
    let (own, mode) =
      Within-min_limit r.amount w.transaction_limit config.transaction_limit
        (exceeds-false r.amount l transaction) in
    record {
      wallet_transaction = own;
      mode_transaction = mode;
      day = exceeds-false (w.daily_spent +ℤ r.amount) config.max_budget_per_day day;
      month = exceeds-false (w.monthly_spent +ℤ r.amount) config.max_budget_per_month month;
    }

-- What a successful spending of a governed agent was checked against. The counters of the day and
-- of the month are those behind the resets.
pub record IsChecked (w : AgentWallet) (r : SpendRequest) (env : Env) : Type 0 where
  pub active : w.is_active ≡ true
  pub not_frozen : w.is_frozen ≡ false
  pub covered : r.amount ≤ℤ w.balance
  pub limits : IsWithinLimits (maybe_reset_limits env w) r.amount env.manager.governed_config

spend_found-guards :
    (id : Key) (r : SpendRequest) (env : Env) (s : AgentWalletSystem) (w : AgentWallet)
    → succeeded (spend_found (some w) id r env s).0 ≡ true
    → ((not w.is_active || w.is_frozen) ≡ false)
      × (ltb_ℤ w.balance r.amount ≡ false)
      × (let w' = maybe_reset_limits env w in
          succeeded
            (spend_as
              (get_mode w'.agent_id env.manager)
              id
              w'
              r
              env
              (write_wallet r.wallet_id w' s)).0
          ≡ true)
unfolding spend_found
spend_found-guards id r env s w h = ground arith

-- A spending that succeeds for an agent in the governed mode comes from an active wallet that is
-- not frozen and whose balance covers the amount; the amount is within the limits of the wallet
-- and of the mode for one transaction, and with the amount the spending of the day and of the
-- month stays within the mode's budgets.
pub spend-IsChecked :
    (id : Key) (r : SpendRequest) (env : Env) (s : AgentWalletSystem) {w : AgentWallet}
    → get r.wallet_id s.wallets ≡ some w
    → get_mode w.agent_id env.manager ≡ governed
    → succeeded (spend id r env s).0 ≡ true
    → IsChecked w r env
unfolding spend
spend-IsChecked id r env s {w} found mode h =
    let h' = spend_found-guards id r env s w (rw (found, spend) at h) in
    let w' = maybe_reset_limits env w in
    let g : get_mode w'.agent_id env.manager ≡ governed = rw (agent-maybe_reset env w) mode in
    let t =
      spend_governed-IsWithinLimits id w' r env.manager.governed_config env
        (write_wallet r.wallet_id w' s) (unfold spend_as in rw g at (h'.2)) in
    record {
      active = ground (arith, h'.0);
      not_frozen = ground (arith, h'.0);
      covered = ground (arith, h'.1);
      limits = t;
    }
