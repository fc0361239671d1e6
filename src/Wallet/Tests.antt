-- ===== src/Wallet/Tests.antt =====
-- shared/agent/wallet.py: two wallets, and runs of the methods on them.
use rg_agent_engine.Base.{ℕ, ◌≡◌, refl, true, some, none, Key, ◌==◌, ◌&&◌, not, if◌then◌else◌}
use rg_agent_engine.Base.Int.{pos, ◌+ℤ◌, ◌-ℤ◌, ltb_ℤ, finite}
use rg_agent_engine.Base.Dict.{get, put}
use rg_agent_engine.Autonomy.{governed, default_unbounded, default_governed, new_manager, get_mode}
use rg_agent_engine.Wallet.Types.{
  AgentWallet, WalletTransaction, SpendRequest, plain, transfer_to, transfer_out, pending_approval,
}
use rg_agent_engine.Wallet.State.{
  AgentWalletSystem, Env, empty_system, maybe_reset_limits, write_wallet, append_transaction,
  create_transaction,
}
use rg_agent_engine.Wallet.Spend.{execute_spend, request_approval, spend, take_from, give_to}
use rg_agent_engine.Wallet.Move.{transfer, is_blocked, is_unapproved}
use rg_agent_engine.Wallet.Manage.{
  create_wallet, new_wallet, approve_transaction, reject_transaction, get_balance,
}
use rg_agent_engine.Wallet.Effect.{succeeded}
use rg_agent_engine.Wallet.Invariant.{IsWellFormed}
use rg_agent_engine.Wallet.Money.{total, total-transfer}
use rg_agent_engine.Wallet.Transfer.{IsMoved, transfer-IsMoved}
use rg_agent_engine.Wallet.Limits.{IsChecked, spend-IsChecked}
use rg_agent_engine.Wallet.Approve.{
  IsWaiting, IsSettled, approve_transaction_lem, reject_transaction_lem,
}
use rg_agent_engine.Wallet.Solvency.{IsSolvent}
use rg_agent_engine.Wallet.Debt.{begin, then_call, FairReach, FairReach-IsSolvent}
use rg_agent_engine.Base.{arith}
use rg_agent_engine.Wallet.Reach.{Reach, here, next, creates, transfers, Reach-IsWellFormed}

abbrev env : Env
env = record {
  manager = new_manager governed default_unbounded default_governed;
  approval_callback = none;
  now = 1000;
  today = 10;
  this_month = 1;
}

abbrev wallet_of : Key → Key → AgentWallet
wallet_of id agent =
    new_wallet id agent (pos 90) (finite (pos 100)) (finite (pos 50)) (finite (pos 1000)) env

abbrev add : Key → Key → AgentWalletSystem → AgentWalletSystem
add id agent s =
    (create_wallet id agent (pos 90) (finite (pos 100)) (finite (pos 50)) (finite (pos 1000)) env
      s).1

abbrev one : AgentWalletSystem
one = add 1 7 empty_system

-- The wallets 1 and 2, of the agents 7 and 8, with 90 each.
abbrev two : AgentWalletSystem
two = add 2 8 one

first_is_new : get 1 empty_system.wallets ≡ none
unfolding get empty_system
first_is_new = refl

second_is_new : get 2 one.wallets ≡ none
unfolding get put empty_system create_wallet
second_is_new = refl

first_found : get 1 two.wallets ≡ some (wallet_of 1 7)
unfolding get put empty_system create_wallet
first_found = refl

two-Reach : Reach empty_system two
two-Reach =
    let daily = finite (pos 100) in
    let single = finite (pos 50) in
    let monthly = finite (pos 1000) in
    next (next here (creates 1 7 (pos 90) daily single monthly env first_is_new))
      (creates 2 8 (pos 90) daily single monthly env second_is_new)

two-IsWellFormed : IsWellFormed two
two-IsWellFormed = Reach-IsWellFormed two-Reach

abbrev order : ℕ → SpendRequest
order amount = record {
  wallet_id = 1;
  amount = pos amount;
  description = plain 5;
  recipient_wallet_id = none;
}

is_governed : get_mode 7 env.manager ≡ governed
unfolding new_manager get_mode get
is_governed = refl

spends_30 : succeeded (spend 20 (order 30) env two).0 ≡ true
unfolding spend execute_spend create_transaction append_transaction take_from maybe_reset_limits
    write_wallet get put empty_system create_wallet new_manager get_mode default_governed ◌+ℤ◌ ◌-ℤ◌
spends_30 = refl

transfers_30 : succeeded (transfer 20 21 1 2 (pos 30) 5 env two).0 ≡ true
unfolding transfer spend execute_spend create_transaction append_transaction take_from
    maybe_reset_limits write_wallet get put empty_system create_wallet new_manager get_mode
    default_governed ◌+ℤ◌ ◌-ℤ◌ give_to is_blocked is_unapproved
transfers_30 = refl

balances_after : get_balance 1 (transfer 20 21 1 2 (pos 30) 5 env two).1 ≡ pos 60
unfolding transfer spend execute_spend create_transaction append_transaction take_from
    maybe_reset_limits write_wallet get put empty_system create_wallet new_manager get_mode
    default_governed ◌+ℤ◌ ◌-ℤ◌ give_to get_balance is_blocked is_unapproved
balances_after = refl

-- The agent 7 wants to send 60 to the wallet 2: above the limit of 50, so that it waits.
abbrev waiting : AgentWalletSystem
waiting = (transfer 20 21 1 2 (pos 60) 5 env two).1

abbrev waiting_transaction : WalletTransaction
waiting_transaction = record {
  id = 20;
  wallet_id = 1;
  type = transfer_out;
  amount = pos 60;
  description = transfer_to 8 5;
  counterparty_wallet_id = some 2;
  status = pending_approval;
  requires_approval = true;
  approval_id = none;
  approved_by = none;
  created_at = 1000;
  completed_at = none;
  rejection = none;
}

waiting_stored : get 20 waiting.transactions ≡ some waiting_transaction
unfolding transfer spend request_approval create_transaction append_transaction take_from
    maybe_reset_limits write_wallet get put empty_system create_wallet new_manager get_mode
    default_governed ◌+ℤ◌ ◌-ℤ◌ give_to is_blocked is_unapproved
waiting_stored = refl

waiting_wallet : get 1 waiting.wallets ≡ some (wallet_of 1 7)
unfolding transfer spend request_approval create_transaction append_transaction take_from
    maybe_reset_limits write_wallet get put empty_system create_wallet new_manager get_mode
    default_governed ◌+ℤ◌ ◌-ℤ◌ give_to is_blocked is_unapproved
waiting_wallet = refl

waiting-IsWaiting : IsWaiting 20 waiting_transaction (wallet_of 1 7) waiting
waiting-IsWaiting = record {
  stored = waiting_stored;
  own_id = refl;
  waits = refl;
  wallet = waiting_wallet;
}

abbrev settled : AgentWalletSystem
settled = (reject_transaction 20 3 4 waiting).1

settled-IsSettled : IsSettled 20 settled
settled-IsSettled =
    (reject_transaction_lem 20 3 4 waiting waiting_transaction waiting_stored refl refl).2

total-transfer_example : total (transfer 20 21 1 2 (pos 30) 5 env two).1.wallets ≡ total two.wallets
total-transfer_example = total-transfer 20 21 1 2 (pos 30) 5 env two two-IsWellFormed

transfer-IsMoved_example : IsMoved 1 2 (pos 30) two (transfer 20 21 1 2 (pos 30) 5 env two).1
transfer-IsMoved_example =
    transfer-IsMoved 20 21 1 2 (pos 30) 5 env two two-IsWellFormed transfers_30

spend-IsChecked_example : IsChecked (wallet_of 1 7) (order 30) env
spend-IsChecked_example =
    spend-IsChecked 20 (order 30) env two {w = wallet_of 1 7} first_found is_governed spends_30

Reach-IsWellFormed_example : IsWellFormed (transfer 20 21 1 2 (pos 60) 5 env two).1
Reach-IsWellFormed_example =
    Reach-IsWellFormed {s = waiting} (next two-Reach (transfers 20 21 1 2 (pos 60) 5 env))

approve_transaction_lem_example :
    let (result, s') = approve_transaction 20 9 1001 waiting in
    let covered = not (ltb_ℤ (wallet_of 1 7).balance (pos 60)) in
    (result.success ≡ covered)
    × (total s'.wallets
        ≡ (if covered then total waiting.wallets -ℤ pos 60 else total waiting.wallets))
    × ((k : Key)
        → get_balance k s'
          ≡ (if 1 == k && covered then get_balance k waiting -ℤ pos 60 else get_balance k waiting))
    × IsSettled 20 s'
approve_transaction_lem_example =
    approve_transaction_lem 20 9 1001 waiting waiting_transaction (wallet_of 1 7) waiting-IsWaiting

two-FairReach : FairReach empty_system two
two-FairReach =
    let daily = finite (pos 100) in
    let single = finite (pos 50) in
    let monthly = finite (pos 1000) in
    then_call
      (then_call begin (creates 1 7 (pos 90) daily single monthly env first_is_new) (omega arith))
      (creates 2 8 (pos 90) daily single monthly env second_is_new) (omega arith)

FairReach-IsSolvent_example : IsSolvent (transfer 20 21 1 2 (pos 30) 5 env two).1.wallets
FairReach-IsSolvent_example =
    FairReach-IsSolvent {s = (transfer 20 21 1 2 (pos 30) 5 env two).1}
      (then_call two-FairReach (transfers 20 21 1 2 (pos 30) 5 env) (omega arith))
