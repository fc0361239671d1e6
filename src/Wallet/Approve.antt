-- ===== src/Wallet/Approve.antt =====
-- shared/agent/wallet.py: the approval and the rejection of pending transactions.
use rg_agent_engine.Base.{
  ℕ, ◌≡◌, refl, true, false, some, Key, ◌==◌, ◌&&◌, not, if◌then◌else◌, arith, Bool-cases, inl, inr,
  ap, subst,
}
use rg_agent_engine.Base.Int.{◌-ℤ◌, ltb_ℤ, cancel_taken}
use rg_agent_engine.Base.Dict.{get, put, get-put_self}
use rg_agent_engine.Wallet.Types.{
  AgentWallet, WalletTransaction, pending_approval, completed, failed, rejected,
  insufficient_balance, not_pending,
}
use rg_agent_engine.Wallet.State.{AgentWalletSystem}
use rg_agent_engine.Wallet.Spend.{take_from, failure}
use rg_agent_engine.Wallet.Manage.{
  get_balance, approve_from, approve_transaction, reject_transaction, is_pending_approval,
}
use rg_agent_engine.Wallet.Money.{
  total, total-put, get_balance-put, get_balance-get, balance-take_from,
}

-- A pending transaction and its wallet.
pub record IsWaiting (id : Key) (t : WalletTransaction) (w : AgentWallet) (s : AgentWalletSystem)
    : Type 0 where
  pub stored : get id s.transactions ≡ some t
  pub own_id : t.id ≡ id
  pub waits : t.status ≡ pending_approval
  pub wallet : get t.wallet_id s.wallets ≡ some w

approve_transaction-approve_from :
    (id approver : Key) (now : ℕ) (s : AgentWalletSystem) (t : WalletTransaction) (w : AgentWallet)
    → IsWaiting id t w s
    → approve_transaction id approver now s ≡ approve_from w t approver now s
unfolding approve_transaction
approve_transaction-approve_from id approver now s t w h =
    rw (h.stored, approve_transaction) (rw h.waits (rw (h.wallet, approve_transaction)))

-- The decision is taken once: the stored transaction is no longer pending.
abbrev pub IsSettled : Key → AgentWalletSystem → Type 0
IsSettled id s =
    (t : WalletTransaction) × (get id s.transactions ≡ some t)
    × (is_pending_approval t.status ≡ false)

module _ (w : AgentWallet) (t : WalletTransaction) (approver : Key) (now : ℕ)
    (s : AgentWalletSystem) (found : get t.wallet_id s.wallets ≡ some w) where
  approve_from_short :
      ltb_ℤ w.balance t.amount ≡ true
      → let (result, s') = approve_from w t approver now s in
        (result ≡ failure insufficient_balance)
        × (s'.wallets ≡ s.wallets)
        × (get t.id s'.transactions ≡ some (record t { status = failed }))
  unfolding approve_from
  approve_from_short h = (
    ground arith,
    ground arith,
    rw (h, approve_from) (get-put_self t.id (record t { status = failed }) s.transactions),
  )

  approve_from_covered :
      ltb_ℤ w.balance t.amount ≡ false
      → let (result, s') = approve_from w t approver now s in
        let t' = record t {
          status = completed;
          approved_by = some approver;
          completed_at = some now;
        } in
        (result.success ≡ true)
        × (s'.wallets ≡ put t.wallet_id (take_from t.amount now w) s.wallets)
        × (get t.id s'.transactions ≡ some t')
  unfolding approve_from
  approve_from_covered h =
      let t' = record t {
        status = completed;
        approved_by = some approver;
        completed_at = some now;
      } in
      (ground arith, ground arith, rw (h, approve_from) (get-put_self t.id t' s.transactions))

-- Approving a pending transaction succeeds exactly if the balance of its wallet covers its amount:
-- no limit is looked at, and not whether the wallet is frozen or inactive. Then the amount leaves
-- that wallet, and with it the sum of all balances, also where the transaction is a transfer to
-- another wallet; else no balance changes. In both cases the transaction is no longer pending.
pub approve_transaction_lem :
    (id approver : Key) (now : ℕ) (s : AgentWalletSystem) (t : WalletTransaction) (w : AgentWallet)
    → IsWaiting id t w s
    → let (result, s') = approve_transaction id approver now s in
      let covered = not (ltb_ℤ w.balance t.amount) in
      (result.success ≡ covered)
      × (total s'.wallets ≡ (if covered then total s.wallets -ℤ t.amount else total s.wallets))
      × ((k : Key)
          → get_balance k s' ≡ (
              if t.wallet_id == k && covered then get_balance k s -ℤ t.amount else get_balance k s))
      × IsSettled id s'
approve_transaction_lem id approver now s t w h =
    rw (approve_transaction-approve_from id approver now s t w h)
      (elim (Bool-cases (ltb_ℤ w.balance t.amount)) [
        | inl short ↦
            let (result, same, stored) = approve_from_short w t approver now s h.wallet short in
            (
              ground (arith, result),
              simp short (ap total same),
              λ k. unfold get_balance in ground (arith, same),
              (record t { status = failed }, ground (arith, stored, h.own_id), refl),
            )
        | inr enough ↦
            let s' = (approve_from w t approver now s).1 in
            let w' = take_from t.amount now w in
            let (result, e, stored) = approve_from_covered w t approver now s h.wallet enough in
            let t' = record t {
              status = completed;
              approved_by = some approver;
              completed_at = some now;
            } in
            (
              ground (arith, result),
              simp enough (
                  rw e (
                    cancel_taken (total (put t.wallet_id w' s.wallets)) (total s.wallets) w.balance
                      w'.balance t.amount (total-put t.wallet_id w w' s.wallets h.wallet)
                      (unfold take_from in refl))),
              λ k. ground (
                arith,
                get_balance-put t.wallet_id w' s s' k e,
                get_balance-get t.wallet_id s h.wallet,
                balance-take_from t.amount now w,
              ),
              (t', ground (arith, stored, h.own_id), refl),
            )
      ])

-- A transaction that is not pending can be neither approved nor rejected, and nothing changes.
pub settled_for_good :
    (id who why : Key) (now : ℕ) (s : AgentWalletSystem)
    → IsSettled id s
    → (approve_transaction id who now s ≡ (failure not_pending, s))
      × (reject_transaction id who why s ≡ (failure not_pending, s))
unfolding approve_transaction reject_transaction
settled_for_good id who why now s (t, stored, over) =
    (rw (stored, approve_transaction) (rw over), rw (stored, reject_transaction) (rw over))

-- Rejecting a pending transaction moves no money and settles it.
pub reject_transaction_lem :
    (id who why : Key) (s : AgentWalletSystem) (t : WalletTransaction)
    → get id s.transactions ≡ some t
    → t.id ≡ id
    → t.status ≡ pending_approval
    → let (result, s') = reject_transaction id who why s in
      (result.success ≡ true) × (s'.wallets ≡ s.wallets) × IsSettled id s'
unfolding reject_transaction
reject_transaction_lem id who why s t stored own waits =
    let t' = record t { status = rejected; rejection = some (why, who) } in
    (
      rw (stored, reject_transaction) (rw waits),
      rw (stored, reject_transaction) (rw waits),
      (
        t',
        rw (stored, reject_transaction)
            (rw waits (
              subst (λ k. get k (put t.id t' s.transactions) ≡ some t') own
                (get-put_self t.id t' s.transactions))),
        refl,
      ),
    )
