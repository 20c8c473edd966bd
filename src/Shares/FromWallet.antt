-- ===== src/Shares/FromWallet.antt =====
-- A share that is paid from the payer's wallet (booking-share.service.ts, `payShare`).
use ardenne_padel_v.Guarantees.Store.{GuaranteesDb, on_wallet}
use ardenne_padel_v.Shares.Store.{BookingShare}
use ardenne_padel_v.Prelude.Action.{Action, pure, zoom, bind_ok, bind_err}
use ardenne_padel_v.Prelude.{
  ℤ, pos, ◌≤ℤ◌, ◌<ℤ◌, int_laws, -ℤ_zero, Result, ok, err, integer, then_answer, ℕ, ◌≡◌, refl, sym,
  ap, ◌∙◌, subst, ◌⊎◌, inl, inr,
}
use ardenne_padel_v.Wallet.Store.{WalletAccount, WalletDb}
use ardenne_padel_v.Wallet.HoldChange.{Falls}
use ardenne_padel_v.Shares.{Evidence, wallet_evidence, debit_share, take_from_wallet}
use ardenne_padel_v.Wallet.Service.{ensure_account, insufficient, debit_for_booking}
use ardenne_padel_v.Wallet.Debits.{available, Spent, direct_debits_exact}
use ardenne_padel_v.Wallet.Solvency.{IsValid}
use ardenne_padel_v.Wallet.Effects.{Falls-trans, Falls-eq}
use ardenne_padel_v.Wallet.Accounts.{IsAccountOf, ensure_account-Falls, debit_for_booking-accounts}

Spent-Falls :
    {account : ℕ} {amount : ℤ} {db db' : WalletDb}
    → Spent account amount db db'
    → Falls account amount (pos 0) db db'
Spent-Falls {account} s = record {
  total_falls = s.falls;
  reserve_falls = s.reserves account ∙ sym (-ℤ_zero _);
  others = λ a ne. (s.others a ne, s.reserves a);
  valid = s.valid;
}

-- The account has paid the amount, or its balance does not cover it and it has paid nothing.
abbrev pub PaysOrLacks : ℤ → WalletAccount → GuaranteesDb → Result Evidence × GuaranteesDb → Type 0
PaysOrLacks amount a base (r, base') =
    ((amount ≤ℤ available a.id base.wallet)
      × (r ≡ ok (wallet_evidence a))
      × Falls a.id amount (pos 0) base.wallet base'.wallet)
    ⊎ ((available a.id base.wallet <ℤ amount)
        × (r ≡ err insufficient)
        × Falls a.id (pos 0) (pos 0) base.wallet base'.wallet)

same_available :
    {account : ℕ} {db db' : WalletDb}
    → Falls account (pos 0) (pos 0) db db'
    → available account db' ≡ available account db
same_available f = rw (f.total_falls, f.reserve_falls) (omega int_laws)

on_wallet_lem :
    {A : Type 0} (m : Action WalletDb A) (base : GuaranteesDb) {r : Result A} {w : WalletDb}
    → m base.wallet ≡ (r, w)
    → on_wallet m base ≡ (r, record base { wallet = w })
on_wallet_lem m base e = rw (zoom, e)

module _ (payer : ℕ) (share : BookingShare) (base : GuaranteesDb) (a : WalletAccount)
    (ready : (ensure_account payer base.wallet).0 ≡ ok a)
    (f : Falls a.id (pos 0) (pos 0) base.wallet (ensure_account payer base.wallet).1) where
  abbrev debit_booking : Action WalletDb (Unit {0})
  debit_booking = debit_for_booking a.id share.booking_id (integer share.total_amount_cents)

  abbrev with_account : WalletDb
  with_account = (ensure_account payer base.wallet).1

  debit_share_lem :
      (r : Result (Unit {0})) (w : WalletDb)
      → debit_booking with_account ≡ (r, w)
      → debit_share share a (record base { wallet = with_account })
        ≡ (then_answer r (wallet_evidence a), record base { wallet = w })
  debit_share_lem (ok _) w e =
      bind_ok (on_wallet debit_booking) (λ _. pure (wallet_evidence a))
        (on_wallet_lem debit_booking (record base { wallet = with_account }) e)
  debit_share_lem (err x) w e =
      bind_err (on_wallet debit_booking) (λ _. pure (wallet_evidence a))
        (on_wallet_lem debit_booking (record base { wallet = with_account }) e)

  taken :
      (r : Result (Unit {0})) (w : WalletDb)
      → debit_booking with_account ≡ (r, w)
      → take_from_wallet payer share base
        ≡ (then_answer r (wallet_evidence a), record base { wallet = w })
  unfolding take_from_wallet
  taken r w e =
      bind_ok (on_wallet (ensure_account payer)) (debit_share share)
        (on_wallet_lem (ensure_account payer) base (ap (λ x. (x, with_account)) ready))
      ∙ debit_share_lem r w e

  kept : (take_from_wallet payer share base).1.wallet.accounts ≡ with_account.accounts
  kept =
      rw (taken (debit_booking with_account).0 (debit_booking with_account).1 refl)
        (debit_for_booking-accounts a.id share.booking_id share.total_amount_cents with_account)

  paid :
      pos 0 ≤ℤ share.total_amount_cents
      → PaysOrLacks share.total_amount_cents a base (take_from_wallet payer share base)
  paid p =
      let e = taken (debit_booking with_account).0 (debit_booking with_account).1 refl in
      elim (direct_debits_exact a.id share.booking_id share.total_amount_cents with_account f.valid
        p).0 [
          | inl (covers, done, spent) ↦
              rw (e, done)
                (inl (
                  subst (λ n. share.total_amount_cents ≤ℤ n) (same_available f) covers,
                  refl,
                  Falls-eq (omega int_laws) (omega int_laws) (Falls-trans f (Spent-Falls spent)),
                ))
          | inr (lacks, thrown, same) ↦
              rw (e, thrown)
                (inr (
                  subst (λ n. n <ℤ share.total_amount_cents) (same_available f) lacks,
                  refl,
                  rw same f,
                ))
        ]

-- In a valid wallet, for a share of zero or more: the payment of a share from the wallet takes the
-- account that the payer had, or makes one if there was none, and spends exactly the amount of the share from it when the available
-- balance covers it. Otherwise it throws INSUFFICIENT_WALLET_BALANCE, and no sum of the wallet has
-- changed. The wallet stays valid.
pub take_from_wallet_lem :
    (payer : ℕ) (share : BookingShare) (base : GuaranteesDb)
    → IsValid base.wallet
    → pos 0 ≤ℤ share.total_amount_cents
    → (a : WalletAccount) × IsAccountOf payer a base.wallet
        (take_from_wallet payer share base).1.wallet.accounts
      × PaysOrLacks share.total_amount_cents a base (take_from_wallet payer share base)
take_from_wallet_lem payer share base v p =
    let (a, own, ready, f) = ensure_account-Falls payer base.wallet v in
    (
      a,
      subst (IsAccountOf payer a base.wallet) (sym (kept payer share base a ready (f a.id))) own,
      paid payer share base a ready (f a.id) p,
    )
