-- ===== src/Shares/Tests.antt =====
-- Concrete shares.
use ardenne_padel_v.Shares.Refusals.{IsLinkValid, IsRefused}
use ardenne_padel_v.Wallet.Accounts.{IsAccountOf}
use ardenne_padel_v.Shares.Store.{
  share_open, share_invited, share_paid, wallet_funds, external_funds, BookingShare, SharesDb,
  transition_share,
}
use ardenne_padel_v.Shares.Rows.{share_key}
use ardenne_padel_v.Prelude.{
  pos, ◌+ℤ◌, plain_error, Result, ok, err, ◌+◌, ◌≡◌, refl, ◌⊎◌, Option, none, some, [], ◌∷◌, arith,
}
use ardenne_padel_v.Prelude.Keyed.{IsKeyed}
use ardenne_padel_v.Wallet.Store.{
  WalletAccount, WalletDb, sum_where, get_balance_total_cents, get_balance_by_origin, sum_active,
  get_reserved_cents,
}
use ardenne_padel_v.Wallet.Allocation.{breakdown_total}
use ardenne_padel_v.Wallet.Solvency.{IsValid}
use ardenne_padel_v.Payments.{
  PaymentIntentStatus, requires_action, requires_capture, succeeded, PaymentProvider,
  create_payment_row, update_payment_status, ensure_stripe_customer,
}
use ardenne_padel_v.Guarantees.{release_for_paid_share}
use ardenne_padel_v.Shares.{
  get_share_by_token, take_from_wallet, capture_share, take_from_card, take_money, paid_with,
  already_paid, finish_share, take_or_restore, pay_found, pay_share,
}
use ardenne_padel_v.Shares.Paid.{Restored}
use ardenne_padel_v.Shares.Once.{PaysShare, pay_share_lem, paid_once}
use ardenne_padel_v.Shares.FromWallet.{PaysOrLacks, take_from_wallet_lem}

abbrev no_wallet : WalletDb
no_wallet = record { accounts = []; transactions = []; holds = []; next_id = 1 }

no_wallet-IsValid : IsValid no_wallet
unfolding get_balance_total_cents get_balance_by_origin get_reserved_cents sum_where sum_active
    breakdown_total ◌+ℤ◌
no_wallet-IsValid = record {
  solvent = λ a. record {
    origins = record {
      paid_nonneg = omega arith;
      bonus_nonneg = omega arith;
      admin_comp_nonneg = omega arith;
    };
    summed = refl;
    covered = omega arith;
  };
  holds_fresh = tt;
  holds_distinct = tt;
  holds_nonneg = tt;
}

-- A provider that gives a payment this status at once.
abbrev answering : PaymentIntentStatus → PaymentProvider
answering status = record {
  create_customer = λ user. ok (100 + user);
  create_payment =
      λ input. ok (record { provider_payment_id = 77; status = status; client_secret = none });
  confirm_or_capture =
      λ id. ok (record { provider_payment_id = id; status = succeeded; client_secret = none });
  charge_saved_method = λ input. err plain_error;
}

abbrev invited : BookingShare
invited = record {
  id = 2;
  booking_id = 9;
  total_amount_cents = pos 800;
  status = share_invited;
  funding_source = none;
  paid_by_user_id = none;
  payment_id = none;
  wallet_transaction_id = none;
  invitation_token_hash = some 55;
  invitation_expires_at = some 1000;
  paid_at = none;
}

abbrev organizer : BookingShare
organizer = record invited {
  id = 1;
  status = share_paid;
  invitation_token_hash = none;
  invitation_expires_at = none;
}

abbrev tables : SharesDb
tables = record {
  base = record {
    wallet = no_wallet;
    payments = record {
      payments = [];
      users = record { id = 4; stripe_customer_id = none } ∷ [];
      requests = [];
      next_id = 1;
    };
    guarantees = [];
  };
  shares = organizer ∷ invited ∷ [];
}

tables-IsKeyed : IsKeyed share_key tables.shares
tables-IsKeyed = ((λ e. cc, tt), (tt, tt))

abbrev by_card : SharesDb → PaymentIntentStatus → Result (Option BookingShare) × SharesDb
by_card db status = pay_share (answering status) 500 55 4 external_funds (some 6) db

abbrev card_paid : BookingShare
card_paid =
    paid_with 500 4 external_funds (record { payment_id = some 1; wallet_ref = none }) invited

paid_by_capture : (by_card tables requires_capture).0 ≡ ok (some card_paid)
unfolding pay_share get_share_by_token pay_found take_or_restore finish_share transition_share
    take_money take_from_card capture_share release_for_paid_share ensure_stripe_customer
    create_payment_row update_payment_status
paid_by_capture = refl

-- The provider still waits for the payer to confirm the payment: the share is paid all the same.
paid_without_money : (by_card tables requires_action).0 ≡ ok (some card_paid)
unfolding pay_share get_share_by_token pay_found take_or_restore finish_share transition_share
    take_money take_from_card capture_share release_for_paid_share ensure_stripe_customer
    create_payment_row update_payment_status
paid_without_money = refl

pay_share_lem_example :
    let r = by_card tables requires_capture in
    let money = take_money (answering requires_capture) 4 external_funds (some 6) invited in
    IsRefused 500 invited tables r
    ⊎ (IsLinkValid 500 invited
        × ((invited.status ≡ share_open) ⊎ (invited.status ≡ share_invited))
        × (Restored 500 4 55 external_funds invited money tables r
            ⊎ PaysShare 500 4 55 external_funds invited money tables r))
pay_share_lem_example =
    pay_share_lem (answering requires_capture) 500 55 4 external_funds (some 6) invited tables refl
      tables-IsKeyed

paid_once_example :
    let (_, db') = by_card tables requires_capture in
    (pay_share (answering succeeded) 600 55 5 wallet_funds none db' ≡ (err already_paid, db'))
    × (pay_found (answering succeeded) 600 5 wallet_funds none invited db'
        ≡ (err already_paid, db'))
paid_once_example =
    paid_once (answering requires_capture) (answering succeeded) 500 55 4 600 5 external_funds
      wallet_funds (some 6) none invited (some card_paid) tables refl tables-IsKeyed paid_by_capture

take_from_wallet_lem_example :
    (a : WalletAccount) × IsAccountOf 4 a tables.base.wallet
      (take_from_wallet 4 invited tables.base).1.wallet.accounts
    × PaysOrLacks (pos 800) a tables.base (take_from_wallet 4 invited tables.base)
take_from_wallet_lem_example =
    take_from_wallet_lem 4 invited tables.base no_wallet-IsValid (omega arith)
