-- ===== src/CreditPacks/Tests.antt =====
-- Concrete purchases of packs.
use ardenne_padel_v.CreditPacks.Store.{
  CreditPack, purchase_pending, CreditPackPurchase, PacksDb, update_purchase, mark_credited_if_paid,
}
use ardenne_padel_v.Prelude.{
  pos, ◌+ℤ◌, plain_error, ok, err, ok-injective, ℕ, ◌+◌, ◌≡◌, refl, subst, true, false, none, some,
  [], ◌∷◌, arith,
}
use ardenne_padel_v.Wallet.Store.{
  WalletDb, sum_where, get_balance_total_cents, get_balance_by_origin, sum_active,
  get_reserved_cents,
}
use ardenne_padel_v.Wallet.Service.{ensure_account, credit_from_pack_purchase}
use ardenne_padel_v.Wallet.Solvency.{IsValid}
use ardenne_padel_v.Wallet.Allocation.{breakdown_total}
use ardenne_padel_v.Payments.{
  PaymentIntentStatus, requires_capture, succeeded, canceled, PaymentRef, PaymentProvider,
  transaction_requires_action, PaymentPurpose, Payment, find_payment_by_provider_payment_id,
  create_payment_row, update_payment_status, ensure_stripe_customer,
}
use ardenne_padel_v.CreditPacks.{
  is_succeeded, credit_purchase, credit_captured, capture_and_credit, finish_purchase, settle_pack,
  charge_pack, pay_pack, purchase, continue_after_authorization_confirmed,
}
use ardenne_padel_v.CreditPacks.Credited.{asked, CaptureOutcome, capture_and_credit_lem}
use ardenne_padel_v.CreditPacks.Once.{continue_once}
use ardenne_padel_v.CreditPacks.Unpaid.{unpaid_no_credit}

abbrev empty_wallet : WalletDb
empty_wallet = record { accounts = []; transactions = []; holds = []; next_id = 1 }

empty_wallet-IsValid : IsValid empty_wallet
unfolding get_balance_total_cents get_balance_by_origin get_reserved_cents sum_where sum_active
    breakdown_total ◌+ℤ◌
empty_wallet-IsValid = record {
  solvent = λ a. record {
    origins = record {
      paid_nonneg = omega arith;
      bonus_nonneg = omega arith;
      admin_comp_nonneg = omega arith;
    };
    summed = refl;
    covered = omega arith;
  };
  holds_fresh = tt;
  holds_distinct = tt;
  holds_nonneg = tt;
}

-- A provider that takes all money by a capture, and one whose captures are all canceled.
abbrev answering : PaymentIntentStatus → PaymentProvider
answering status = record {
  create_customer = λ user. ok (100 + user);
  create_payment = λ input.
      ok (record { provider_payment_id = 77; status = requires_capture; client_secret = none });
  confirm_or_capture =
      λ id. ok (record { provider_payment_id = id; status = status; client_secret = none });
  charge_saved_method = λ input. err plain_error;
}

-- 100.00 buy 100.00 of credits and 10.00 of bonus.
abbrev pack : CreditPack
pack = record {
  id = 3;
  purchase_amount_cents = pos 10000;
  paid_credits_cents = pos 10000;
  bonus_credits_cents = pos 1000;
  active = true;
}

abbrev shop : PacksDb
shop = record {
  wallet = empty_wallet;
  payments = record {
    payments = [];
    users = record { id = 4; stripe_customer_id = none } ∷ [];
    requests = [];
    next_id = 1;
  };
  packs = pack ∷ [];
  purchases = [];
  next_id = 1;
}

bought :
    (purchase (answering succeeded) 4 3 6 shop).0
    ≡ ok (record { purchase_id = 1; requires_action = false; client_secret = none })
unfolding purchase pay_pack charge_pack settle_pack finish_purchase capture_and_credit
    credit_captured update_purchase mark_credited_if_paid credit_purchase ensure_stripe_customer
    create_payment_row update_payment_status ensure_account credit_from_pack_purchase
bought = refl

abbrev paid_by_card : Payment
paid_by_card = record {
  id = 1;
  user_id = 4;
  booking_id = none;
  provider_payment_id = 77;
  amount_cents = pos 10000;
  status = transaction_requires_action;
  purpose = PaymentPurpose.credit_pack_purchase;
}

abbrev waiting : CreditPackPurchase
waiting = record {
  id = 1;
  credit_pack_id = 3;
  user_id = 4;
  payment_id = some 1;
  purchase_amount_cents = pos 10000;
  paid_credits_cents = pos 10000;
  bonus_credits_cents = pos 1000;
  status = purchase_pending;
}

-- A purchase that waits for the confirmation of its payment.
abbrev waiting_shop : PacksDb
waiting_shop = record shop {
  payments = record shop.payments { payments = paid_by_card ∷ [] };
  purchases = waiting ∷ [];
}

capture_and_credit_lem_example :
    CaptureOutcome 1 waiting waiting_shop
      ((answering succeeded).confirm_or_capture 77)
      (asked 77 waiting_shop)
      (capture_and_credit (answering succeeded) 1 1 77 waiting_shop)
capture_and_credit_lem_example =
    capture_and_credit_lem (answering succeeded) 1 1 77 waiting waiting_shop empty_wallet-IsValid
      (tt, tt) refl refl (omega arith) (omega arith)

abbrev captured_ref : PaymentRef
captured_ref = record { provider_payment_id = 77; status = succeeded; client_secret = none }

payment_at_hand : find_payment_by_provider_payment_id 77 waiting_shop.payments ≡ some paid_by_card
unfolding find_payment_by_provider_payment_id
payment_at_hand = refl

continue_once_example :
    let (_, db') = continue_after_authorization_confirmed (answering succeeded) 77 waiting_shop in
    continue_after_authorization_confirmed (answering succeeded) 77 db' ≡ (ok tt, db')
continue_once_example =
    continue_once (answering succeeded) (answering succeeded) 77 paid_by_card waiting captured_ref
      waiting_shop payment_at_hand refl (tt, tt) empty_wallet-IsValid (omega arith) (omega arith)
      refl

canceled_takes_nothing :
    (id : ℕ) (ref : PaymentRef)
    → (answering canceled).confirm_or_capture id ≡ ok ref
    → is_succeeded ref.status ≡ false
canceled_takes_nothing id ref e =
    subst (λ (r : PaymentRef). is_succeeded r.status ≡ false) (ok-injective e) refl

unpaid_no_credit_example :
    ((purchase (answering canceled) 4 3 6 waiting_shop).1.wallet ≡ empty_wallet)
    × ((continue_after_authorization_confirmed (answering canceled) 77 waiting_shop).1.wallet
        ≡ empty_wallet)
unpaid_no_credit_example =
    unpaid_no_credit (answering canceled) 4 3 6 77 waiting_shop canceled_takes_nothing

-- Two captures of one purchase that the provider both answers with success credit it twice.
credited_twice :
    get_balance_total_cents 1
      (capture_and_credit
        (answering succeeded)
        1
        1
        77
        (capture_and_credit (answering succeeded) 1 1 77 waiting_shop).1).1.wallet
    ≡ pos 22000
unfolding capture_and_credit credit_captured update_purchase mark_credited_if_paid credit_purchase
    update_payment_status ensure_account credit_from_pack_purchase get_balance_total_cents sum_where
    ◌+ℤ◌
credited_twice = refl
