-- ===== src/CreditPacks/Store.antt =====
-- The tables of the packs and their purchases, with their queries (credit-packs.repository.ts).
use ardenne_padel_v.Prelude.{
  ◌==◌, if◌then◌else◌, same_option, any_by, find_by, update_where, count_by, ℤ, plain_error, ok,
  err, ℕ, suc, Bool, true, false, ◌&&◌, Option, none, some, List, ◌∷◌,
}
use ardenne_padel_v.Prelude.Action.{Action, zoom}
use ardenne_padel_v.Wallet.Store.{WalletDb}
use ardenne_padel_v.Payments.{PaymentsDb}

pub record CreditPack : Type 0 where
  pub id : ℕ
  pub purchase_amount_cents : ℤ
  pub paid_credits_cents : ℤ
  pub bonus_credits_cents : ℤ
  pub active : Bool

pub data CreditPackPurchaseStatus : Type 0 where
  purchase_pending purchase_paid purchase_credited purchase_failed : CreditPackPurchaseStatus

pub record CreditPackPurchase : Type 0 where
  pub id : ℕ
  pub credit_pack_id : ℕ
  pub user_id : ℕ
  pub payment_id : Option ℕ
  pub purchase_amount_cents : ℤ
  pub paid_credits_cents : ℤ
  pub bonus_credits_cents : ℤ
  pub status : CreditPackPurchaseStatus

pub record PacksDb : Type 0 where
  pub wallet : WalletDb
  pub payments : PaymentsDb
  pub packs : List CreditPack
  pub purchases : List CreditPackPurchase
  pub next_id : ℕ

abbrev pub on_wallet : {A : Type 0} → Action WalletDb A → Action PacksDb A
on_wallet = zoom (λ db. db.wallet) (λ w db. record db { wallet = w })

abbrev pub on_payments : {A : Type 0} → Action PaymentsDb A → Action PacksDb A
on_payments = zoom (λ db. db.payments) (λ p db. record db { payments = p })

-- `findById`
abbrev pub find_pack_by_id : ℕ → PacksDb → Option CreditPack
find_pack_by_id id db = find_by (λ p. p.id == id) db.packs

abbrev pub is_purchase : ℕ → CreditPackPurchase → Bool
is_purchase id p = p.id == id

-- `findPurchaseById`
abbrev pub find_purchase_by_id : ℕ → PacksDb → Option CreditPackPurchase
find_purchase_by_id id db = find_by (is_purchase id) db.purchases

-- `findPurchaseByPaymentId`
abbrev pub find_purchase_by_payment_id : ℕ → PacksDb → Option CreditPackPurchase
find_purchase_by_payment_id payment db =
    find_by (λ p. same_option p.payment_id (some payment)) db.purchases

-- `createPurchase` for a pack
abbrev pub create_purchase : CreditPack → ℕ → PacksDb → CreditPackPurchase × PacksDb
create_purchase pack user db =
    let purchase : CreditPackPurchase = record {
      id = db.next_id;
      credit_pack_id = pack.id;
      user_id = user;
      payment_id = none;
      purchase_amount_cents = pack.purchase_amount_cents;
      paid_credits_cents = pack.paid_credits_cents;
      bonus_credits_cents = pack.bonus_credits_cents;
      status = purchase_pending;
    } in
    (purchase, record db { purchases = purchase ∷ db.purchases; next_id = suc db.next_id })

-- `updatePurchase`, which throws if there is no such row; the data is a function on the row.
unfoldable pub update_purchase :
    ℕ → (CreditPackPurchase → CreditPackPurchase) → Action PacksDb (Unit {0})
update_purchase id change db =
    if any_by (is_purchase id) db.purchases
    then (ok tt, record db { purchases = update_where (is_purchase id) change db.purchases })
    else (err plain_error, db)

abbrev pub set_purchase_status : CreditPackPurchaseStatus → CreditPackPurchase → CreditPackPurchase
set_purchase_status status p = record p { status = status }

abbrev pub is_paid : CreditPackPurchaseStatus → Bool
is_paid purchase_paid = true
is_paid _ = false

abbrev pub is_pending : CreditPackPurchaseStatus → Bool
is_pending purchase_pending = true
is_pending _ = false

abbrev pub is_paid_purchase : ℕ → CreditPackPurchase → Bool
is_paid_purchase id p = is_purchase id p && is_paid p.status

-- `markCreditedIfPaid`
unfoldable pub mark_credited_if_paid : ℕ → PacksDb → Bool × PacksDb
mark_credited_if_paid id db = (
  count_by (is_paid_purchase id) db.purchases == 1,
  record db {
    purchases =
        update_where (is_paid_purchase id) (set_purchase_status purchase_credited) db.purchases;
  },
)
