-- ===== src/Shares/Store.antt =====
-- The table of the shares and its queries (booking-share.repository.ts).
use ardenne_padel_v.Guarantees.Store.{GuaranteesDb}
use ardenne_padel_v.Prelude.{
  ◌==◌, same_option, find_by, update_where, count_by, ℤ, ℕ, Bool, true, false, ◌&&◌, Option, some,
  List,
}
use ardenne_padel_v.Prelude.Action.{Action, zoom}

pub data BookingShareStatus : Type 0 where
  share_open share_invited payment_pending share_paid : BookingShareStatus
  covered_by_organizer share_canceled share_refunded : BookingShareStatus

pub data BookingShareFundingSource : Type 0 where
  wallet_funds external_funds : BookingShareFundingSource

pub record BookingShare : Type 0 where
  pub id : ℕ
  pub booking_id : ℕ
  pub total_amount_cents : ℤ
  pub status : BookingShareStatus
  pub funding_source : Option BookingShareFundingSource
  pub paid_by_user_id : Option ℕ
  pub payment_id : Option ℕ
  pub wallet_transaction_id : Option ℕ
  pub invitation_token_hash : Option ℕ
  pub invitation_expires_at : Option ℕ
  pub paid_at : Option ℕ

pub record SharesDb : Type 0 where
  pub base : GuaranteesDb
  pub shares : List BookingShare

abbrev pub on_base : {A : Type 0} → Action GuaranteesDb A → Action SharesDb A
on_base = zoom (λ db. db.base) (λ b db. record db { base = b })

abbrev pub is_share : ℕ → BookingShare → Bool
is_share id s = s.id == id

-- `findById`
abbrev pub find_share_by_id : ℕ → SharesDb → Option BookingShare
find_share_by_id id db = find_by (is_share id) db.shares

abbrev pub has_token : ℕ → BookingShare → Bool
has_token hash s = same_option s.invitation_token_hash (some hash)

-- `findByTokenHash`
abbrev pub find_by_token_hash : ℕ → SharesDb → Option BookingShare
find_by_token_hash hash db = find_by (has_token hash) db.shares

-- `["OPEN", "INVITED"].includes(status)`
abbrev pub is_payable : BookingShareStatus → Bool
is_payable share_open = true
is_payable share_invited = true
is_payable _ = false

-- `status: { in: ["OPEN", "INVITED", "PAYMENT_PENDING"] }`
abbrev pub is_unpaid : BookingShareStatus → Bool
is_unpaid share_open = true
is_unpaid share_invited = true
is_unpaid payment_pending = true
is_unpaid _ = false

abbrev pub is_share_paid : BookingShareStatus → Bool
is_share_paid share_paid = true
is_share_paid _ = false

-- `updateMany` of the row with an id, where its status passes a test
unfoldable pub transition_share :
    (BookingShareStatus → Bool) → ℕ → (BookingShare → BookingShare) → SharesDb → Bool × SharesDb
transition_share allowed id change db = (
  count_by (λ s. is_share id s && allowed s.status) db.shares == 1,
  record db { shares = update_where (λ s. is_share id s && allowed s.status) change db.shares },
)

abbrev pub set_share_status : BookingShareStatus → BookingShare → BookingShare
set_share_status status s = record s { status = status }

-- `claimForPayment`
abbrev pub claim_for_payment : ℕ → SharesDb → Bool × SharesDb
claim_for_payment id = transition_share is_payable id (set_share_status payment_pending)

-- `markPaidIfPayable`
abbrev pub mark_paid_if_payable : ℕ → (BookingShare → BookingShare) → SharesDb → Bool × SharesDb
mark_paid_if_payable = transition_share is_unpaid

-- `updateStatus` of a share that was found
abbrev pub update_share_status : ℕ → BookingShareStatus → SharesDb → SharesDb
update_share_status id status db = record db {
  shares = update_where (is_share id) (set_share_status status) db.shares;
}
