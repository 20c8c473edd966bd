-- ===== src/Wallet/Solvency.antt =====
-- The invariant of the wallet store: no origin is overdrawn, the total is the sum of the origins, and
-- what the active holds reserve is covered.
use ardenne_padel_v.Prelude.{
  ◌==◌, if◌then◌else◌, Bool-cases, All, ℤ, pos, ◌≤ℤ◌, ◌<ℤ◌, int_laws, ◌+ℤ◌, ℕ, ◌<◌, ◌≡◌, ap, ◌∙◌,
  ◌≢◌, inl, inr, ◌&&◌, List, [], ◌∷◌, arith,
}
use ardenne_padel_v.Wallet.Store.{
  WalletCreditOrigin, paid, bonus, admin_comp, WalletTransaction, WalletHold, WalletDb, Breakdown,
  is_active, get_balance_total_cents, get_balance_by_origin, sum_active, get_reserved_cents,
  create_transactions,
}
use ardenne_padel_v.Wallet.Allocation.{Allocation, breakdown_total}
use ardenne_padel_v.Wallet.Allocation.Across.{allocated_to, IsNonneg, allocated_sum-by_origin}
use ardenne_padel_v.Wallet.Service.{rows_of}
use ardenne_padel_v.Wallet.Ledger.{IsRow, IsSign, total_after, origin_after}

pub record IsSolvent (a : ℕ) (db : WalletDb) : Type 0 where
  pub origins : IsNonneg (get_balance_by_origin a db)
  pub summed : get_balance_total_cents a db ≡ breakdown_total (get_balance_by_origin a db)
  pub covered : get_reserved_cents a db ≤ℤ get_balance_total_cents a db

-- No two holds have the same id.
abbrev pub IsDistinct : List WalletHold → Type 0
IsDistinct [] = Unit
IsDistinct (h ∷ hs) = All (λ k. k.id ≢ h.id) hs × IsDistinct hs

pub record IsValid (db : WalletDb) : Type 0 where
  pub solvent : (a : ℕ) → IsSolvent a db
  pub holds_fresh : All (λ h. h.id < db.next_id) db.holds
  pub holds_distinct : IsDistinct db.holds
  pub holds_nonneg : All (λ h. pos 0 ≤ℤ h.amount_cents) db.holds

sum_active-nonneg :
    (a : ℕ) (hs : List WalletHold)
    → All (λ h. pos 0 ≤ℤ h.amount_cents) hs
    → pos 0 ≤ℤ sum_active a hs
unfolding sum_active
sum_active-nonneg a [] h = omega arith
sum_active-nonneg a (x ∷ xs) h =
    elim (Bool-cases (x.wallet_account_id == a && is_active x.status)) [
      | inl e ↦ rw e (let ih = sum_active-nonneg a xs h.1 in let p = h.0 in omega int_laws)
      | inr e ↦ rw e (let ih = sum_active-nonneg a xs h.1 in omega int_laws)
    ]

pub reserved_nonneg : (a : ℕ) (db : WalletDb) → IsValid db → pos 0 ≤ℤ get_reserved_cents a db
unfolding get_reserved_cents
reserved_nonneg a db v = sum_active-nonneg a db.holds v.holds_nonneg

-- What changes an account: each origin moves by an amount, and the total by their sum.
pub record Moves (a : ℕ) (db db' : WalletDb) (d : Breakdown) : Type 0 where
  pub paid_moves :
      (get_balance_by_origin a db').paid_cents
      ≡ d.paid_cents +ℤ (get_balance_by_origin a db).paid_cents
  pub bonus_moves :
      (get_balance_by_origin a db').bonus_cents
      ≡ d.bonus_cents +ℤ (get_balance_by_origin a db).bonus_cents
  pub admin_comp_moves :
      (get_balance_by_origin a db').admin_comp_cents
      ≡ d.admin_comp_cents +ℤ (get_balance_by_origin a db).admin_comp_cents
  pub total_moves :
      get_balance_total_cents a db'
      ≡ d.bonus_cents +ℤ d.paid_cents +ℤ d.admin_comp_cents +ℤ get_balance_total_cents a db

-- An account stays solvent if no origin falls below zero and the reserve stays covered.
pub Moves-IsSolvent :
    (a : ℕ) (db db' : WalletDb) (d : Breakdown)
    → Moves a db db' d
    → IsSolvent a db
    → IsNonneg (get_balance_by_origin a db')
    → get_reserved_cents a db'
      ≤ℤ d.bonus_cents +ℤ d.paid_cents +ℤ d.admin_comp_cents +ℤ get_balance_total_cents a db
    → IsSolvent a db'
unfolding breakdown_total
Moves-IsSolvent a db db' d m s n c = record {
  origins = n;
  summed =
      rw (m.total_moves, m.paid_moves, m.bonus_moves, m.admin_comp_moves, s.summed)
        (omega int_laws);
  covered = rw m.total_moves c;
}

abbrev pub signed_breakdown : (ℤ → ℤ) → List Allocation → Breakdown
signed_breakdown signed bs = record {
  paid_cents = signed (allocated_to paid bs);
  bonus_cents = signed (allocated_to bonus bs);
  admin_comp_cents = signed (allocated_to admin_comp bs);
}

abbrev pub nothing : Breakdown
nothing = record { paid_cents = pos 0; bonus_cents = pos 0; admin_comp_cents = pos 0 }

-- Rows written for allocations move their own account by what is signed of each, and no other.
module _ (account : ℕ) (signed : ℤ → ℤ) (row : Allocation → WalletTransaction)
    (sign : IsSign signed) (r : IsRow account signed row) (bs : List Allocation) (db : WalletDb)
    (p : All (λ b. pos 0 <ℤ b.amount_cents) bs) where
  pub rows-Moves :
      (a : ℕ)
      → Moves a db
          (create_transactions (rows_of row bs) db)
          (if account == a then signed_breakdown signed bs else nothing)
  rows-Moves a =
      let t = total_after account signed row sign r a bs db p in
      let o = λ (x : WalletCreditOrigin). origin_after account signed row sign r a x bs db p in
      elim (Bool-cases (account == a)) [
        | inl e ↦ rw e record {
          paid_moves = o paid ∙ rw e;
          bonus_moves = o bonus ∙ rw e;
          admin_comp_moves = o admin_comp ∙ rw e;
          total_moves =
              t
              ∙ rw e (
                  ap (λ x. x +ℤ get_balance_total_cents a db)
                    (ap signed (allocated_sum-by_origin bs)
                      ∙ sign.at_sum _ _
                      ∙ ap (λ x. x +ℤ signed (allocated_to admin_comp bs)) (sign.at_sum _ _)));
        }
        | inr e ↦ rw e record {
          paid_moves = o paid ∙ rw e;
          bonus_moves = o bonus ∙ rw e;
          admin_comp_moves = o admin_comp ∙ rw e;
          total_moves = t ∙ rw e (omega int_laws);
        }
      ]
