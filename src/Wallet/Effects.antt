-- ===== src/Wallet/Effects.antt =====
-- Effects on the sums of an account, one after another.
use ardenne_padel_v.Prelude.{ℤ, pos, int_laws, -ℤ_zero, ◌+ℤ◌, ℕ, ◌≡◌, refl, sym, ◌∙◌, subst}
use ardenne_padel_v.Wallet.Store.{WalletDb}
use ardenne_padel_v.Wallet.Solvency.{IsValid}
use ardenne_padel_v.Wallet.HoldChange.{Falls}

pub Falls-refl : (account : ℕ) (db : WalletDb) → IsValid db → Falls account (pos 0) (pos 0) db db
Falls-refl account db v = record {
  total_falls = sym (-ℤ_zero _);
  reserve_falls = sym (-ℤ_zero _);
  others = λ a ne. (refl, refl);
  valid = v;
}

pub Falls-trans :
    {account : ℕ} {total reserve total' reserve' : ℤ} {db db' db'' : WalletDb}
    → Falls account total reserve db db'
    → Falls account total' reserve' db' db''
    → Falls account (total +ℤ total') (reserve +ℤ reserve') db db''
Falls-trans f k = record {
  total_falls = k.total_falls ∙ rw f.total_falls (omega int_laws);
  reserve_falls = k.reserve_falls ∙ rw f.reserve_falls (omega int_laws);
  others = λ a ne. ((k.others a ne).0 ∙ (f.others a ne).0, (k.others a ne).1 ∙ (f.others a ne).1);
  valid = k.valid;
}

pub Falls-eq :
    {account : ℕ} {total reserve total' reserve' : ℤ} {db db' : WalletDb}
    → total ≡ total'
    → reserve ≡ reserve'
    → Falls account total reserve db db'
    → Falls account total' reserve' db db'
Falls-eq {account} {total} {reserve} {total'} {reserve'} {db} {db'} e k f =
    subst (λ x. Falls account x reserve' db db') e (subst (λ x. Falls account total x db db') k f)
