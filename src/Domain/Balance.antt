-- ===== src/Domain/Balance.antt =====
-- An independent description of the lists of entries that `validate_balanced` of
-- server/crates/ledger-domain/src/lib.rs is to accept, and the lemmas on its loop.
use ledgerly.Prelude.{
  ℕ, ◌+◌, ◌*◌, ◌≤◌, ◌<◌, String, true, ◌≡◌, refl, ◌≢◌, List, [], ◌∷◌, length, All, arith, ◌==◌,
  eq_iff, ok, err, inl, inr, ap, Bool-cases, Result, Result-cases, ◌↔◌, inl, inr, ap, Bool-cases,
  Result-cases, ◌↔◌,
}
use ledgerly.Prelude.Int.{
  ℤ, pos, ◌+ℤ◌, pos_part, neg_part, IsI64, i64_half, i128_half, add_i128, wrap_of_Fits, int_laws,
  +ℤ_parts, +ℤ_zero, zero_+ℤ,
}
use ledgerly.Domain.{
  DomainError, Money, EntryDraft, is_currency, new_money, sum_entries, finish_sum,
  validate_balanced,
}

-- The amounts added up as integers.
abbrev pub total : List EntryDraft → ℤ
total [] = pos 0
total (e ∷ es) = e.amount_minor +ℤ total es

pub record IsPosting (currency : String) (e : EntryDraft) : Type 0 where
  pub same : e.currency ≡ currency
  pub formed : is_currency e.currency ≡ true
  pub nonzero : e.amount_minor ≢ pos 0
  pub in_range : IsI64 e.amount_minor

new_money-ok :
    (a : ℤ) (c : String)
    → is_currency c ≡ true
    → a ≢ pos 0
    → IsI64 a
    → new_money a c ≡ ok (record { amount_minor = a; currency = c })
unfolding new_money
new_money-ok a c formed nonzero fits = ground arith

new_money_inv :
    (a : ℤ) (c : String) {m : Money}
    → new_money a c ≡ ok m
    → (is_currency c ≡ true) × (a ≢ pos 0) × IsI64 a
unfolding new_money
new_money_inv a c {m} h = ground arith

abbrev Bounded : ℕ → ℤ → Type 0
Bounded k a = (pos_part a ≤ k * i64_half) × (neg_part a ≤ k * i64_half)

Bounded-add : (k : ℕ) (acc a : ℤ) → Bounded k acc → IsI64 a → Bounded (k + 1) (acc +ℤ a)
Bounded-add k acc a h fits = ground (arith, +ℤ_parts acc a)

-- After k amounts in range the running sum is far from the ends of an `i128`.
add_i128_exact :
    (k : ℕ) (acc a : ℤ) → k < i64_half → Bounded k acc → IsI64 a → add_i128 acc a ≡ acc +ℤ a
add_i128_exact k acc a small h fits =
    wrap_of_Fits i128_half (acc +ℤ a) (omega (arith, Bounded-add k acc a h fits))

-- A first entry that is accepted: its currency, its amount, and the rest of the loop.
sum_entries-cons_inv :
    (c : String) (acc : ℤ) (e : EntryDraft) (es : List EntryDraft) (r : ℤ)
    → sum_entries c acc (e ∷ es) ≡ ok r
    → IsPosting c e × (sum_entries c (add_i128 acc e.amount_minor) es ≡ ok r)
unfolding sum_entries
sum_entries-cons_inv c acc e es r q = elim (Bool-cases (e.currency == c)) [
  | inr other ↦ absurd (cc (rw other at q))
  | inl same ↦ elim (Result-cases (new_money e.amount_minor e.currency)) [
    | inr (x, bad) ↦ absurd (cc (rw (same, bad) at q))
    | inl (m, good) ↦
        let (formed, nonzero, fits) = new_money_inv e.amount_minor e.currency good in
        (
          record {
            same = (eq_iff e.currency c).0 same;
            formed = formed;
            nonzero = nonzero;
            in_range = fits;
          },
          rw (same, good) at q,
        )
  ]
]

sum_entries-cons_ok :
    (c : String) (acc : ℤ) (e : EntryDraft) (es : List EntryDraft)
    → IsPosting c e
    → sum_entries c acc (e ∷ es) ≡ sum_entries c (add_i128 acc e.amount_minor) es
unfolding sum_entries
sum_entries-cons_ok c acc e es p = rw (
  (eq_iff e.currency c).1 p.same,
  new_money-ok e.amount_minor e.currency p.formed p.nonzero p.in_range,
)

sum_entries_inv :
    (c : String) (k : ℕ) (acc : ℤ) (es : List EntryDraft) (r : ℤ)
    → k + length es ≤ i64_half
    → Bounded k acc
    → sum_entries c acc es ≡ ok r
    → All (IsPosting c) es × (r ≡ acc +ℤ total es)
unfolding sum_entries
sum_entries_inv c k acc [] r small h q = (tt, cc (+ℤ_zero acc))
sum_entries_inv c k acc (e ∷ es) r small h q =
    let (p, rest) = sum_entries-cons_inv c acc e es r q in
    let exact = add_i128_exact k acc e.amount_minor (omega arith) h p.in_range in
    let (ps, sum) =
      sum_entries_inv c (k + 1) (acc +ℤ e.amount_minor) es r (omega arith)
        (Bounded-add k acc e.amount_minor h p.in_range) (rw exact at rest) in
    ((p, ps), rw sum (omega int_laws))

sum_entries-ok :
    (c : String) (k : ℕ) (acc : ℤ) (es : List EntryDraft)
    → k + length es ≤ i64_half
    → Bounded k acc
    → All (IsPosting c) es
    → sum_entries c acc es ≡ ok (acc +ℤ total es)
unfolding sum_entries
sum_entries-ok c k acc [] small h posted = cc (+ℤ_zero acc)
sum_entries-ok c k acc (e ∷ es) small h posted =
    rw
      (
        sum_entries-cons_ok c acc e es posted.0,
        add_i128_exact k acc e.amount_minor (omega arith) h posted.0.in_range,
        sum_entries-ok c (k + 1) (acc +ℤ e.amount_minor) es (omega arith)
            (Bounded-add k acc e.amount_minor h posted.0.in_range) posted.1,
      )
      (ap ok (omega int_laws))

finish_sum_inv : (r : Result ℤ DomainError) → finish_sum r ≡ ok tt → r ≡ ok (pos 0)
unfolding finish_sum
finish_sum_inv (ok s) h = ground arith
finish_sum_inv (err e) h = cc

-- The currency of the first entry.
abbrev pub currency_of : List EntryDraft → String
currency_of [] = ""
currency_of (e ∷ es) = e.currency

pub record IsBalanced (drafts : List EntryDraft) : Type 0 where
  pub enough : 2 ≤ length drafts
  pub posted : All (IsPosting (currency_of drafts)) drafts
  pub zero_sum : total drafts ≡ pos 0

-- `validate_balanced` accepts a list of at most 2 ^ 63 entries (no `Vec` is longer) exactly when it has two entries or
-- more, all in the first one's currency, which is three capital ASCII letters, no amount is zero
-- or outside `i64`, and the amounts add up to zero as unbounded integers.
pub validate_balanced-IsBalanced :
    (drafts : List EntryDraft)
    → length drafts ≤ i64_half
    → (validate_balanced drafts ≡ ok tt) ↔ IsBalanced drafts
unfolding validate_balanced finish_sum
validate_balanced-IsBalanced [] small = (λ h. absurd (cc), λ b. absurd (omega (arith, b.enough)))
validate_balanced-IsBalanced (e ∷ []) small =
    (λ h. absurd (cc), λ b. absurd (omega (arith, b.enough)))
validate_balanced-IsBalanced (e ∷ f ∷ es) small = (accepted, accepts)
  where
    drafts : List EntryDraft
    drafts = e ∷ f ∷ es

    accepted : validate_balanced drafts ≡ ok tt → IsBalanced drafts
    accepted h =
        let (posted, sum) =
          sum_entries_inv e.currency 0 (pos 0) drafts (pos 0) (omega arith) (omega arith)
            (finish_sum_inv _ h) in
        record { enough = omega arith; posted = posted; zero_sum = cc (zero_+ℤ (total drafts)) }

    accepts : IsBalanced drafts → validate_balanced drafts ≡ ok tt
    accepts b =
        rw
          (
            sum_entries-ok e.currency 0 (pos 0) drafts (omega arith) (omega arith) b.posted,
            zero_+ℤ,
            b.zero_sum,
          )
          refl
