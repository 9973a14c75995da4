-- ===== src/Billing/Dunning/OneOpen.antt =====
-- A subscription never has two open cases, so that no query of dunning.py finds several rows.
use colab.Prelude.{
  ℕ, ◌≤◌, true, ◌>>=◌, ◌≡◌, refl, ap, rows-cases, inl, inr, Option, none, some, List, [], ◌∷◌,
  length, select, update_where, ◌==◌, arith,
}
use colab.Prelude.Uuid.{Uuid}
use colab.Billing.Dunning.{
  DunningCase, recovered, day0, is_terminal, is_open_for, open_dunning_case, mark_recovered,
  advance_case, advance_dunning_cases,
}

-- The three ways in which the table is written.
pub data DunningOp : Type 0 where
  payment_failed : Uuid → Uuid → Uuid → ℕ → ℕ → DunningOp
  payment_succeeded : Uuid → ℕ → ℕ → DunningOp
  tick : ℕ → DunningOp

unfoldable pub apply : DunningOp → List DunningCase → Option (List DunningCase)
apply (payment_failed user sub fresh now attempt) cases = do
  r ← open_dunning_case user sub fresh now attempt cases
  some r.1
apply (payment_succeeded sub now closed) cases = do
  r ← mark_recovered sub now closed cases
  some r.1
apply (tick now) cases = some (advance_dunning_cases now cases).0

unfoldable pub apply_all : List DunningOp → List DunningCase → Option (List DunningCase)
apply_all [] cases = some cases
apply_all (op ∷ ops) cases = do cases' ← apply op cases; apply_all ops cases'

abbrev pub open_count : Uuid → List DunningCase → ℕ
open_count sub cases = length (select (is_open_for sub) cases)

abbrev pub AtMostOneOpen : List DunningCase → Type 0
AtMostOneOpen cases = (sub : Uuid) → open_count sub cases ≤ 1

close_count :
    (sub id : Uuid) (now closed : ℕ) (cases : List DunningCase)
    → open_count sub (
        update_where
          (λ d. d.id == id)
          (λ d. record d { state = recovered; recovered_at = some now; closed_at = some closed })
          cases)
      ≤ open_count sub cases
unfolding is_terminal
close_count sub id now closed [] = omega arith
close_count sub id now closed (c ∷ cases) = ground (arith, close_count sub id now closed cases)

advance_open :
    (sub : Uuid) (now : ℕ) (c : DunningCase)
    → is_open_for sub (advance_case now c).0 ≡ true
    → is_open_for sub c ≡ true
unfolding advance_case
advance_open sub now c h = ground arith

advance_count :
    (sub : Uuid) (now : ℕ) (cases : List DunningCase)
    → open_count sub (advance_dunning_cases now cases).0 ≤ open_count sub cases
unfolding advance_dunning_cases
advance_count sub now [] = omega arith
advance_count sub now (c ∷ cases) =
    ground (arith, advance_count sub now cases, advance_open sub now c)

-- What an operation leaves when it does not raise.
abbrev pub Leaves : DunningOp → List DunningCase → Type 0
Leaves op cases =
    (cases' : List DunningCase) × (apply op cases ≡ some cases') × AtMostOneOpen cases'

two_open :
    (sub : Uuid) (cases : List DunningCase)
    → AtMostOneOpen cases
    → {x y : DunningCase} {ys : List DunningCase} → select (is_open_for sub) cases ≡ x ∷ y ∷ ys
    → ⊥
two_open sub cases h {x} {y} {ys} e = omega (arith, h sub, ap length e)

payment_failed-Leaves :
    (user sub fresh : Uuid) (now attempt : ℕ) (cases : List DunningCase)
    → AtMostOneOpen cases
    → Leaves (payment_failed user sub fresh now attempt) cases
unfolding apply open_dunning_case
payment_failed-Leaves user sub fresh now attempt cases h =
    elim (rows-cases (select (is_open_for sub) cases)) [
      | inl none_open ↦
          let c : DunningCase = record {
            id = fresh;
            user_id = user;
            subscription_id = sub;
            opened_at = now;
            state = day0;
            last_attempt_at = some attempt;
            last_attempt_result = some "payment_failed";
            recovered_at = none;
            closed_at = none;
          } in
          (c ∷ cases, rw none_open, λ v. ground (arith, h v, none_open))
      | inr (inl (c, e)) ↦ (cases, rw e, h)
      | inr (inr (x, y, ys, e)) ↦ absurd (two_open sub cases h {x = x} {y = y} {ys = ys} e)
    ]

payment_succeeded-Leaves :
    (sub : Uuid) (now closed : ℕ) (cases : List DunningCase)
    → AtMostOneOpen cases
    → Leaves (payment_succeeded sub now closed) cases
unfolding apply mark_recovered
payment_succeeded-Leaves sub now closed cases h =
    elim (rows-cases (select (is_open_for sub) cases)) [
      | inl none_open ↦ (cases, rw none_open, h)
      | inr (inl (c, e)) ↦ (
        update_where (λ d. d.id == c.id)
            (λ d. record d { state = recovered; recovered_at = some now; closed_at = some closed })
            cases,
        rw e,
        λ v. omega (arith, close_count v c.id now closed cases, h v),
      )
      | inr (inr (x, y, ys, e)) ↦ absurd (two_open sub cases h {x = x} {y = y} {ys = ys} e)
    ]

apply-Leaves : (op : DunningOp) (cases : List DunningCase) → AtMostOneOpen cases → Leaves op cases
unfolding apply
apply-Leaves (payment_failed user sub fresh now attempt) cases h =
    payment_failed-Leaves user sub fresh now attempt cases h
apply-Leaves (payment_succeeded sub now closed) cases h =
    payment_succeeded-Leaves sub now closed cases h
apply-Leaves (tick now) cases h = (_, refl, λ v. omega (arith, advance_count v now cases, h v))

-- Any operations in any order on tables with at most one open case for each subscription end
-- without an error, and leave at most one open case for each.
pub apply_all-AtMostOneOpen :
    (ops : List DunningOp) (cases : List DunningCase)
    → AtMostOneOpen cases
    → (after : List DunningCase) × (apply_all ops cases ≡ some after) × AtMostOneOpen after
unfolding apply_all
apply_all-AtMostOneOpen [] cases h = (cases, refl, h)
apply_all-AtMostOneOpen (op ∷ ops) cases h =
    let (cases', e, h') = apply-Leaves op cases h in
    let (after, e', h'') = apply_all-AtMostOneOpen ops cases' h' in (after, rw e e', h'')
