-- ===== src/EthListener/Ranges.antt =====
-- The events of a range of blocks.
use wthelly.Base.{
  ℕ, suc, zero, ◌+◌, ◌-◌, ◌≤◌, ◌<◌, ◌%◌, leb, eq_ℕ, ◌≡◌, refl, ap, ◌∙◌, sym, arith, Bool, not, List,
  [], ◌∷◌, ◌++◌, select, if◌then◌else◌,
}
use mathlib.Core.List.{append_assoc}
use native.Mathlib.Nat.{zero-add, add-zero, suc-add, mod-eq_of_lt, mod-eq-sub-mod}
use native.Mathlib.Decide.{dec_lt}
use wthelly.EthListener.{Log, Reconciliation, is_known, unknown_logs}

-- the events of so many blocks, from a block on
unfoldable pub events_from : (ℕ → List Log) → ℕ → ℕ → List Log
events_from events start zero = []
events_from events start (suc n) = events start ++ events_from events (start + 1) n

-- the events from a block to another, both included
unfoldable pub events_between : (ℕ → List Log) → ℕ → ℕ → List Log
unfolding events_from
events_between events start end = events_from events start (end + 1 - start)

pub events_from-add :
    (events : ℕ → List Log) (start m n : ℕ)
    → events_from events start (m + n)
      ≡ events_from events start m ++ events_from events (start + m) n
unfolding events_from
events_from-add events start zero n = rw (zero-add n, add-zero start) refl
events_from-add events start (suc m) n = rw (suc-add m n) (
    ap (λ l. events start ++ l) (events_from-add events (start + 1) m n)
    ∙ ap (λ b. events start ++ (events_from events (start + 1) m ++ events_from events b n))
        (shift start m)
    ∙ sym (
        append_assoc (events start) (events_from events (start + 1) m)
          (events_from events (start + suc m) n)))
  where
    shift : (a b : ℕ) → a + 1 + b ≡ a + suc b
    shift a b = omega arith

select-append :
    {A : Type 0} (p : A → Bool) (xs ys : List A) → select p (xs ++ ys) ≡ select p xs ++ select p ys
unfolding select
select-append p [] ys = refl
select-append p (x ∷ xs) ys = ground (arith, select-append p xs ys)

pub unknown_logs-append :
    (r : Reconciliation) (xs ys : List Log)
    → unknown_logs r (xs ++ ys) ≡ unknown_logs r xs ++ unknown_logs r ys
unfolding unknown_logs
unknown_logs-append r xs ys = select-append (λ l. not (is_known r l)) xs ys

-- how many blocks the loop reaches, of the `d` blocks before the current one and the current one, when
-- its ranges have `step` blocks
abbrev pub reached : ℕ → ℕ → ℕ
reached step d = if eq_ℕ (d % step) 0 then d else d + 1

-- the same if the first range has `w` blocks after its first
abbrev pub reached_from : ℕ → ℕ → ℕ → ℕ
reached_from step w d =
    if eq_ℕ d 0 then 0 else if leb d w then d + 1 else w + 1 + reached step (d - w - 1)

pub reached_from-step : (step d : ℕ) → 1 ≤ step → reached_from step (step - 1) d ≡ reached step d
reached_from-step step d h = elim (dec_lt d step) [
  | yes small ↦ rw (mod-eq_of_lt small) (below step d h small)
  | no large ↦
      rw (mod-eq-sub-mod {n = d} {m = step} (omega arith), same_rest step d h)
        (beyond step d ((d - step) % step) h (omega arith))
]
  where
    below :
        (s n : ℕ)
        → 1 ≤ s
        → n < s
        → (if eq_ℕ n 0
            then 0
            else if leb n (s - 1)
            then n + 1
            else s - 1 + 1 + reached s (n - (s - 1) - 1))
          ≡ (if eq_ℕ n 0 then n else n + 1)
    below s n p q = ground arith

    same_rest : (s n : ℕ) → 1 ≤ s → n - (s - 1) - 1 ≡ n - s
    same_rest s n p = omega arith

    beyond :
        (s n m : ℕ)
        → 1 ≤ s
        → s ≤ n
        → (if eq_ℕ n 0
            then 0
            else if leb n (s - 1)
            then n + 1
            else s - 1 + 1 + (if eq_ℕ m 0 then n - s else n - s + 1))
          ≡ (if eq_ℕ m 0 then n else n + 1)
    beyond s n m p q = ground arith
