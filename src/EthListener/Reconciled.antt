-- ===== src/EthListener/Reconciled.antt =====
-- What the loop sends, and that it ends.
use mathlib.Core.List.{append_assoc, append-nil}
use native.Mathlib.Nat.{zero-mod}
use wthelly.Base.{
  ℕ, suc, zero, ◌+◌, ◌-◌, ◌^◌, ◌≤◌, ◌<◌, ◌≡◌, ◌⊎◌, refl, sym, ap, ◌∙◌, inl, inr, arith, String,
  true, false, Bool-cases, ltb, leb, eq_ℕ, none, List, [], ◌++◌, select, if◌then◌else◌,
}
use wthelly.EthListener.{
  Log, found, failure, Reconciliation, max_back_off_count, add64, done, unknown_logs, clip,
  reconcile, reconcile_block_range,
}
use wthelly.EthListener.Ranges.{
  events_from, events_between, events_from-add, unknown_logs-append, reached, reached_from,
  reached_from-step,
}

-- The node answers each attempt with the events of the range that it is asked for, but fails, without
-- advice, in some of the first attempts.
abbrev pub Serves : Reconciliation → (ℕ → List Log) → ℕ → Type 0
Serves r events failures =
    (k s e : ℕ)
    → (r.filter_logs k s e ≡ found (events_between events s e))
      ⊎ ((m : String) × (r.filter_logs k s e ≡ failure m)
          × (r.advised_block_range m ≡ none)
          × (k < failures))

add64-exact : (a b : ℕ) → a + b < 2 ^ 64 → add64 a b ≡ a + b
unfolding add64
add64-exact a b h = ground arith

clip-clip : (c e : ℕ) → clip c (clip c e) ≡ clip c e
unfolding clip
clip-clip c e = ground arith

clip_bounds :
    (c s w : ℕ) → s < c → (clip c (s + w) ≤ c) × (s ≤ clip c (s + w)) × (clip c (s + w) ≤ s + w)
unfolding clip
clip_bounds c s w h = ground arith

-- the ranges after the first
clip-next : (c e step : ℕ) → 1 ≤ step → clip c (e + step) ≡ clip c (e + 1 + (step - 1))
clip-next c e step h = ap (clip c) (same e step h)
  where
    same : (m n : ℕ) → 1 ≤ n → m + n ≡ m + 1 + (n - 1)
    same m n g = omega arith

-- A range and the blocks that the loop reaches after it.
reached_from-clip :
    (c s w step : ℕ)
    → s < c
    → 1 ≤ step
    → reached_from step w (c - s)
      ≡ (clip c (s + w) + 1 - s) + reached_from step (step - 1) (c - (clip c (s + w) + 1))
unfolding clip
reached_from-clip c s w step h p = elim (Bool-cases (ltb c (s + w))) [
  | inl cut ↦ rw (cut, past c) (first c s w (reached step (c - s - w - 1)) h cut)
  | inr whole ↦
      rw (whole, reached_from-step step (c - (s + w + 1)) p, apart c s w)
        (later c s w (reached step (c - s - w - 1)) h whole (zero_reached (c - s - w - 1)))
]
  where
    past : (n : ℕ) → n - (n + 1) ≡ 0
    past n = omega arith

    apart : (m n k : ℕ) → m - (n + k + 1) ≡ m - n - k - 1
    apart m n k = omega arith

    zero_reached : (n : ℕ) → n ≡ 0 → reached step n ≡ 0
    zero_reached n e = rw (e, zero-mod step) refl

    first :
        (m n k x : ℕ)
        → n < m
        → ltb m (n + k) ≡ true
        → (if eq_ℕ (m - n) 0 then 0 else if leb (m - n) k then m - n + 1 else k + 1 + x)
          ≡ m + 1 - n + 0
    first m n k x a b = ground arith

    later :
        (m n k x : ℕ)
        → n < m
        → ltb m (n + k) ≡ false
        → (m - n - k - 1 ≡ 0 → x ≡ 0)
        → (if eq_ℕ (m - n) 0 then 0 else if leb (m - n) k then m - n + 1 else k + 1 + x)
          ≡ n + k + 1 - n + x
    later m n k x a b z = ground (arith, z)

module _ (r : Reconciliation) (events : ℕ → List Log) (failures : ℕ)
    (serves : Serves r events failures) (few : failures ≤ max_back_off_count)
    (step : 1 ≤ r.block_step) (room : r.current_block + r.block_step < 2 ^ 64) where
  -- the logs that are sent from a block on, when the first range has `w` blocks after it
  abbrev sent_from : ℕ → ℕ → List Log
  sent_from w s =
      unknown_logs r (events_from events s (reached_from r.block_step w (r.current_block - s)))

  nothing-sent :
      (d w s : ℕ)
      → d ≡ 0
      → unknown_logs r (events_from events s (reached_from r.block_step w d)) ≡ []
  unfolding events_from unknown_logs select
  nothing-sent d w s h = rw h refl

  sent-next :
      (s w : ℕ) (out : List Log)
      → s < r.current_block
      → (out ++ unknown_logs r (events_between events s (clip r.current_block (s + w))))
          ++ sent_from (r.block_step - 1) (clip r.current_block (s + w) + 1)
        ≡ out ++ sent_from w s
  unfolding events_between
  sent-next s w out h =
      let e : ℕ = clip r.current_block (s + w) in
      let n : ℕ = reached_from r.block_step (r.block_step - 1) (r.current_block - (e + 1)) in
      append_assoc out (unknown_logs r (events_from events s (e + 1 - s)))
        (unknown_logs r (events_from events (e + 1) n))
      ∙ ap (λ l. out ++ l)
          (sym (
              unknown_logs-append r (events_from events s (e + 1 - s))
                (events_from events (e + 1) n))
            ∙ ap (unknown_logs r) (
                ap (λ b. events_from events s (e + 1 - s) ++ events_from events b n)
                  (sym (up_to (clip_bounds r.current_block s w h).1))
                ∙ sym (events_from-add events s (e + 1 - s) n)
                ∙ ap (events_from events s)
                    (sym (reached_from-clip r.current_block s w r.block_step h step))))
    where
      up_to : {m : ℕ} → s ≤ m → s + (m + 1 - s) ≡ m + 1
      up_to h = omega arith

  reconcile-done :
      (fuel k s e b w : ℕ) (out : List Log)
      → clip r.current_block e ≡ clip r.current_block (s + w)
      → b ≤ k
      → b ≤ failures
      → (failures - k) + (r.current_block + 1 - s) < fuel
      → reconcile fuel r k s e b out ≡ done (out ++ sent_from w s)
  unfolding reconcile
  reconcile-done zero k s e b w out range bk bf enough = absurd (omega arith)
  reconcile-done (suc fuel) k s e b w out range bk bf enough =
      elim (Bool-cases (ltb s r.current_block)) [
        | inr over ↦ rw (over, reconcile) (ap done (nothing (r.current_block - s) (rest s over)))
        | inl before ↦ elim (serves k s (clip r.current_block e)) [
          | inl answered ↦
              rw (before, back_off b bf, answered, reconcile)
                (next_range (clip r.current_block e) (clip r.current_block (s + w)) range
                    (clip_bounds r.current_block s w (less s before)).0
                  ∙ reconcile-done fuel (k + 1) (clip r.current_block (s + w) + 1)
                      (clip r.current_block (s + w) + r.block_step) b (r.block_step - 1)
                      (out
                        ++ unknown_logs r (events_between events s (clip r.current_block (s + w))))
                      (clip-next r.current_block (clip r.current_block (s + w)) r.block_step step)
                      (omega arith) bf
                      (fewer (clip r.current_block (s + w))
                        (clip_bounds r.current_block s w (less s before)) enough)
                  ∙ ap done (sent-next s w out (less s before)))
          | inr (m, failed, unadvised, early) ↦
              rw (before, back_off b bf, failed, unadvised, reconcile)
                (reconcile-done fuel (k + 1) s (clip r.current_block e) (b + 1) w out
                  (clip-clip r.current_block e ∙ range) (omega arith) (omega arith)
                  (time k s fuel early enough))
        ]
      ]
    where
      rest : (n : ℕ) → ltb n r.current_block ≡ false → r.current_block - n ≡ 0
      rest n h = ground arith

      nothing :
          (d : ℕ)
          → d ≡ 0
          → out ≡ out ++ unknown_logs r (events_from events s (reached_from r.block_step w d))
      nothing d h = sym (rw (nothing-sent d w s h) (append-nil out))

      less : (n : ℕ) → ltb n r.current_block ≡ true → n < r.current_block
      less n h = ground arith

      fewer :
          (m : ℕ)
          → (m ≤ r.current_block) × (s ≤ m) × (m ≤ s + w)
          → (failures - k) + (r.current_block + 1 - s) < suc fuel
          → (failures - (k + 1)) + (r.current_block + 1 - (m + 1)) < fuel
      fewer m h g = omega arith

      next_range :
          (m n : ℕ)
          → m ≡ n
          → n ≤ r.current_block
          → reconcile fuel r
              (k + 1)
              (add64 m 1)
              (add64 m r.block_step)
              b
              (out ++ unknown_logs r (events_between events s m))
            ≡ reconcile fuel r
                (k + 1)
                (n + 1)
                (n + r.block_step)
                b
                (out ++ unknown_logs r (events_between events s n))
      next_range m n same h =
          rw (same, add64-exact n 1 (omega arith), add64-exact n r.block_step (omega arith)) refl

      back_off : (n : ℕ) → n ≤ failures → ltb 999999 n ≡ false
      back_off n h = ground arith

      time :
          (k s fuel : ℕ)
          → k < failures
          → (failures - k) + (r.current_block + 1 - s) < suc fuel
          → (failures - (k + 1)) + (r.current_block + 1 - s) < fuel
      time k s fuel h g = omega arith

-- Let the node answer with the events of each range it is asked for, except for failures without advice
-- among its first answers, which are no more than the loop's limit; let the last known block not lie
-- above the current one, the step be positive and the current block and the step together fit uint64.
-- With one attempt for each failure and each block, and one more, the loop ends by its test, and it has
-- sent the events that are not known yet from the last known block on, block by block: up to the current
-- block, or up to the block before it if the current block is the last known one or comes right after a
-- whole range.
pub reconcile_block_range-done :
    (fuel : ℕ) (r : Reconciliation) (events : ℕ → List Log) (failures : ℕ)
    → Serves r events failures
    → failures ≤ max_back_off_count
    → 1 ≤ r.block_step
    → r.current_block + r.block_step < 2 ^ 64
    → r.last_block ≤ r.current_block
    → failures + (r.current_block + 1 - r.last_block) < fuel
    → reconcile_block_range fuel r
      ≡ done (
          unknown_logs r (
            events_from events r.last_block
              (reached_from r.block_step r.block_step (r.current_block - r.last_block))))
unfolding reconcile_block_range
reconcile_block_range-done fuel r events failures serves few step room old enough =
    reconcile-done r events failures serves few step room fuel 0 r.last_block
      (add64 r.last_block r.block_step) 0 r.block_step []
      (ap (clip r.current_block) (add64-exact r.last_block r.block_step (omega arith)))
      (omega arith) (omega arith) (omega arith)
