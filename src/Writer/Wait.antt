-- ===== src/Writer/Wait.antt =====
-- How `Writer::wait` of crates/engine/src/db/writer.rs ends.
use victory_db.Base.{
  ℕ, zero, suc, ◌+◌, ◌≤◌, ◌<◌, ◌≡◌, refl, ap, subst, ◌∙◌, ◌⊎◌, inl, inr, Option, none, some, Bool,
  true, false, not, Bool-cases, arith, ◌==◌, bit_and, bit_or,
}
use native.Mathlib.Decide.{dec_lt}
use victory_db.Base.Run.{Run, ok, panic, out_of_fuel}
use victory_db.Writer.{
  init, leader, complete, has_bits, Woken, or_else, pause_iterations, yield_pause_iterations, spin,
  wait_and_block, wait,
}

-- The state lets a parked thread go.
abbrev pub lets_go : ℕ → Bool
lets_go state = not (bit_and state (bit_or complete leader) == 0)

abbrev pub spins : ℕ
spins = pause_iterations + yield_pause_iterations

module _ (load : Bool → ℕ → ℕ) where
  -- A stage of spinning saw `COMPLETE` first at a load, or at none.
  abbrev SpinCases : ℕ → ℕ → Option Woken → Type 0
  SpinCases n i r =
      ((r ≡ none) × ((j : ℕ) → i ≤ j → j < i + n → has_bits (load false j) complete ≡ false))
      ⊎ ((k : ℕ) × (i ≤ k)
          × (k < i + n)
          × (r ≡ some (record { loads = k; state = load false k; locked = false }))
          × (has_bits (load false k) complete ≡ true)
          × ((j : ℕ) → i ≤ j → j < k → has_bits (load false j) complete ≡ false))

  not_before :
      (i k : ℕ)
      → has_bits (load false i) complete ≡ false
      → ((j : ℕ) → suc i ≤ j → j < k → has_bits (load false j) complete ≡ false)
      → (j : ℕ) → i ≤ j
      → j < k
      → has_bits (load false j) complete ≡ false
  not_before i k unset later j l m = elim (dec_lt i j) [
    | yes beyond ↦ later j (omega arith) m
    | no here ↦
        let e : i ≡ j = omega arith in
        subst (λ (x : ℕ). has_bits (load false x) complete ≡ false) e unset
  ]

  spin-SpinCases : (n i : ℕ) → SpinCases n i (spin load n i)
  unfolding spin
  spin-SpinCases zero i = inl (refl, λ j l m. absurd (omega arith))
  spin-SpinCases (suc n) i = elim (Bool-cases (has_bits (load false i) complete)) [
    | inl seen ↦
        inr (i, omega arith, omega arith, rw seen refl, seen, λ j l m. absurd (omega arith))
    | inr unset ↦ elim (spin-SpinCases n (suc i)) [
      | inl (e, clear) ↦
          inl
            (rw (unset, e) refl, not_before i (i + suc n) unset (λ j l m. clear j l (omega arith)))
      | inr (k, low, high, e, seen, clear) ↦
          inr (k, omega arith, omega arith, rw (unset, e) refl, seen, not_before i k unset clear)
    ]
  ]

  -- No load of `wait_and_block` from `i` on lets the thread go, and the fuel runs out, or the first
  -- that does ends it.
  abbrev BlockCases : ℕ → ℕ → Run Woken → Type 0
  BlockCases fuel i r =
      ((r ≡ out_of_fuel) × ((j : ℕ) → i ≤ j → j < i + fuel → lets_go (load true j) ≡ false))
      ⊎ ((k : ℕ) × (i ≤ k)
          × (k < i + fuel)
          × (r ≡ ok (record { loads = k; state = load true k; locked = true }))
          × (lets_go (load true k) ≡ true)
          × ((j : ℕ) → i ≤ j → j < k → lets_go (load true j) ≡ false))

  held_before :
      (i k : ℕ)
      → lets_go (load true i) ≡ false
      → ((j : ℕ) → suc i ≤ j → j < k → lets_go (load true j) ≡ false)
      → (j : ℕ) → i ≤ j
      → j < k
      → lets_go (load true j) ≡ false
  held_before i k held later j l m = elim (dec_lt i j) [
    | yes beyond ↦ later j (omega arith) m
    | no here ↦
        let e : i ≡ j = omega arith in subst (λ (x : ℕ). lets_go (load true x) ≡ false) e held
  ]

  wait_and_block-BlockCases : (fuel i : ℕ) → BlockCases fuel i (wait_and_block load fuel i)
  unfolding wait_and_block
  wait_and_block-BlockCases zero i = inl (refl, λ j l m. absurd (omega arith))
  wait_and_block-BlockCases (suc fuel) i =
      elim (Bool-cases (bit_and (load true i) (bit_or complete leader) == 0)) [
        | inr free ↦
            inr (
              i,
              omega arith,
              omega arith,
              rw free refl,
              rw free refl,
              λ j l m. absurd (omega arith),
            )
        | inl held ↦
            let stays : lets_go (load true i) ≡ false = rw held refl in
            elim (wait_and_block-BlockCases fuel (suc i)) [
              | inl (e, clear) ↦ inl (
                rw (held, e) refl,
                held_before i (i + suc fuel) stays (λ j l m. clear j l (omega arith)),
              )
              | inr (k, low, high, e, goes, clear) ↦ inr (
                k,
                omega arith,
                omega arith,
                rw (held, e) refl,
                goes,
                held_before i k stays clear,
              )
            ]
      ]

  both :
      (n i : ℕ)
      → ((j : ℕ) → 0 ≤ j → j < n → has_bits (load false j) complete ≡ false)
      → ((j : ℕ) → n ≤ j → j < i → has_bits (load false j) complete ≡ false)
      → (j : ℕ) → j < i
      → has_bits (load false j) complete ≡ false
  both n i clear clear' j m = elim (dec_lt j n) [
    | yes small ↦ clear j (omega arith) small
    | no large ↦ clear' j (omega arith) m
  ]

  abbrev blocked : ℕ → Run Woken
  blocked fuel = wait_and_block load fuel spins

  abbrev entered : ℕ → Run Woken
  entered fuel =
      or_else (spin load pause_iterations 0)
        (or_else (spin load yield_pause_iterations pause_iterations) (blocked fuel))

  paused :
      (fuel : ℕ) (o : Option Woken)
      → spin load pause_iterations 0 ≡ o
      → entered fuel
        ≡ or_else o (or_else (spin load yield_pause_iterations pause_iterations) (blocked fuel))
  paused fuel o e =
      ap
        (λ x.
          or_else x (or_else (spin load yield_pause_iterations pause_iterations) (blocked fuel)))
        e

  yielded :
      (fuel : ℕ) (o : Option Woken)
      → spin load yield_pause_iterations pause_iterations ≡ o
      → or_else (spin load yield_pause_iterations pause_iterations) (blocked fuel)
        ≡ or_else o (blocked fuel)
  yielded fuel o e = ap (λ x. or_else x (blocked fuel)) e

  -- How a wait ends, and when it does not.
  abbrev pub WaitCases : ℕ → Run Woken → Type 0
  WaitCases fuel r =
      ((r ≡ out_of_fuel)
        × ((j : ℕ) → j < spins → has_bits (load false j) complete ≡ false)
        × ((j : ℕ) → spins ≤ j → j < spins + fuel → lets_go (load true j) ≡ false))
      ⊎ ((k : ℕ) × (k < spins)
          × (r ≡ ok (record { loads = k; state = load false k; locked = false }))
          × (has_bits (load false k) complete ≡ true)
          × ((j : ℕ) → j < k → has_bits (load false j) complete ≡ false))
      ⊎ ((k : ℕ) × (spins ≤ k)
          × (k < spins + fuel)
          × (r ≡ ok (record { loads = k; state = load true k; locked = true }))
          × ((j : ℕ) → j < spins → has_bits (load false j) complete ≡ false)
          × (lets_go (load true k) ≡ true)
          × ((j : ℕ) → spins ≤ j → j < k → lets_go (load true j) ≡ false))

  entered-WaitCases : (fuel : ℕ) → WaitCases fuel (entered fuel)
  entered-WaitCases fuel = elim (spin-SpinCases pause_iterations 0) [
    | inr (k, l, m, e, seen, clear) ↦
        inr (inl (k, omega arith, paused fuel _ e, seen, λ j n. clear j (omega arith) n))
    | inl (e, clear) ↦ elim (spin-SpinCases yield_pause_iterations pause_iterations) [
      | inr (k, l, m, e', seen, clear') ↦ inr (
          inl (
            k,
            omega arith,
            paused fuel none e ∙ yielded fuel _ e',
            seen,
            both pause_iterations k clear clear',
          ))
      | inl (e', clear') ↦
          let whole = both pause_iterations spins clear clear' in
          elim (wait_and_block-BlockCases fuel spins) [
            | inl (e2, held) ↦ inl (paused fuel none e ∙ yielded fuel none e' ∙ e2, whole, held)
            | inr (k, l, m, e2, goes, held) ↦
                inr
                  (inr (k, l, m, paused fuel none e ∙ yielded fuel none e' ∙ e2, whole, goes, held))
          ]
    ]
  ]

  -- A writer whose state has no `INIT`, as `Writer::new` leaves it, panics in `wait` in a build
  -- with debug assertions. In one without them, whatever the loads of the state give: if one of the
  -- spinning loads has `COMPLETE`, it returns at the first of them, and has not set
  -- `LOCKED_WAITING`; if none has, it sets `LOCKED_WAITING` and returns at the first load from then
  -- on that has `COMPLETE` or `LEADER`; and if none of those that the fuel is enough for has
  -- either, it is still waiting then.
  pub wait-WaitCases :
      (fuel first : ℕ)
      → has_bits first init ≡ false
      → (wait load true fuel first ≡ panic) × WaitCases fuel (wait load false fuel first)
  unfolding wait
  wait-WaitCases fuel first unset = (rw unset refl, entered-WaitCases fuel)
