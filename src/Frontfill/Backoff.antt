-- ===== src/Frontfill/Backoff.antt =====
-- `reconnect_delay` and the counter `reconnect_attempt` of src/frontfill.rs.
use polymarket_indexer.Prelude.{
  ℕ, zero, suc, ◌*◌, ◌-◌, ◌^◌, ◌≤◌, ◌≡◌, ◌⊎◌, inl, inr, refl, arith, min, saturating_add32, u32_mod,
}

-- Seconds: `1 << shift`.
unfoldable pub reconnect_delay : ℕ → ℕ
reconnect_delay attempt = 2 ^ min attempt 5

-- One failed attempt or ended stream: the wait, and the next counter.
unfoldable pub back_off : ℕ → ℕ × ℕ
unfolding reconnect_delay
back_off attempt = (reconnect_delay attempt, saturating_add32 attempt 1)

reconnect_delay-capped : (attempt : ℕ) → 5 ≤ attempt → reconnect_delay attempt ≡ 32
unfolding reconnect_delay
reconnect_delay-capped attempt h = let e : min attempt 5 ≡ 5 = omega arith in rw e refl

-- After a failure the counter saturates; the next wait is twice this one, where that is at most 32
-- seconds, and is 32 seconds after one of 32 seconds.
pub back_off_step :
    (attempt : ℕ)
    → attempt ≤ u32_mod - 1
    → let next = reconnect_delay (back_off attempt).1 in
      let wait = (back_off attempt).0 in
      ((next ≡ 2 * wait) × (next ≤ 32)) ⊎ ((next ≡ 32) × (wait ≡ 32))
unfolding back_off reconnect_delay
back_off_step zero h = inl (refl, omega arith)
back_off_step (suc zero) h = inl (refl, omega arith)
back_off_step (suc (suc zero)) h = inl (refl, omega arith)
back_off_step (suc (suc (suc zero))) h = inl (refl, omega arith)
back_off_step (suc (suc (suc (suc zero)))) h = inl (refl, omega arith)
back_off_step (suc (suc (suc (suc (suc n))))) h =
    let attempt = suc (suc (suc (suc (suc n)))) in
    inr (
      reconnect_delay-capped (saturating_add32 attempt 1) (omega arith),
      reconnect_delay-capped attempt (omega arith),
    )
