-- ===== src/Task/Window.antt =====
-- The accounting window of `task_roll_window`.
use native.Mathlib.Nat.{div-add-mod, mod-lt, div-mul-le_self, lt-div-mul-add}
use capaz_os_kernel.Common.{
  ℕ, ◌+◌, ◌-◌, ◌*◌, ◌/◌, ◌≤◌, ◌<◌, ◌≡◌, ◌⊎◌, false, refl, ap, inl, inr, Bool-cases, ltb, ◌==◌,
  if◌then◌else◌, arith, u64_mod, add_u64, mul_u64,
}
use capaz_os_kernel.Task.{Task, task_roll_window, window_length}

-- The window is the one that `now` lies in, and it is either the old one, with its counts, or a new
-- one with none.
pub record IsCurrent (t r : Task) (now : ℕ) : Type 0 where
  pub started : r.window_start_tick ≤ now
  pub running : now < r.window_start_tick + window_length r
  pub same_length : window_length r ≡ window_length t
  pub kept_or_reset :
      (r ≡ t)
      ⊎ ((r.cpu_ticks_window ≡ 0) × (r.io_read_bytes_window ≡ 0) × (r.io_write_bytes_window ≡ 0))

quotient_pos : (d w : ℕ) → 0 < w → w ≤ d → 0 < d / w
quotient_pos d w h le = elim (Bool-cases (d / w == 0)) [
  | inl e ↦
      let q : d / w ≡ 0 = ground arith in
      absurd (omega (arith, div-add-mod d w, mod-lt d h, ap (λ k. w * k) q))
  | inr n ↦ ground arith
]

-- d ticks are q whole windows of w ticks and a rest shorter than a window.
spans_lem : (d w : ℕ) → 0 < w → ((d / w) * w ≤ d) × (d < (d / w) * w + w) × (w ≤ d → 0 < d / w)
spans_lem d w h = (div-mul-le_self d w, lt-div-mul-add h, λ le. quotient_pos d w h le)

-- The start of the new window.
jump_lem :
    (start now w : ℕ)
    → 0 < w
    → now < u64_mod
    → start ≤ now
    → w ≤ now - start
    → let spans = (now - start) / w in
      let next = add_u64 start (mul_u64 (if spans == 0 then 1 else spans) w) in
      (next ≤ now) × (now < next + w)
jump_lem start now w pos h le late =
    let s = spans_lem (now - start) w pos in
    let some_span : ((now - start) / w == 0) ≡ false = ground (arith, s.2 late) in
    rw some_span (omega (arith, s.0, s.1))

length_pos : (t : Task) → 0 < window_length t
length_pos t = ground arith

pub roll_current :
    (t : Task) (now : ℕ)
    → t.window_start_tick ≤ now
    → now < t.window_start_tick + window_length t
    → task_roll_window t now ≡ t
unfolding task_roll_window
roll_current t now started running = ground arith

-- Rolling brings the window to the present, also when the clock has gone back or has skipped whole
-- windows, and no arithmetic on the way wraps.
pub roll_window-IsCurrent :
    (t : Task) (now : ℕ) → now < u64_mod → IsCurrent t (task_roll_window t now) now
unfolding task_roll_window
roll_window-IsCurrent t now h = elim (Bool-cases (ltb now t.window_start_tick)) [
  | inl back ↦ rw back (record {
    started = omega arith;
    running = omega (arith, length_pos t);
    same_length = refl;
    kept_or_reset = inr (refl, refl, refl);
  })
  | inr fwd ↦ elim (Bool-cases (ltb (now - t.window_start_tick) (window_length t))) [
    | inl inside ↦
        rw (fwd, inside)
          (record {
            started = ground arith;
            running = ground arith;
            same_length = refl;
            kept_or_reset = inl refl;
          })
    | inr late ↦
        let jump =
          jump_lem t.window_start_tick now (window_length t) (length_pos t) h (ground arith)
            (ground arith) in
        rw (fwd, late)
          (record {
            started = jump.0;
            running = jump.1;
            same_length = refl;
            kept_or_reset = inr (refl, refl, refl);
          })
  ]
]

-- In the current window nothing is rolled: rolling twice at one time is rolling once.
pub roll_window_idem :
    (t : Task) (now : ℕ)
    → now < u64_mod
    → task_roll_window (task_roll_window t now) now ≡ task_roll_window t now
roll_window_idem t now h =
    let c = roll_window-IsCurrent t now h in
    roll_current (task_roll_window t now) now c.started c.running
