-- ===== src/Store/Delay/Window.antt =====
-- When a publish delay is accepted.
use novaque.Prelude.{
  ℕ, ◌+◌, ◌/◌, ◌≤◌, ◌<◌, ◌≡◌, refl, ◌⊎◌, inl, inr, ◌↔◌, arith, ltb, leb, ◌==◌, Bool-cases, false,
  if◌then◌else◌,
}
use novaque.Prelude.Int.{ℤ, pos, negsuc}
use novaque.Store.Errors.{ok, err, delay_exceeds_ttl, delay_too_long}
use novaque.Store.Types.{PublishOpts}
use novaque.Store.Delay.{
  second, max_delay, delay_sec, expires_at_unix, check_window, check_delay, validate_publish_delay,
}

-- Not negative, at most 90 days, and below one second or due before the expiry.
pub record Acceptable (opts : PublishOpts) (now : ℕ) : Type 0 where
  pub delay : ℕ
  pub is_delay : opts.delay ≡ pos delay
  pub bounded : delay ≤ max_delay
  pub window : (delay < second) ⊎ (now + delay / second < expires_at_unix opts now)

window_holds :
    (d now e : ℕ)
    → (if d / second == 0
        then ok tt
        else if leb e (now + d / second)
        then err delay_exceeds_ttl
        else ok tt)
      ≡ ok tt
    → (d < second) ⊎ (now + d / second < e)
window_holds d now e h = ground arith

ltb-false : (d m : ℕ) → d ≤ m → ltb m d ≡ false
ltb-false d m h = ground arith

window_ok :
    (d now e : ℕ)
    → (d < second) ⊎ (now + d / second < e)
    → (if d / second == 0
        then ok tt
        else if leb e (now + d / second)
        then err delay_exceeds_ttl
        else ok tt)
      ≡ ok tt
window_ok d now e (inl h) = ground arith
window_ok d now e (inr h) = ground arith

delay_holds :
    (opts : PublishOpts) (now : ℕ) (v : ℤ)
    → opts.delay ≡ v
    → check_delay v (check_window opts now) ≡ ok tt
    → Acceptable opts now
unfolding check_delay check_window delay_sec expires_at_unix
delay_holds opts now (negsuc d) e h = absurd (cc)
delay_holds opts now (pos d) e h = elim (Bool-cases (ltb max_delay d)) [
  | inl t ↦ let refused : err delay_too_long ≡ ok tt = rw (t, check_delay) at h in absurd (cc)
  | inr t ↦
      let passed : check_window opts now ≡ ok tt = rw (t, check_delay) at h in
      record {
        delay = d;
        is_delay = e;
        bounded = ground arith;
        window =
            window_holds d now (expires_at_unix opts now)
              (rw (check_window, e, delay_sec) at passed);
      }
]

-- A publish delay is accepted exactly if it is not negative, is at most 90 days, and is below one
-- second or ends, in whole seconds, before the expiry that the options give.
pub validate_publish_delay_iff :
    (opts : PublishOpts) (now : ℕ) → validate_publish_delay opts now ≡ ok tt ↔ Acceptable opts now
unfolding validate_publish_delay check_delay check_window delay_sec expires_at_unix
validate_publish_delay_iff opts now = (
  delay_holds opts now opts.delay refl,
  λ a.
      rw (a.is_delay, ltb-false a.delay max_delay a.bounded)
        (window_ok a.delay now (expires_at_unix opts now) a.window),
)
