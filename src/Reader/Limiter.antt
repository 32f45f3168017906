-- ===== src/Reader/Limiter.antt =====
-- internal/cluster/reader.go: the token bucket in front of read repair. The numbers are int64
-- patterns; the clock is in nanoseconds.
use grid_kv.Base.{
  ℕ, ◌+◌, ◌-◌, ◌*◌, ◌/◌, ◌%◌, ◌^◌, ◌≤◌, ◌<◌, ◌≡◌, Bool, true, false, List, [], ◌∷◌, add64, sub64,
  slt, ltb, if◌then◌else◌, if_cases, refl, arith,
}

pub record RateLimiter : Type 0 where
  pub rate : ℕ
  pub tokens : ℕ
  pub last : ℕ

unfoldable pub new_rate_limiter : ℕ → ℕ → RateLimiter
new_rate_limiter now rate = record { rate = rate; tokens = rate; last = now }

-- A product of int64, and a quotient by a positive number, towards zero.
abbrev mul64 : ℕ → ℕ → ℕ
mul64 a b = a * b % 2 ^ 64

abbrev quot64 : ℕ → ℕ → ℕ
quot64 a n = if slt a 0 then (2 ^ 64 - (2 ^ 64 - a) / n) % 2 ^ 64 else a / n

abbrev pub nanos : ℕ
nanos = 1000000000

abbrev refill : ℕ → RateLimiter → ℕ
refill now rl =
    let tokens = add64 rl.tokens (quot64 (mul64 (sub64 now rl.last) rl.rate) nanos) in
    if slt rl.rate tokens then rl.rate else tokens

-- `Allow`
unfoldable pub allow : ℕ → RateLimiter → Bool × RateLimiter
allow now rl =
    let tokens = refill now rl in
    if slt tokens 1
    then (false, record rl { tokens = tokens; last = now })
    else (true, record rl { tokens = sub64 tokens 1; last = now })

-- Calls at the given times, and how many of them are allowed.
unfoldable pub allow_all : List ℕ → RateLimiter → ℕ × RateLimiter
unfolding allow
allow_all [] rl = (0, rl)
allow_all (now ∷ times) rl =
    let (yes_now, rl') = allow now rl in
    let (n, rl'') = allow_all times rl' in ((if yes_now then n + 1 else n), rl'')

-- Times that do not go back, up to `stop`, from `start` on.
abbrev pub Upward : ℕ → List ℕ → ℕ → Type 0
Upward start [] stop = start ≤ stop
Upward start (t ∷ times) stop = (start ≤ t) × Upward t times stop

-- The tokens are between none and the rate.
pub record IsLimiter (rl : RateLimiter) : Type 0 where
  pub some_rate : 0 < rl.rate
  pub full : rl.tokens ≤ rl.rate

-- The clock does not go back, and the numbers are small.
pub record Plain (now : ℕ) (rl : RateLimiter) : Type 0 where
  pub later : rl.last ≤ now
  pub dated : now < 2 ^ 63
  pub small : (now - rl.last) * rl.rate < 2 ^ 62
  pub rate_small : rl.rate < 2 ^ 62

abbrev pub capped : ℕ → ℕ → ℕ
capped rate n = if ltb rate n then rate else n

gained :
    (now last rate : ℕ)
    → last ≤ now
    → now < 2 ^ 63
    → (now - last) * rate < 2 ^ 62
    → quot64 (mul64 (sub64 now last) rate) nanos ≡ (now - last) * rate / nanos
unfolding sub64 slt
gained now last rate later dated small =
    let d : (now + 2 ^ 64 - last) % 2 ^ 64 ≡ now - last = omega arith in
    let p : (now - last) * rate % 2 ^ 64 ≡ (now - last) * rate = omega arith in
    rw (d, p) (ground arith)

refill-Plain :
    (now : ℕ) (rl : RateLimiter)
    → IsLimiter rl
    → Plain now rl
    → refill now rl ≡ capped rl.rate (rl.tokens + (now - rl.last) * rl.rate / nanos)
unfolding add64 slt
refill-Plain now rl ok plain =
    rw (gained now rl.last rl.rate plain.later plain.dated plain.small)
      (ground (arith, plain.rate_small, plain.small, ok.full))

-- One call in numbers that do not wrap.
allow-Plain :
    (now : ℕ) (rl : RateLimiter)
    → IsLimiter rl
    → Plain now rl
    → let m = capped rl.rate (rl.tokens + (now - rl.last) * rl.rate / nanos) in
      allow now rl ≡ (
        if ltb m 1
        then (false, record rl { tokens = m; last = now })
        else (true, record rl { tokens = m - 1; last = now }))
unfolding allow slt sub64
allow-Plain now rl ok plain = rw (refill-Plain now rl ok plain) (ground (arith, plain.rate_small))

-- A stretch of calls, from the last one on.
pub record Stretch (times : List ℕ) (stop : ℕ) (rl : RateLimiter) : Type 0 where
  pub upward : Upward rl.last times stop
  pub dated : stop < 2 ^ 63
  pub small : (stop - rl.last) * rl.rate < 2 ^ 62
  pub rate_small : rl.rate < 2 ^ 62

split_time :
    (last t stop rate : ℕ)
    → last ≤ t
    → t ≤ stop
    → (t - last) * rate + (stop - t) * rate ≡ (stop - last) * rate
split_time last t stop rate h k = grind arith

Upward-le : (start : ℕ) (times : List ℕ) (stop : ℕ) → Upward start times stop → start ≤ stop
Upward-le start [] stop up = up
Upward-le start (t ∷ times) stop up = omega (arith, Upward-le t times stop up.1)

Stretch-Plain :
    (t : ℕ) (times : List ℕ) (stop : ℕ) (rl : RateLimiter)
    → Stretch (t ∷ times) stop rl
    → Plain t rl
Stretch-Plain t times stop rl s =
    let le = Upward-le t times stop s.upward.1 in
    record {
      later = s.upward.0;
      dated = omega (arith, s.dated);
      small = omega (arith, s.small, split_time rl.last t stop rl.rate s.upward.0 le);
      rate_small = s.rate_small;
    }

-- What a call leaves.
pub record Left (now : ℕ) (rl : RateLimiter) (r : Bool × RateLimiter) : Type 0 where
  pub ok : IsLimiter r.1
  pub rate_kept : r.1.rate ≡ rl.rate
  pub last_now : r.1.last ≡ now
  pub spent : r.1.tokens + (if r.0 then 1 else 0) ≤ rl.tokens + (now - rl.last) * rl.rate / nanos

allow-Left : (now : ℕ) (rl : RateLimiter) → IsLimiter rl → Plain now rl → Left now rl (allow now rl)
allow-Left now rl ok plain =
    let m = capped rl.rate (rl.tokens + (now - rl.last) * rl.rate / nanos) in
    let bound : m ≤ rl.rate = ground arith in
    let gain : m ≤ rl.tokens + (now - rl.last) * rl.rate / nanos = ground arith in
    rw (allow-Plain now rl ok plain) (
      if_cases (Left now rl) (ltb m 1) _ _
        (λ empty. record {
          ok = record { some_rate = ok.some_rate; full = bound };
          rate_kept = refl;
          last_now = refl;
          spent = omega arith;
        })
        (λ filled. record {
          ok = record { some_rate = ok.some_rate; full = omega arith };
          rate_kept = refl;
          last_now = refl;
          spent = ground arith;
        }))

Stretch-rest :
    (t : ℕ) (times : List ℕ) (stop : ℕ) (rl : RateLimiter)
    → Stretch (t ∷ times) stop rl
    → Left t rl (allow t rl)
    → Stretch times stop (allow t rl).1
Stretch-rest t times stop rl s left =
    let le = Upward-le t times stop s.upward.1 in
    record {
      upward = rw left.last_now s.upward.1;
      dated = s.dated;
      small =
          rw (left.last_now, left.rate_kept)
            (omega (arith, s.small, split_time rl.last t stop rl.rate s.upward.0 le));
      rate_small = rw left.rate_kept s.rate_small;
    }

-- Over any stretch of calls whose times do not go back, the limiter allows at most the tokens that
-- it has at the start and what its rate gives for the time of the stretch, and its tokens stay
-- between none and the rate. The rate is positive, and no product leaves the range of an int64.
pub allow_all-bounded :
    (times : List ℕ) (stop : ℕ) (rl : RateLimiter)
    → IsLimiter rl
    → Stretch times stop rl
    → IsLimiter (allow_all times rl).1
      × ((allow_all times rl).0 ≤ rl.tokens + (stop - rl.last) * rl.rate / nanos)
unfolding allow_all
allow_all-bounded [] stop rl ok s = (ok, omega arith)
allow_all-bounded (t ∷ times) stop rl ok s =
    let left = allow-Left t rl ok (Stretch-Plain t times stop rl s) in
    let (ok', bound) =
      allow_all-bounded times stop (allow t rl).1 left.ok (Stretch-rest t times stop rl s left) in
    let le = Upward-le t times stop s.upward.1 in
    let bound' : (allow_all times (allow t rl).1).0
        ≤ (allow t rl).1.tokens + (stop - t) * rl.rate / nanos =
      rw (left.last_now, left.rate_kept) at bound in
    (
      ok',
      if_cases (λ (n : ℕ). n ≤ rl.tokens + (stop - rl.last) * rl.rate / nanos) (allow t rl).0 _ _
          (λ was.
            omega (
              arith,
              bound',
              rw was at left.spent,
              split_time rl.last t stop rl.rate s.upward.0 le,
            ))
          (λ was_not. omega (
            arith,
            bound',
            rw was_not at left.spent,
            split_time rl.last t stop rl.rate s.upward.0 le,
          )),
    )

-- Each call comes sooner than one token takes.
abbrev pub Rapid : ℕ → ℕ → List ℕ → Type 0
Rapid rate last [] = Unit
Rapid rate last (t ∷ times) = ((t - last) * rate < nanos) × Rapid rate t times

-- Calls that each come sooner than one token takes get no new token, however long they go on: the
-- limiter allows at most the tokens that it has at the start.
pub allow_all-starved :
    (times : List ℕ) (stop : ℕ) (rl : RateLimiter)
    → IsLimiter rl
    → Stretch times stop rl
    → Rapid rl.rate rl.last times
    → (allow_all times rl).0 ≤ rl.tokens
unfolding allow_all
allow_all-starved [] stop rl ok s rapid = omega arith
allow_all-starved (t ∷ times) stop rl ok s rapid =
    let left = allow-Left t rl ok (Stretch-Plain t times stop rl s) in
    let bound =
      allow_all-starved times stop (allow t rl).1 left.ok (Stretch-rest t times stop rl s left)
        (rw (left.last_now, left.rate_kept) rapid.1) in
    let nothing : (t - rl.last) * rl.rate / nanos ≡ 0 = omega (arith, rapid.0) in
    if_cases (λ (n : ℕ). n ≤ rl.tokens) (allow t rl).0 _ _
      (λ was. omega (arith, bound, rw was at left.spent, nothing))
      (λ was_not. omega (arith, bound, rw was_not at left.spent, nothing))
