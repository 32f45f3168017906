-- ===== src/Gossip/Pushes.antt =====
-- `pushToTarget` and the fan-out of `doGossip`: internal/cluster/gossip.go.
use grid_kv.Base.{
  ◌↔◌, ℕ, zero, suc, ◌+◌, ◌*◌, ◌/◌, ◌^◌, ◌≤◌, ◌<◌, ◌≡◌, ◌≢◌, refl, ap, ◌∙◌, Bool, true, false, not, Str,
  ◌==◌, if◌then◌else◌, if_cases, Bool-cases, inl, inr, arith,
}
use mathlib.Core.Path.{subst}
use native.Mathlib.Numerals.{unary_clauses}
use grid_kv.Gossip.Rounds.{
  halvings, fan_out, SendAnswer, PushAttempt, reachable, push_from, push_to_target,
}

halvings_le : (fuel n : ℕ) → halvings fuel n ≤ n
unfolding halvings
halvings_le zero n = omega arith
halvings_le (suc fuel) n =
    let half = halvings_le fuel (n / 2) in
    if_cases (λ k. k ≤ n) (n == 0) 0 (suc (halvings fuel (n / 2))) (λ none_left. omega arith)
      (λ more. ground (arith, half))

halvings_zero : (fuel : ℕ) → halvings fuel 0 ≡ 0
unfolding halvings
halvings_zero zero = refl
halvings_zero (suc fuel) = refl

doubled :
    (p n : ℕ)
    → n / 2 < p
    → (0 < n / 2 → p ≤ 2 * (n / 2))
    → (n / 2 ≡ 0 → p ≡ 1)
    → 0 < n
    → (n < p * 2) × (0 < n → p * 2 ≤ 2 * n)
doubled p n below above one pos = elim (Bool-cases (n / 2 == 0)) [
  | inl small ↦
      let unit : p ≡ 1 = one (ground arith) in (omega (arith, unit), λ _. omega (arith, unit))
  | inr large ↦ let le : p ≤ 2 * (n / 2) = above (ground arith) in (omega arith, λ _. omega arith)
]

-- The number of binary digits.
halvings-bounds :
    (fuel n : ℕ) → n ≤ fuel → (n < 2 ^ halvings fuel n) × (0 < n → 2 ^ halvings fuel n ≤ 2 * n)
unfolding halvings
halvings-bounds zero n le = (omega arith, λ pos. omega arith)
halvings-bounds (suc fuel) n le =
    let k = halvings fuel (n / 2) in
    let (below, above) = halvings-bounds fuel (n / 2) (omega arith) in
    if_cases (λ h. (n < 2 ^ h) × (0 < n → 2 ^ h ≤ 2 * n)) (n == 0) 0 (suc k)
      (λ nothing. (ground arith, λ pos. ground arith))
      (λ more. simp unary_clauses (
        doubled (2 ^ k) n below above
          (λ one. ap (λ m. 2 ^ halvings fuel m) one ∙ ap (λ h. 2 ^ h) (halvings_zero fuel))
          (ground arith)))

-- For at least two alive members the fan-out is one more than the logarithm, rounded down: the number
-- of binary digits.
pub fan_out-bounds :
    (n : ℕ) → 1 < n → (n < 2 ^ fan_out n) × (2 ^ fan_out n ≤ 2 * n) × (fan_out n ≤ n)
unfolding fan_out
fan_out-bounds n many =
    let (below, above) = halvings-bounds n n (omega arith) in
    let le = halvings_le n n in
    let plain : fan_out n ≡ halvings n n = ground (arith, le) in
    rw plain (below, above (omega arith), le)

-- The target stays reachable up to attempt `k`, the first attempt is not refused, and attempt `k`
-- is accepted.
pub record Reaches (world : ℕ → PushAttempt) (i k : ℕ) (target : Str) : Type 0 where
  pub stays : (j : ℕ) → j ≤ k → reachable target (world (i + j)).member ≡ true
  pub welcome : (world 0).answer ≢ SendAnswer.refused
  pub takes : (world (i + k)).answer ≡ SendAnswer.accepted

later_Reaches :
    (world : ℕ → PushAttempt) (i k : ℕ) (target : Str)
    → Reaches world i (suc k) target
    → Reaches world (i + 1) k target
later_Reaches world i k target r = record {
  stays = (λ j le.
      subst (λ n. reachable target (world n).member ≡ true) (shifted j)
        (r.stays (suc j) (omega arith)));
  welcome = r.welcome;
  takes = subst (λ n. (world n).answer ≡ SendAnswer.accepted) (shifted k) r.takes;
}
  where
    shifted : (j : ℕ) → i + suc j ≡ i + 1 + j
    shifted j = omega arith

sent_on :
    (i : ℕ) (a : SendAnswer) (rest : Bool × ℕ)
    → (i ≡ 0 → a ≢ SendAnswer.refused)
    → rest.0 ≡ true
    → (elim a as (λ x. Bool × ℕ) [
      | SendAnswer.accepted ↦ (true, 1)
      | SendAnswer.refused ↦ if i == 0 then (false, 1) else (rest.0, rest.1 + 1)
      | SendAnswer.broken ↦ (rest.0, rest.1 + 1)
    ]).0
      ≡ true
sent_on i SendAnswer.accepted rest welcome taken = refl
sent_on i SendAnswer.refused rest welcome taken =
    if_cases (λ (r : Bool × ℕ). r.0 ≡ true) (i == 0) _ _
      (λ first. absurd (welcome (ground arith) refl)) (λ later. taken)
sent_on i SendAnswer.broken rest welcome taken = taken

push_from-Reaches :
    (world : ℕ → PushAttempt) (i left k : ℕ) (target : Str)
    → k < left
    → Reaches world i k target
    → (push_from world i left target).0 ≡ true
unfolding push_from
push_from-Reaches world i zero k target lt r = absurd (omega arith)
push_from-Reaches world i (suc left) zero target lt r =
    let here : reachable target (world i).member ≡ true =
      subst (λ n. reachable target (world n).member ≡ true) (omega arith)
        (r.stays 0 (omega arith)) in
    let takes : (world i).answer ≡ SendAnswer.accepted =
      subst (λ n. (world n).answer ≡ SendAnswer.accepted) (omega arith) r.takes in
    rw (here, takes) refl
push_from-Reaches world i (suc left) (suc k) target lt r =
    let here : reachable target (world i).member ≡ true =
      subst (λ n. reachable target (world n).member ≡ true) (omega arith)
        (r.stays 0 (omega arith)) in
    rw here (
      sent_on i (world i).answer (push_from world (i + 1) left target)
        (λ first refused.
          r.welcome (subst (λ n. (world n).answer ≡ SendAnswer.refused) first refused))
        (push_from-Reaches world (i + 1) left k target (omega arith)
          (later_Reaches world i k target r)))

-- What the attempts after a failed one come to.
earlier_Reaches :
    (world : ℕ → PushAttempt) (i k : ℕ) (target : Str)
    → reachable target (world i).member ≡ true
    → Reaches world (i + 1) k target
    → Reaches world i (suc k) target
earlier_Reaches world i k target here r = record {
  stays = stays;
  welcome = r.welcome;
  takes = subst (λ n. (world n).answer ≡ SendAnswer.accepted) (shifted k) r.takes;
}
  where
    shifted : (j : ℕ) → i + 1 + j ≡ i + suc j
    shifted j = omega arith

    stays : (j : ℕ) → j ≤ suc k → reachable target (world (i + j)).member ≡ true
    stays zero le = subst (λ n. reachable target (world n).member ≡ true) (omega arith) here
    stays (suc j) le =
        subst (λ n. reachable target (world n).member ≡ true) (shifted j) (r.stays j (omega arith))

Reached : (ℕ → PushAttempt) → ℕ → ℕ → Str → Type 0
Reached world i left target = (k : ℕ) × (k < left) × Reaches world i k target

-- An accepted attempt.
reached_here :
    (world : ℕ → PushAttempt) (i left : ℕ) (target : Str)
    → (world 0).answer ≢ SendAnswer.refused
    → reachable target (world i).member ≡ true
    → (world i).answer ≡ SendAnswer.accepted
    → Reached world i (suc left) target
unfolding Reached
reached_here world i left target welcome here takes = (
  0,
  omega arith,
  record {
    stays = λ j le.
        subst (λ n. reachable target (world n).member ≡ true) (omega arith) here;
    welcome = welcome;
    takes = subst (λ n. (world n).answer ≡ SendAnswer.accepted) (omega arith) takes;
  },
)

-- The first connection was not refused, if the attempt `i` is not.
welcome_of :
    (world : ℕ → PushAttempt) (i : ℕ)
    → (0 < i → (world 0).answer ≢ SendAnswer.refused)
    → (world i).answer ≢ SendAnswer.refused
    → (world 0).answer ≢ SendAnswer.refused
welcome_of world zero earlier here = here
welcome_of world (suc i) earlier here = earlier (omega arith)

reached_later :
    (world : ℕ → PushAttempt) (i left : ℕ) (target : Str)
    → reachable target (world i).member ≡ true
    → Reached world (i + 1) left target
    → Reached world i (suc left) target
unfolding Reached
reached_later world i left target here (k, lt, r) =
    (suc k, omega arith, earlier_Reaches world i k target here r)

-- What an attempt that finds the target comes to, by its answer.
reached_by :
    (world : ℕ → PushAttempt) (i left : ℕ) (target : Str) (a : SendAnswer) (rest : Bool × ℕ)
    → (0 < i → (world 0).answer ≢ SendAnswer.refused)
    → reachable target (world i).member ≡ true
    → (world i).answer ≡ a
    → (((world 0).answer ≢ SendAnswer.refused)
        → rest.0 ≡ true
        → Reached world (i + 1) left target)
    → (elim a as (λ x. Bool × ℕ) [
      | SendAnswer.accepted ↦ (true, 1)
      | SendAnswer.refused ↦ if i == 0 then (false, 1) else (rest.0, rest.1 + 1)
      | SendAnswer.broken ↦ (rest.0, rest.1 + 1)
    ]).0
      ≡ true
    → Reached world i (suc left) target
reached_by world i left target SendAnswer.accepted rest welcome here is more taken =
    reached_here world i left target
      (welcome_of world i welcome (λ refused. ground (arith, is, refused))) here is
reached_by world i left target SendAnswer.refused rest welcome here is more taken =
    elim (Bool-cases (i == 0)) [
      | inl first ↦ absurd (ground (arith, first, taken))
      | inr not_first ↦
          reached_later world i left target here
            (more (welcome (ground arith)) (ground (arith, not_first, taken)))
    ]
reached_by world i left target SendAnswer.broken rest welcome here is more taken =
    reached_later world i left target here
      (more (welcome_of world i welcome (λ refused. ground (arith, is, refused))) taken)

push_from-Reached :
    (world : ℕ → PushAttempt) (i left : ℕ) (target : Str)
    → (0 < i → (world 0).answer ≢ SendAnswer.refused)
    → (push_from world i left target).0 ≡ true
    → Reached world i left target
unfolding push_from
push_from-Reached world i zero target welcome taken = absurd (ground (arith, taken))
push_from-Reached world i (suc left) target welcome taken =
    elim (Bool-cases (reachable target (world i).member)) [
      | inl here ↦
          reached_by world i left target (world i).answer (push_from world (i + 1) left target)
            welcome here refl
            (λ first. push_from-Reached world (i + 1) left target (λ later. first))
            (rw here at taken)
      | inr gone ↦ absurd (ground (arith, rw gone at taken))
    ]

sends_le :
    (world : ℕ → PushAttempt) (i left : ℕ) (target : Str) → (push_from world i left target).1 ≤ left
unfolding push_from
sends_le world i zero target = omega arith
sends_le world i (suc left) target =
    let rest = sends_le world (i + 1) left target in
    if_cases (λ (r : Bool × ℕ). r.1 ≤ suc left) (not (reachable target (world i).member)) _ _
      (λ gone. omega arith)
      (λ here. counted (world i).answer (push_from world (i + 1) left target) rest)
  where
    counted :
        (a : SendAnswer) (rest : Bool × ℕ)
        → rest.1 ≤ left
        → (elim a as (λ x. Bool × ℕ) [
          | SendAnswer.accepted ↦ (true, 1)
          | SendAnswer.refused ↦ if i == 0 then (false, 1) else (rest.0, rest.1 + 1)
          | SendAnswer.broken ↦ (rest.0, rest.1 + 1)
        ]).1
          ≤ suc left
    counted SendAnswer.accepted rest le = omega arith
    counted SendAnswer.refused rest le =
        if_cases (λ (r : Bool × ℕ). r.1 ≤ suc left) (i == 0) _ _ (λ first. omega arith)
          (λ later. omega arith)
    counted SendAnswer.broken rest le = omega arith

pub push_to_target-Reaches :
    (world : ℕ → PushAttempt) (target : Str)
    → ((push_to_target world target).1 ≤ 15)
      × (((push_to_target world target).0 ≡ true)
        ↔ ((k : ℕ) × (k < 15) × Reaches world 0 k target))
unfolding push_to_target Reached
push_to_target-Reaches world target = (
  sends_le world 0 15 target,
  (
    push_from-Reached world 0 15 target (λ later. absurd (omega arith)),
    λ (k, few, r). push_from-Reaches world 0 15 k target few r,
  ),
)
