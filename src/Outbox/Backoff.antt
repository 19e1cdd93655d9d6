-- ===== src/Outbox/Backoff.antt =====
-- The wait before a retry, in closed form.
use Prim.Native.Nat.{◌^◌}
use Prim.Native.Nat.pow
use snaplink_audit_governanc.Prelude.{ℕ, suc, zero, ◌*◌, ◌-◌, ◌≤◌, min, ◌≡◌, arith}
use snaplink_audit_governanc.Outbox.Relay.{Config, base_backoff, max_backoff, backoff_loop, backoff}

one-le-pow : (i : ℕ) → 1 ≤ 2 ^ i
one-le-pow zero = omega arith
one-le-pow (suc i) = omega (arith, pow.suc 2 i, one-le-pow i)

-- More doublings only add to what the first makes.
over : (b p : ℕ) → 1 ≤ p → b ≤ b * p
over b p h = grind arith

shift : (b i : ℕ) → b * 2 ^ suc i ≡ b * 2 * 2 ^ i
shift b i = rw (pow.suc 2 i) (omega arith)

capped : (top b p : ℕ) → top ≤ b → 1 ≤ p → min (b * p) top ≡ top
capped top b p h one = omega (arith, over b p one, h)

backoff_loop-min : (top i b : ℕ) → b ≤ top → backoff_loop top i b ≡ min (b * 2 ^ i) top
unfolding backoff_loop
backoff_loop-min top zero b h = rw (pow.zero 2) (omega (arith, h))
backoff_loop-min top (suc i) b h =
    let doubled = backoff_loop-min top i (b * 2) in
    ground (
      arith,
      h,
      doubled,
      shift b i,
      capped top (b * 2) (2 ^ i),
      capped top b (2 ^ suc i),
      one-le-pow i,
      one-le-pow (suc i),
    )

-- Where the base does not exceed the ceiling, the wait before attempt n is the base, doubled n - 1
-- times, or the ceiling where that is less.
pub backoff-doubles :
    (c : Config) (attempt : ℕ)
    → base_backoff c ≤ max_backoff c
    → backoff c attempt ≡ min (base_backoff c * 2 ^ (attempt - 1)) (max_backoff c)
unfolding backoff
backoff-doubles c attempt h = backoff_loop-min (max_backoff c) (attempt - 1) (base_backoff c) h
