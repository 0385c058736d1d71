-- ===== src/Observable/Latches.antt =====
-- The latch of one emission, counted down once for each of its observers and once by its emitter.
use zab.Prelude.{
  ℕ, suc, ◌+◌, ◌-◌, ◌^◌, ◌≤◌, ◌<◌, ◌≡◌, ◌==◌, Bool, true, arith, Bool-cases, ==→≡, ==→≢, ≢→==,
  ==-self, inl, inr, subst, sym, if◌then◌else◌, one_if,
}
use zab.Latch.{Latch, count_down}
use zab.Observable.{arrive_for}

-- The latch has unpaused its emitter once if nothing is left to count, else not; `begun` tells whether
-- the emission has begun.
pub record IsOpen (begun : Bool) (l : Latch) : Type 0 where
  pub small : l.count < 2 ^ 63
  pub opened : l.unpaused ≡ (if l.count == 0 then one_if begun else 0)
  pub started : 1 ≤ l.count → begun ≡ true

count_down-one :
    (l : Latch)
    → l.count < 2 ^ 63
    → 1 ≤ l.count
    → ((count_down l 1).count ≡ l.count - 1)
      × ((count_down l 1).unpaused ≡ (if l.count == 1 then suc l.unpaused else l.unpaused))
unfolding count_down
count_down-one l small h = (ground arith, ground arith)

pub count_down-IsOpen :
    (begun : Bool) (l : Latch)
    → IsOpen begun l
    → 1 ≤ l.count
    → IsOpen begun (count_down l 1) × (suc (count_down l 1).count ≡ l.count)
count_down-IsOpen begun l o h =
    let (less, last) = count_down-one l o.small h in
    (
      record {
        small = omega (arith, less, o.small);
        opened = rw (less, last, o.started h) (ground (arith, o.opened, h));
        started = λ p. o.started h;
      },
      omega (arith, less, h),
    )

pub arrive_for-IsOpen :
    (begun : ℕ → Bool) (latch : ℕ → Latch) (e : ℕ)
    → ((i : ℕ) → IsOpen (begun i) (latch i))
    → 1 ≤ (latch e).count
    → (i : ℕ)
    → IsOpen (begun i) (arrive_for latch e i)
      × ((arrive_for latch e i).count + (if i == e then 1 else 0) ≡ (latch i).count)
arrive_for-IsOpen begun latch e o h i = elim (Bool-cases (e == i)) [
  | inl z ↦
      subst
        (λ j.
          IsOpen (begun j) (arrive_for latch e j)
          × ((arrive_for latch e j).count + (if j == e then 1 else 0) ≡ (latch j).count))
        (==→≡ e i z)
        (let (opens, counts) = count_down-IsOpen (begun e) (latch e) (o e) h in
          rw (==-self e) (opens, omega (arith, counts)))
  | inr z ↦ rw (z, ≢→== i e (λ q. ==→≢ e i z (sym q))) (o i, omega arith)
]
