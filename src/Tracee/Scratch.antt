-- ===== src/Tracee/Scratch.antt =====
-- Where `StackWriter` of engines/rootless/supervisor.cpp puts the copies.
use vhdp.Base.{
  ap, subst, ℕ, ◌+◌, ◌-◌, ◌%◌, ◌^◌, ◌≤◌, ◌<◌, List, [], ◌∷◌, Bytes, length, ◌≡◌, arith, inl, inr,
}
use vhdp.Resolver.Kernel.{err≢ok, Reply-cases, ok-injective, Reply, ok, err}
use vhdp.Tracee.{MemoryCalls}
use vhdp.Tracee.Stack.{StackWriter, max_stack_scratch, sub64, align_down, stack_writer, push}

sub64-le : (a b : ℕ) → b ≤ a → a < 2 ^ 64 → sub64 a b ≡ a - b
sub64-le a b h k = omega arith

align_down-le : (x : ℕ) → (align_down x ≤ x) × (align_down x % 16 ≡ 0)
align_down-le x = (omega arith, omega arith)

-- Copies one below the other, from a limit down, on addresses that are multiples of 16 and at most
-- `max_stack_scratch` below the stack pointer.
pub data Stacked (sp : ℕ) : ℕ → List ℕ → List Bytes → Type 0 where
  bottom : {top : ℕ} → Stacked sp top [] []
  below :
      {top a : ℕ} {addrs : List ℕ} {b : Bytes} {bufs : List Bytes}
      → a + length b ≤ top
      → a % 16 ≡ 0
      → sp ≤ a + max_stack_scratch
      → Stacked sp a addrs bufs
      → Stacked sp top (a ∷ addrs) (b ∷ bufs)

Stacked-raise :
    {sp top top' : ℕ} {addrs : List ℕ} {bufs : List Bytes}
    → top ≤ top'
    → Stacked sp top addrs bufs
    → Stacked sp top' addrs bufs
Stacked-raise le bottom = bottom
Stacked-raise le (below fits aligned near s) = below (omega (arith, le, fits)) aligned near s

-- What several copies give.
data Placed (sp top : ℕ) (bufs : List Bytes) : Reply (List ℕ) → Type 0 where
  given_up : {e : ℕ} → Placed sp top bufs (err e)
  placed : {addrs : List ℕ} → Stacked sp top addrs bufs → Placed sp top bufs (ok addrs)

Placed-Stacked :
    {sp top : ℕ} {bufs : List Bytes} {r : Reply (List ℕ)} {addrs : List ℕ}
    → Placed sp top bufs r
    → r ≡ ok addrs
    → Stacked sp top addrs bufs
Placed-Stacked {sp} {top} {bufs} (given_up) h = absurd (err≢ok h)
Placed-Stacked {sp} {top} {bufs} (placed s) h =
    subst (λ l. Stacked sp top l bufs) (ok-injective h) s

module _ {W : Type 0} (k : MemoryCalls W) where
  -- Several copies, as the handlers make them: the addresses, or the first error.
  unfoldable pub push_all : StackWriter → List Bytes → W → Reply (List ℕ) × StackWriter × W
  unfolding push
  push_all sw [] w = (ok [], sw, w)
  push_all sw (b ∷ bufs) w =
      let (a, sw1, w1) = push k sw b w in
      elim a [
        | err e ↦ (err e, sw1, w1)
        | ok a ↦
            let (addrs, sw2, w2) = push_all sw1 bufs w1 in
            elim addrs [ err e ↦ (err e, sw2, w2) | ok l ↦ (ok (a ∷ l), sw2, w2) ]
      ]

  push-Below :
      (sw : StackWriter) (b : Bytes) (w : W) (a : ℕ)
      → sw.top ≤ sw.base
      → sw.base < 2 ^ 64
      → (push k sw b w).0 ≡ ok a
      → (a + length b ≤ sw.top)
        × (a % 16 ≡ 0)
        × (sw.base ≤ a + max_stack_scratch)
        × ((push k sw b w).1 ≡ record sw { top = a })
  unfolding push
  push-Below sw b w a le lt h =
      let next = align_down (sw.top - length b) in
      ground (arith, sub64-le sw.base next, align_down-le (sw.top - length b))

  Placed-push_all :
      (sw : StackWriter) (bufs : List Bytes) (w : W)
      → sw.top ≤ sw.base
      → sw.base < 2 ^ 64
      → Placed sw.base sw.top bufs (push_all sw bufs w).0
  unfolding push_all
  Placed-push_all sw [] w le lt = placed bottom
  Placed-push_all sw (b ∷ bufs) w le lt =
      let (r, sw1, w1) = push k sw b w in
      elim (Reply-cases r) [
        | inl (e, p) ↦ rw (p, push_all) given_up
        | inr (a, p) ↦
            let (fits, aligned, near, moved) = push-Below sw b w a le lt p in
            let ih =
              Placed-push_all sw1 bufs w1 (rw moved (omega (arith, le, fits))) (rw moved lt) in
            elim (Reply-cases (push_all sw1 bufs w1).0) [
              | inl (e, q) ↦ rw (p, push_all, q) given_up
              | inr (l, q) ↦
                  rw (p, push_all, q)
                    (placed (below fits aligned near (rw moved at (Placed-Stacked ih q))))
            ]
      ]

-- All copies that are made for one system call, if each of them succeeds and the stack pointer is not
-- below the red zone, lie one below the other, 64 bytes and the red zone below the stack pointer, on
-- addresses that are multiples of 16, and at most 2 ^ 20 bytes below the stack pointer.
pub push_all-Stacked :
    {W : Type 0} (k : MemoryCalls W) (red_zone tid sp : ℕ) (bufs : List Bytes) (w : W)
    {addrs : List ℕ}
    → red_zone + 64 ≤ sp
    → sp < 2 ^ 64
    → (push_all k (stack_writer red_zone tid sp) bufs w).0 ≡ ok addrs
    → Stacked sp (sp - (red_zone + 64)) addrs bufs
unfolding stack_writer
push_all-Stacked k red_zone tid sp bufs w low small h =
    Stacked-raise
      (subst (λ t. t ≤ sp - (red_zone + 64)) top_is (align_down-le (sp - (red_zone + 64))).0)
      (Placed-Stacked
        (Placed-push_all k (stack_writer red_zone tid sp) bufs w
          (subst (λ t. t ≤ sp) top_is (omega arith)) small)
        h)
  where
    top_is : align_down (sp - (red_zone + 64)) ≡ align_down (sub64 (sub64 sp red_zone) 64)
    top_is = ap align_down (omega arith)
