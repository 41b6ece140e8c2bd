-- ===== src/Layer1/FreeList/Entries.antt =====
-- The entries of one node of the free list.
use mathlib.Core.Path.{subst}
use filesystem.Bytes.{Block}
use filesystem.Bytes.Words.{u32_at-set_u32_self, u32_at-set_u32_ne}
use filesystem.Layer1.FreeList.{
  addr_per_node, invalid_data, next_of, addr, set_addr, first_empty, first_used,
}
use filesystem.Prelude.{
  ◌==◌, if◌then◌else◌, eq_or_ne, count, ℕ, zero, suc, ◌+◌, ◌*◌, ◌≤◌, ◌<◌, ◌≡◌, refl, sym, ◌≢◌, inl,
  inr, none, some, List, [], ◌∷◌, arith,
}

-- The numbers that a node holds from entry `i` on.
unfoldable pub used : Block → (i rounds : ℕ) → List ℕ
used b i zero = []
used b i (suc rounds) =
    let rest = used b (i + 1) rounds in if addr b i == invalid_data then rest else addr b i ∷ rest

abbrev pub entries : Block → List ℕ
entries b = used b 0 addr_per_node

-- How often an entry `w` counts for the number `a`.
abbrev pub entry_count : (w a : ℕ) → ℕ
entry_count w a = if w == invalid_data then 0 else if w == a then 1 else 0

pub addr-set_addr_self : (b : Block) (i w : ℕ) → w < 4294967296 → addr (set_addr b i w) i ≡ w
addr-set_addr_self b i w h = u32_at-set_u32_self b (4 + 4 * i) w h

pub addr-set_addr_ne : (b : Block) (i j w : ℕ) → i ≢ j → addr (set_addr b i w) j ≡ addr b j
addr-set_addr_ne b i j w h = u32_at-set_u32_ne b (4 + 4 * i) w (4 + 4 * j) (omega arith)

pub next_of-set_addr : (b : Block) (i w : ℕ) → next_of (set_addr b i w) ≡ next_of b
next_of-set_addr b i w = u32_at-set_u32_ne b (4 + 4 * i) w 0 (omega arith)

-- An entry in front of the others does not count among them.
used-set_addr_out :
    (b : Block) (i w j rounds : ℕ) → i < j → used (set_addr b i w) j rounds ≡ used b j rounds
unfolding used
used-set_addr_out b i w j zero h = refl
used-set_addr_out b i w j (suc rounds) h =
    ground (arith, addr-set_addr_ne b i j w, used-set_addr_out b i w (j + 1) rounds)

pub used_step :
    (b : Block) (a i rounds : ℕ)
    → count a (used b i (suc rounds)) ≡ entry_count (addr b i) a + count a (used b (i + 1) rounds)
unfolding used
used_step b a i rounds = ground arith

count-set_addr_self :
    (b : Block) (w a i rounds : ℕ)
    → w < 4294967296
    → count a (used (set_addr b i w) i (suc rounds)) + entry_count (addr b i) a
      ≡ count a (used b i (suc rounds)) + entry_count w a
count-set_addr_self b w a i rounds h =
    rw
      (
        used_step b a i rounds,
        used_step (set_addr b i w) a i rounds,
        addr-set_addr_self b i w h,
        used-set_addr_out b i w (i + 1) rounds (omega arith),
      )
      (omega arith)

-- An assignment to an entry takes the old number from the node, and puts the new one in.
pub count-set_addr :
    (b : Block) (w a i j rounds : ℕ)
    → w < 4294967296
    → i ≤ j
    → j < i + rounds
    → count a (used (set_addr b j w) i rounds) + entry_count (addr b j) a
      ≡ count a (used b i rounds) + entry_count w a
count-set_addr b w a i j zero hw h h' = absurd (omega arith)
count-set_addr b w a i j (suc rounds) hw h h' = elim (eq_or_ne i j) [
  | inl e ↦
      subst
        (λ (t : ℕ).
          count a (used (set_addr b t w) i (suc rounds)) + entry_count (addr b t) a
          ≡ count a (used b i (suc rounds)) + entry_count w a)
        e (count-set_addr_self b w a i rounds hw)
  | inr ne ↦
      rw
        (
          used_step b a i rounds,
          used_step (set_addr b j w) a i rounds,
          addr-set_addr_ne b j i w (λ e. ne (sym e)),
        )
        (omega (arith, count-set_addr b w a (i + 1) j rounds hw (omega arith) (omega arith)))
]

-- The scans find an entry of their kind, or there is none.
pub first_used-some :
    (b : Block) (i rounds : ℕ) {j : ℕ}
    → first_used b i rounds ≡ some j
    → (i ≤ j) × (j < i + rounds) × (addr b j ≢ invalid_data)
unfolding first_used
first_used-some b i zero e = cc
first_used-some b i (suc rounds) {j} e = ground (arith, first_used-some b (i + 1) rounds {j = j})

pub first_used-none :
    (b : Block) (i rounds : ℕ) → first_used b i rounds ≡ none → used b i rounds ≡ []
unfolding first_used used
first_used-none b i zero e = refl
first_used-none b i (suc rounds) e = ground (arith, first_used-none b (i + 1) rounds)

pub first_empty-some :
    (b : Block) (i rounds : ℕ) {j : ℕ}
    → first_empty b i rounds ≡ some j
    → (i ≤ j) × (j < i + rounds) × (addr b j ≡ invalid_data)
unfolding first_empty
first_empty-some b i zero e = cc
first_empty-some b i (suc rounds) {j} e = ground (arith, first_empty-some b (i + 1) rounds {j = j})
