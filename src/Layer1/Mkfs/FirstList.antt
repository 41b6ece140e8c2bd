-- ===== src/Layer1/Mkfs/FirstList.antt =====
-- init_freelist on a volume whose superblock is set up: the first free list holds every data block once.
use mathlib.Core.Path.{subst}
use filesystem.Bytes.{Block}
use filesystem.Layer0.{Superblock, Disk, Vol}
use filesystem.Layer1.Data.View.{view, upd, write_data, data_write-done, view-write_data}
use filesystem.Layer1.FreeList.{invalid_data}
use filesystem.Layer1.FreeList.Chain.{IsChain, free_blocks, valid_once, IsFreeList}
use filesystem.Layer1.Mkfs.{blocks_per_node, node_of, write_nodes, init_freelist}
use filesystem.Layer1.Mkfs.Nodes.{nodes, nodes-IsChain, count-first_nodes}
use filesystem.Layer1.Ready.{Geometry, Ready, with_disk, Ready-with_disk, read_superblock-done}
use filesystem.Prelude.{
  leb, if◌then◌else◌, eq_or_ne, count, ℕ, zero, suc, ◌+◌, ◌-◌, ◌*◌, ◌/◌, ◌≤◌, ◌<◌, ◌≡◌, refl, inl,
  inr, List, arith,
}
use filesystem.Prelude.Run.{Returns, Returns-imp}

-- The contents after the loop of init_freelist from round `i`.
abbrev written : (ℕ → Block) → (num i rounds : ℕ) → ℕ → Block
written f num i zero = f
written f num i (suc rounds) =
    written (upd f (i * blocks_per_node + 1) (node_of num i)) num (i + 1) rounds

written-below :
    (f : ℕ → Block) (num i rounds k : ℕ)
    → k < i
    → written f num i rounds (k * blocks_per_node + 1) ≡ f (k * blocks_per_node + 1)
written-below f num i zero k h = refl
written-below f num i (suc rounds) k h =
    ground
      (arith, written-below (upd f (i * blocks_per_node + 1) (node_of num i)) num (i + 1) rounds k)

written-Written :
    (f : ℕ → Block) (num i rounds k : ℕ)
    → i ≤ k
    → k < i + rounds
    → written f num i rounds (k * blocks_per_node + 1) ≡ node_of num k
written-Written f num i zero k h h' = absurd (omega arith)
written-Written f num i (suc rounds) k h h' = elim (eq_or_ne i k) [
  | inl e ↦
      ground (
        arith,
        written-below (upd f (i * blocks_per_node + 1) (node_of num i)) num (i + 1) rounds k,
      )
  | inr ne ↦
      written-Written (upd f (i * blocks_per_node + 1) (node_of num i)) num (i + 1) rounds k
        (omega arith) (omega arith)
]

-- A volume with other contents of its data blocks and the same superblock.
record Holds (n : ℕ) (sb : Superblock) (f : ℕ → Block) (v' : Vol) : Type 0 where
  pub d' : Disk
  pub ready : Ready v' sb d' n
  pub contents : view sb d' ≡ f

write_nodes-Holds :
    (num rounds i : ℕ) {v : Vol} {sb : Superblock} {d : Disk} {n : ℕ} (r : Ready v sb d n)
    → num ≤ sb.data_size
    → (i + rounds) * blocks_per_node < num + blocks_per_node
    → Returns (λ _. Holds n sb (written (view sb d) num i rounds)) (write_nodes num i rounds v)
unfolding write_nodes
write_nodes-Holds num zero i {d} r h b = record { d' = d; ready = r; contents = refl }
write_nodes-Holds num (suc rounds) i {v} {sb} {d} {n} r h b =
    let p : ℕ = i * blocks_per_node + 1 in
    let d' : Disk = write_data sb d p (node_of num i) in
    rw (data_write-done r p (node_of num i) (omega arith) (omega arith)) (
      subst
        (λ (f : ℕ → Block).
          Returns (λ _. Holds n sb (written f num (i + 1) rounds))
            (write_nodes num (i + 1) rounds (with_disk v d')))
        (view-write_data r p (node_of num i) (omega arith))
        (write_nodes-Holds num rounds (i + 1) (Ready-with_disk r d') h (omega arith)))

-- What init_freelist leaves: a free list in which every data block stands once, and nothing else.
pub record AllFree (n : ℕ) (sb : Superblock) (v' : Vol) : Type 0 where
  pub d' : Disk
  pub ps : List ℕ
  pub ready : Ready v' sb d' n
  pub free_list : IsFreeList sb.data_size (view sb d') sb.free_list_head ps
  pub all_free : (a : ℕ) → count a (free_blocks (view sb d') ps) ≡ valid_once sb.data_size a

Holds-AllFree :
    {n : ℕ} {sb : Superblock} (f : ℕ → Block) (rounds : ℕ) (v' : Vol)
    → Geometry sb n
    → 0 < sb.data_size
    → sb.free_list_head ≡ 1
    → sb.data_size ≤ rounds * blocks_per_node
    → rounds * blocks_per_node < sb.data_size + blocks_per_node
    → Holds n sb (written f sb.data_size 0 rounds) v'
    → AllFree n sb v'
Holds-AllFree {sb} f rounds v' g h e a b w =
    let num : ℕ = sb.data_size in
    let fits : num < 2147483648 = omega (arith, g.data_fits, g.small) in
    let all = written-Written f num 0 rounds in
    let chain : IsChain (written f num 0 rounds)
        (if leb (0 * blocks_per_node + 1) num then 0 * blocks_per_node + 1 else invalid_data)
        (nodes num fits 0 rounds) =
      nodes-IsChain num fits (written f num 0 rounds) 0 rounds all (omega arith) (omega arith) in
    let counts = λ (x : ℕ).
      count-first_nodes num fits (written f num 0 rounds) 0 rounds x all (omega arith)
        (omega arith) in
    record {
      d' = w.d';
      ps = nodes num fits 0 rounds;
      ready = w.ready;
      free_list = rw (w.contents) (record {
        chain =
            subst (λ (p : ℕ). IsChain (written f num 0 rounds) p (nodes num fits 0 rounds))
              (ground arith) chain;
        once = λ x. omega (arith, counts x);
      });
      all_free = λ x. rw (w.contents) (counts x);
    }

-- On a volume in use with data blocks and 1 for the head of the free list, as init_superblock leaves it,
-- init_freelist succeeds and leaves a free list in which every data block stands once, and nothing else.
pub init_freelist-AllFree :
    {v : Vol} {sb : Superblock} {d : Disk} {n : ℕ} (r : Ready v sb d n)
    → 0 < sb.data_size
    → sb.free_list_head ≡ 1
    → Returns (λ _. AllFree n sb) (init_freelist v)
unfolding init_freelist
init_freelist-AllFree {v} {sb} {d} {n} r h e =
    let rounds : ℕ = (sb.data_size + blocks_per_node - 1) / blocks_per_node in
    rw (read_superblock-done r) (
      Returns-imp _
        (λ _ s. Holds-AllFree (view sb d) rounds s r.geometry h e (omega arith) (omega arith))
        (write_nodes-Holds sb.data_size rounds 0 r (omega arith) (omega arith)))
