-- ===== src/Layer2/Reads/Search.antt =====
-- The searches in a directory end: one page more than the full blocks is the last one.
use filesystem.Bytes.{Block, block_size}
use filesystem.Layer0.{Superblock, Disk, Vol, Op}
use filesystem.Layer1.Inode.{one_based, one_based-zero, one_based-none, inode_read}
use filesystem.Layer1.Inode.Store.{stored, inode_read-done}
use filesystem.Layer1.Keeps.{
  NoLoop, Ends, well, badly, never, keep_pure, keep_throw, keep_if, keep_option,
}
use filesystem.Layer1.Mkfs.{sizeof_dir_ent}
use filesystem.Layer1.Ready.{Ready, read_superblock-done}
use filesystem.Layer2.Dir.{
  dirents_per_block, is_dir, Page, page_result, read_page, read_dir_page, find_entry, search_pages,
  search_dir, search_by_name,
}
use filesystem.Layer2.Reads.{Reads, now_Reads, read_i-Reads}
use filesystem.Prelude.{
  ltb, ◌==◌, if◌then◌else◌, lt_or_le, ℕ, zero, suc, ◌+◌, ◌*◌, ◌/◌, ◌%◌, ◌≤◌, ◌<◌, ◌≡◌, refl, ap,
  inl, inr, Bool, true, false, not, none, List, arith,
}
use filesystem.Prelude.Int.{pos}
use filesystem.Prelude.Run.{
  Error, bad_inode, malformed_directory, not_dir, not_in_dir, invalid_page, Result, ok, err, Run,
  done, fail, pure, and_then, caught,
}

last_kept : (q : Page) (x : Result (ℕ × Block)) → (page_result q x).0.last ≡ q.last
last_kept q (err e) = refl
last_kept q (ok (n, d)) = refl

module _ {v : Vol} {sb : Superblock} {d : Disk} {n : ℕ} (r : Ready v sb d n) (k : ℕ)
    (valid : k < sb.num_inodes) where
  -- How a call of read_dir_page ends: with a status, or with a page of which it says whether it is the
  -- last.
  data PageEnd (page : ℕ) (run : Run Vol (Page × Result (Unit {0}))) : Type 0 where
    refused : (q : Page) (e : Error) → run ≡ done (q, err e) v → PageEnd page run
    paged :
        (q : Page)
        → run ≡ done (q, ok tt) v
        → q.last ≡ (page == (stored sb d k).size / block_size)
        → page ≤ (stored sb d k).size / block_size
        → PageEnd page run

  PageEnd-if :
      (b : Bool) (m l : Op (Page × Result (Unit {0}))) {page : ℕ}
      → PageEnd page (m v)
      → (b ≡ false → PageEnd page (l v))
      → PageEnd page ((if b then m else l) v)
  PageEnd-if true m l hm hl = hm
  PageEnd-if false m l hm hl = hl refl

  module _ {page : ℕ} (near : page ≤ (stored sb d k).size / block_size) where
    ended :
        (x : Page × Result (Unit {0})) {s : Vol}
        → s ≡ v
        → x.0.last ≡ (page == (stored sb d k).size / block_size)
        → PageEnd page (done x s)
    ended (q, ok tt) e l = paged q (ap (λ (s : Vol). done (q, ok tt) s) e) l near
    ended (q, err x) e l = refused q x (ap (λ (s : Vol). done (q, err x) s) e)

    PageEnd-read :
        {run : Run Vol (ℕ × Block)} (f : Result (ℕ × Block) → Page × Result (Unit {0}))
        → Ends NoLoop (λ s. s ≡ v) run
        → ((x : Result (ℕ × Block)) → (f x).0.last ≡ (page == (stored sb d k).size / block_size))
        → PageEnd page (and_then (caught run) (λ x. pure (f x)))
    PageEnd-read f (well {a} e) l = ended (f (ok a)) e (l (ok a))
    PageEnd-read f (badly {e = x} e) l = ended (f (err x)) e (l (err x))
    PageEnd-read f (never h) l = absurd h

  read_page-PageEnd :
      (inum page : ℕ) (p : Page) → PageEnd page (read_page inum (stored sb d k).size page p v)
  unfolding read_page
  read_page-PageEnd inum page p =
      let nb : ℕ = (stored sb d k).size / block_size in
      let entries : ℕ =
        if page == nb
        then (stored sb d k).size % block_size / sizeof_dir_ent
        else dirents_per_block in
      let q : Page = record { d = p.d; entries = entries; last = page == nb } in
      PageEnd-if (ltb nb page) _ _ (refused p invalid_page refl) λ e.
        PageEnd-read (ground arith) (page_result q)
          ((read_i-Reads r inum p.d (page * block_size) (entries * sizeof_dir_ent)).keep v refl)
          (last_kept q)

  read_dir_page-PageEnd : (page : ℕ) (p : Page) → PageEnd page (read_dir_page (suc k) page p v)
  unfolding read_dir_page
  read_dir_page-PageEnd page p = rw (inode_read-done r k valid) (
      PageEnd-if (not (is_dir (stored sb d k).mode)) _ _ (refused p not_dir refl) λ _.
        PageEnd-if ((stored sb d k).size == 0) _ _ (refused p malformed_directory refl) λ _.
          PageEnd-if (not ((stored sb d k).size % block_size % sizeof_dir_ent == 0)) _ _
            (refused p malformed_directory refl) λ _. read_page-PageEnd (suc k) page p)

  keep_last :
      {A : Type 0} (b : Bool) {m l : Op A}
      → Reads r m
      → (b ≡ false → Reads r l)
      → Reads r (elim b [ true ↦ m | false ↦ l ])
  keep_last true km kl = km
  keep_last false km kl = kl refl

  search_pages-Reads :
      (fuel : ℕ) (test : Block → ℕ → Bool) (cur : ℕ) (p : Page)
      → cur ≤ (stored sb d k).size / block_size
      → (stored sb d k).size / block_size < cur + fuel
      → Reads r (search_pages fuel test (suc k) cur p)
  unfolding search_pages
  search_pages-Reads zero test cur p h enough = absurd (omega arith)
  search_pages-Reads (suc fuel) test cur p h enough =
      now_Reads r (elim (read_dir_page-PageEnd cur p) [
        | refused q e g ↦ rw g (badly refl)
        | paged q g last_page near ↦ rw g (
            (keep_option (find_entry test q.d 0 q.entries)
                (keep_last q.last (keep_throw not_in_dir)
                  λ more. search_pages-Reads fuel test (cur + 1) q (ground arith) (omega arith))
                λ i. keep_pure _).keep
              v refl)
      ])

  pub search_dir-Reads : (test : Block → ℕ → Bool) → Reads r (search_dir test (suc k))
  unfolding search_dir
  search_dir-Reads test = now_Reads r (
      rw (inode_read-done r k valid) (
        (keep_if (not (is_dir (stored sb d k).mode)) (keep_throw not_dir)
            (search_pages-Reads _ test 0 _ (omega arith) (omega arith))).keep
          v refl))

module _ {v : Vol} {sb : Superblock} {d : Disk} {n : ℕ} (r : Ready v sb d n) where
  search_dir-bad :
      (test : Block → ℕ → Bool) (inum : ℕ)
      → one_based (pos inum) sb.num_inodes ≡ none
      → search_dir test inum v ≡ fail bad_inode v
  unfolding search_dir inode_read
  search_dir-bad test inum e = ground (arith, read_superblock-done r)

  search_dir-Ends :
      (test : Block → ℕ → Bool) (inum : ℕ) → Ends NoLoop (λ s. s ≡ v) (search_dir test inum v)
  search_dir-Ends test zero =
      rw (search_dir-bad test zero (one_based-zero sb.num_inodes)) (badly refl)
  search_dir-Ends test (suc k) = elim (lt_or_le k sb.num_inodes) [
    | inl h ↦ (search_dir-Reads r k h test).keep v refl
    | inr h ↦ rw (search_dir-bad test (suc k) (one_based-none k sb.num_inodes h)) (badly refl)
  ]

  -- On a volume in use search_by_name ends, for every inode number and every name, and changes nothing,
  -- whether it finds the name or reports an error.
  pub search_by_name-Ends :
      (inum : ℕ) (name : List ℕ) → Ends NoLoop (λ s. s ≡ v) (search_by_name inum name v)
  unfolding search_by_name
  search_by_name-Ends inum name = search_dir-Ends _ inum
