-- ===== src/Layer2/Dir.antt =====
-- layer2.c, directories: arrays of dir_ent, 15 to a block, with 181 unused bytes behind each 15.
pub mod Sizes
use filesystem.Bytes.{Block, block_size, u32_at, copy}
use filesystem.Layer0.{Op}
use filesystem.Layer1.Inode.{inode_read}
use filesystem.Layer1.Mkfs.{s_ifdir, filebuf_size, sizeof_dir_ent}
use filesystem.Layer2.File.{read_i, write_i, truncate}
use filesystem.Prelude.{
  ltb, ◌==◌, if◌then◌else◌, ℕ, zero, suc, ◌+◌, ◌-◌, ◌*◌, ◌/◌, ◌%◌, ◌^◌, bit_and, Bool, true, false,
  ◌&&◌, ◌||◌, not, Option, none, some, List, [], ◌∷◌,
}
use filesystem.Prelude.Int.{pos}
use filesystem.Prelude.Run.{
  malformed_directory, not_dir, bad_index, not_in_dir, invalid_page, short, Result, ok, err,
  diverge, pure, throw, get, ◌>>=◌, ◌>>◌, attempt,
}

-- DIRENTS_PER_BLOCK and DIRENTS_REMAINDER
abbrev pub dirents_per_block : ℕ
dirents_per_block = 15

abbrev pub dirents_remainder : ℕ
dirents_remainder = 181

-- S_ISDIR
abbrev pub is_dir : ℕ → Bool
is_dir mode = bit_and mode 0xf000 == s_ifdir

-- dir_ents[i].inode_num
abbrev pub entry_inum : Block → ℕ → ℕ
entry_inum d i = u32_at d (sizeof_dir_ent * i + filebuf_size)

-- strncmp(name, d + o, n) == 0, for a name without the byte 0: equal up to its end, or for n bytes.
unfoldable pub name_matches : (name : List ℕ) (d : Block) (o n : ℕ) → Bool
name_matches name d o zero = true
name_matches [] d o (suc n) = d o == 0
name_matches (c ∷ cs) d o (suc n) = elim (d o == c) [
  | true ↦ name_matches cs d (o + 1) n
  | false ↦ false
]

-- What read_dir_page leaves in `d`, `entries` and `last`.
pub record Page : Type 0 where
  pub d : Block
  pub entries : ℕ
  pub last : Bool

-- What read_dir_page leaves after the read, and its status: a short read returns its count, which is
-- SUCCESS if it is 0. The read lies in one block of the file, so a read that fails fails in the only
-- round of read_i, before any byte is copied, and `d` is as before.
abbrev pub page_result : Page → Result (ℕ × Block) → Page × Result (Unit {0})
page_result q (err e) = (q, err e)
page_result q (ok (n, d)) =
    (record q { d = d }, if n == q.entries * sizeof_dir_ent || n == 0 then ok tt else err (short n))

-- The part of read_dir_page behind the tests of the inode.
unfoldable pub read_page : (inum size page : ℕ) → Page → Op (Page × Result (Unit {0}))
read_page inum size page p =
    let num_blocks : ℕ = size / block_size in
    let remainder : ℕ = size % block_size in
    if ltb num_blocks page
    then pure (p, err invalid_page)
    else let is_last : Bool = page == num_blocks in
      let entries : ℕ = if is_last then remainder / sizeof_dir_ent else dirents_per_block in
      let q : Page = record { d = p.d; entries = entries; last = is_last } in
      (do
        r ← attempt (read_i inum p.d (page * block_size) (entries * sizeof_dir_ent))
        pure (page_result q r))

-- The page given is what the caller's variables hold; it comes back with the status.
unfoldable pub read_dir_page : (inum page : ℕ) → Page → Op (Page × Result (Unit {0}))
read_dir_page inum page p = do
  r ← attempt (inode_read (pos inum))
  elim r [
    | err e ↦ pure (p, err e)
    | ok n ↦
        if not (is_dir n.mode)
        then pure (p, err not_dir)
        else if n.size == 0
        then pure (p, err malformed_directory)
        else if not (n.size % block_size % sizeof_dir_ent == 0)
        then pure (p, err malformed_directory)
        else read_page inum n.size page p
  ]

-- The scan of a page for an entry that passes a test, over the entries left.
unfoldable pub find_entry : (test : Block → ℕ → Bool) (d : Block) (i rounds : ℕ) → Option ℕ
find_entry test d i zero = none
find_entry test d i (suc rounds) = elim (test d i) [
  | true ↦ some i
  | false ↦ find_entry test d (i + 1) rounds
]

-- The loop over the pages that search_by_inum and search_by_name share, from `cur_block`: the index
-- of the entry found in the directory, and its inode number.
unfoldable pub search_pages :
    (fuel : ℕ) (test : Block → ℕ → Bool) (inum cur_block : ℕ) → Page → Op (ℕ × ℕ)
search_pages zero test inum cur p = λ _. diverge
search_pages (suc fuel) test inum cur p = do
  (q, status) ← read_dir_page inum cur p
  elim status [
    | err _ ↦ throw not_dir
    | ok _ ↦ elim (find_entry test q.d 0 q.entries) [
      | some i ↦ pure (cur * dirents_per_block + i, entry_inum q.d i)
      | none ↦ elim q.last [
        | true ↦ throw not_in_dir
        | false ↦ search_pages fuel test inum (cur + 1) q
      ]
    ]
  ]

-- Both searches read at most one page more than the directory has full blocks.
unfoldable pub search_dir : (test : Block → ℕ → Bool) (inum : ℕ) → Op (ℕ × ℕ)
search_dir test inum = do
  my_inode ← inode_read (pos inum)
  v ← get
  if not (is_dir my_inode.mode)
      then throw not_dir
      else search_pages (my_inode.size / block_size + 1) test inum 0
          (record { d = v.junk; entries = 0; last = false })

-- The index goes through `index`.
unfoldable pub search_by_inum : (inum search_num : ℕ) → Op ℕ
search_by_inum inum search_num = do
  (i, n) ← search_dir (λ d i. entry_inum d i == search_num) inum
  pure i

-- The index and the inode number, through `index` and `target`.
unfoldable pub search_by_name : (inum : ℕ) (name : List ℕ) → Op (ℕ × ℕ)
search_by_name inum name =
    search_dir (λ d i. name_matches name d (sizeof_dir_ent * i) filebuf_size) inum

-- The offset at which add_dirent writes: entries do not straddle a block's end.
unfoldable pub dirent_offset : (size : ℕ) → ℕ
dirent_offset size =
    if ltb (size / block_size) ((size + sizeof_dir_ent) / block_size)
    then size + dirents_remainder
    else size

-- The number of bytes written.
unfoldable pub add_dirent : (inum : ℕ) (d : Block) → Op ℕ
add_dirent inum d = do
  my_inode ← inode_read (pos inum)
  elim (is_dir my_inode.mode) [
    | false ↦ throw not_dir
    | true ↦ elim (my_inode.size % block_size % sizeof_dir_ent == 0) [
      | false ↦ throw malformed_directory
      | true ↦ write_i inum d (dirent_offset my_inode.size) sizeof_dir_ent
    ]
  ]

-- The size of a directory that loses its last entry.
unfoldable pub shrunk_size : (size : ℕ) → ℕ
shrunk_size size =
    let new_size : ℕ = size - sizeof_dir_ent in
    if new_size % block_size == 0 && not (new_size == 0)
    then new_size - dirents_remainder
    else new_size

abbrev pub entry_offset : (index : ℕ) → ℕ
entry_offset index =
    index / dirents_per_block * block_size + index % dirents_per_block * sizeof_dir_ent

-- The last entry's offset, computed in size_t.
unfoldable pub last_offset : (size : ℕ) → ℕ
last_offset size = (2 ^ 64 + size - sizeof_dir_ent) % 2 ^ 64

-- A count of bytes that is not the one wanted is returned as the status.
unfoldable pub remove_dirent : (inum index : ℕ) → Op (Unit {0})
remove_dirent inum index = do
  my_inode ← inode_read (pos inum)
  v ← get
  let size : ℕ = my_inode.size
  if not (is_dir my_inode.mode)
      then throw not_dir
      else if size == 0
      then throw bad_index
      else if not (size % block_size % sizeof_dir_ent == 0)
      then throw malformed_directory
      else if ltb (last_offset size) (entry_offset index)
      then throw bad_index
      else (do
        r ← attempt (read_i inum v.junk (last_offset size) sizeof_dir_ent)
        let last : Block = elim r [ ok (_, b) ↦ b | err _ ↦ v.junk ]
        written ← write_i inum last (entry_offset index) sizeof_dir_ent
        if not (written == sizeof_dir_ent)
            then throw (short written)
            else (do attempt (truncate inum (shrunk_size size)); pure tt))

-- The loop of read_dir_whole over the full blocks, from block `i`: the buffer and the offset in it
-- behind what was read.
unfoldable pub read_full_blocks :
    (inum i rounds : ℕ) (buf : Block) (write_offset : ℕ) → Op (Block × ℕ)
read_full_blocks inum i zero buf at = pure (buf, at)
read_full_blocks inum i (suc rounds) buf at = do
  v ← get
  let whole : ℕ = dirents_per_block * sizeof_dir_ent
  (n, d) ← read_i inum v.junk (i * block_size) whole
  if not (n == whole)
      then throw (short n)
      else read_full_blocks inum (i + 1) rounds (copy buf at d 0 whole) (at + whole)

-- The caller's buffer, with the entries of all pages behind one another.
unfoldable pub read_dir_whole : (inum : ℕ) (buf : Block) → Op Block
read_dir_whole inum buf = do
  my_inode ← inode_read (pos inum)
  v ← get
  let size : ℕ = my_inode.size
  let num_blocks : ℕ = size / block_size
  let remainder : ℕ = size % block_size
  if not (is_dir my_inode.mode)
      then throw not_dir
      else if size == 0
      then throw malformed_directory
      else if not (remainder % sizeof_dir_ent == 0)
      then throw malformed_directory
      else (do
        (b, at) ← read_full_blocks inum 0 num_blocks buf 0
        (n, d) ← read_i inum v.junk (num_blocks * block_size) remainder
        if not (n == remainder) then throw (short n) else pure (copy b at d 0 remainder))
