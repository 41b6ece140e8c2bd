-- ===== src/Layer2/Path/Entry.antt =====
-- The directory entry that mkdir_fs and mknod_fs build, as search_by_name reads it.
use filesystem.Bytes.{Block, set_u32, set_byte}
use filesystem.Bytes.Words.{u32_at-set_u32_self}
use filesystem.Layer1.Mkfs.{filebuf_size}
use filesystem.Layer2.Dir.{entry_inum, name_matches}
use filesystem.Layer2.Path.{max_filename, last_name, store_padded, new_dir_ent}
use filesystem.Prelude.{
  ◌==◌, length, ℕ, zero, suc, ◌+◌, ◌≤◌, ◌<◌, ◌≡◌, refl, ◌∙◌, Bool, true, false, ◌&&◌, List, [], ◌∷◌,
  arith,
}

-- The characters of a C string.
abbrev pub AllChars : List ℕ → Type 0
AllChars [] = Unit {0}
AllChars (c ∷ cs) = (0 < c) × AllChars cs

abbrev pub same_name : List ℕ → List ℕ → Bool
same_name [] [] = true
same_name (a ∷ s) (c ∷ t) = a == c && same_name s t
same_name _ _ = false

store_padded-below :
    (b : Block) (o : ℕ) (s : List ℕ) (n p : ℕ) → p < o → store_padded b o s n p ≡ b p
unfolding store_padded set_byte
store_padded-below b o s zero p h = refl
store_padded-below b o [] (suc n) p h =
    ground (arith, store_padded-below (set_byte b o 0) (o + 1) [] n p)
store_padded-below b o (c ∷ cs) (suc n) p h =
    ground (arith, store_padded-below (set_byte b o c) (o + 1) cs n p)

-- What stands at the offset of a byte that is stored first.
first_byte :
    (b : Block) (o c : ℕ) (s : List ℕ) (n : ℕ) → store_padded (set_byte b o c) (o + 1) s n o ≡ c
unfolding set_byte
first_byte b o c s n = ground (arith, store_padded-below (set_byte b o c) (o + 1) s n o)

name_matches-store_padded :
    (t s : List ℕ) (b : Block) (o n : ℕ)
    → AllChars s
    → AllChars t
    → length s < n
    → name_matches t (store_padded b o s n) o n ≡ same_name s t
unfolding name_matches store_padded
name_matches-store_padded t s b o zero hs ht h = absurd (omega arith)
name_matches-store_padded [] [] b o (suc n) hs ht h = ground (arith, first_byte b o 0 [] n)
name_matches-store_padded (c ∷ t) [] b o (suc n) hs ht h = ground (arith, ht, first_byte b o 0 [] n)
name_matches-store_padded [] (a ∷ s) b o (suc n) hs ht h = ground (arith, hs, first_byte b o a s n)
name_matches-store_padded (c ∷ t) (a ∷ s) b o (suc n) hs ht h =
    ground (
      arith,
      hs,
      ht,
      first_byte b o a s n,
      name_matches-store_padded t s (set_byte b o a) (o + 1) n,
    )

name_matches-set_u32 :
    (t : List ℕ) (d : Block) (p w o n : ℕ)
    → o + n ≤ p
    → name_matches t (set_u32 d p w) o n ≡ name_matches t d o n
unfolding name_matches set_u32
name_matches-set_u32 t d p w o zero h = refl
name_matches-set_u32 [] d p w o (suc n) h = ground arith
name_matches-set_u32 (c ∷ t) d p w o (suc n) h =
    ground (arith, name_matches-set_u32 t d p w (o + 1) n)

-- The entry that is made for a path and an inode number holds that number, and a search finds it under
-- the last component of the path and under no other name. The component has at most MAX_FILENAME
-- characters, none of them 0.
pub new_dir_ent-matches :
    (junk : Block) (path name : List ℕ) (inum : ℕ)
    → AllChars (last_name path [])
    → AllChars name
    → length (last_name path []) ≤ max_filename
    → inum < 4294967296
    → (name_matches name (new_dir_ent junk path inum) 0 filebuf_size
        ≡ same_name (last_name path []) name)
      × (entry_inum (new_dir_ent junk path inum) 0 ≡ inum)
new_dir_ent-matches junk path name inum hs ht h word = (
  name_matches-set_u32 name (store_padded junk 0 (last_name path []) filebuf_size) filebuf_size inum
        0 filebuf_size (omega arith)
      ∙ name_matches-store_padded name (last_name path []) junk 0 filebuf_size hs ht (omega arith),
  u32_at-set_u32_self (store_padded junk 0 (last_name path []) filebuf_size) filebuf_size inum word,
)
