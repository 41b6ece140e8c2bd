-- ===== src/Layer1/Super/Cache.antt =====
-- What the calls see of the superblock.
use filesystem.Layer0.{Superblock, Vol}
use filesystem.Layer1.Super.{read_superblock}
use filesystem.Prelude.{◌≡◌, some}
use filesystem.Prelude.Run.{done}

pub read_superblock-cached :
    {v : Vol} {sb : Superblock} → v.cached_superblock ≡ some sb → read_superblock v ≡ done sb v
unfolding read_superblock
read_superblock-cached e = rw e
