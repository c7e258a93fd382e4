-- ===== src/Vfs.antt =====
-- src/kernel/vfs/vfs.c and vfs.h: the calls that a file system serves through its table of
-- functions. `S` is the state that those functions change; a NULL pointer to a function is `none`.
use vardar_os.Prelude.{Option, bit_and, if_null, if◌then◌else◌, none, ℕ, ◌==◌}

-- `dirent_t`.
pub record Dirent : Type 0 where
  pub name : ℕ
  pub ino : ℕ

-- `fs_node_t`: its flags and functions. A function gets the node as it is closed over. `buffer` is
-- an address.
pub record FsNode (S : Type 0) : Type 0 where
  pub flags : ℕ
  pub read : Option (ℕ → ℕ → ℕ → S → ℕ × S)
  pub write : Option (ℕ → ℕ → ℕ → S → ℕ × S)
  pub open_node : Option (S → S)
  pub close : Option (S → S)
  pub readdir : Option (ℕ → S → Option Dirent × S)
  pub finddir : Option (ℕ → S → Option Dirent × S)

module _ {S : Type 0} where
  unfoldable pub read_fs : FsNode S → ℕ → ℕ → ℕ → S → ℕ × S
  read_fs node offset size buffer s = if_null (0, s) (λ f. f offset size buffer s) node.read

  unfoldable pub write_fs : FsNode S → ℕ → ℕ → ℕ → S → ℕ × S
  write_fs node offset size buffer s = if_null (0, s) (λ f. f offset size buffer s) node.write

  unfoldable pub open_fs : FsNode S → S → S
  open_fs node s = if_null s (λ f. f s) node.open_node

  unfoldable pub close_fs : FsNode S → S → S
  close_fs node s = if_null s (λ f. f s) node.close

  -- FS_DIRECTORY is 5.
  unfoldable pub readdir_fs : FsNode S → ℕ → S → Option Dirent × S
  readdir_fs node index s =
      if bit_and node.flags 7 == 5
      then if_null (none, s) (λ f. f index s) node.readdir
      else (none, s)

  unfoldable pub finddir_fs : FsNode S → ℕ → S → Option Dirent × S
  finddir_fs node name s =
      if bit_and node.flags 7 == 5
      then if_null (none, s) (λ f. f name s) node.finddir
      else (none, s)
