-- ===== src/Fs/Ops.antt =====
-- `struct vnodeops` and `struct vfsops`: what a concrete file system implements. An argument
-- that the C function returns something through comes in with its old value and goes out with
-- its new one.
use franklin.Base.{ℕ, ℤ, List, Option, Cmd}
use franklin.Text.{Buffer}
use franklin.Fs.State.{Ptr, Vtype, Fs}

-- `struct dirent`
pub record Dirent : Type 0 where
  pub ino : ℕ
  pub reclen : ℕ
  pub kind : ℕ
  pub name : Buffer

-- What `readdir` gives back: the error, the entries that it wrote, `*count` and `*offset`.
pub record Listing : Type 0 where
  pub error : ℤ
  pub entries : List Dirent
  pub count : ℕ
  pub offset : ℕ

pub record Ops (D : Type 0) : Type 0 where
  -- directory, name, length, `*vpp`
  pub lookup : Ptr → Buffer → ℕ → Ptr → Cmd (Fs D) (ℤ × Ptr)
  pub create : Ptr → Buffer → ℕ → Vtype → Ptr → Cmd (Fs D) (ℤ × Ptr)
  pub mkdir : Ptr → Buffer → ℕ → Ptr → Cmd (Fs D) (ℤ × Ptr)
  pub symlink : Ptr → Buffer → Buffer → ℕ → Cmd (Fs D) ℤ
  pub link : Ptr → Ptr → Buffer → Cmd (Fs D) ℤ
  pub remove : Ptr → Ptr → Buffer → Cmd (Fs D) ℤ
  pub rmdir : Ptr → Ptr → Buffer → ℕ → Cmd (Fs D) ℤ
  -- the buffer that `cnp->name` points at, if it is a buffer; the name and its length come back
  pub readlink : Ptr → Option Buffer → Cmd (Fs D) (Buffer × ℕ)
  pub readdir : Ptr → ℕ → ℕ → Cmd (Fs D) Listing
  pub read : Ptr → Buffer → ℕ → ℕ → Cmd (Fs D) (ℤ × Buffer)
  pub write : Ptr → Buffer → ℕ → ℕ → Cmd (Fs D) ℤ
  pub close : Ptr → Cmd (Fs D) (Unit {0})
  pub inactive : Ptr → Cmd (Fs D) (Unit {0})
  pub mount : Ptr → Cmd (Fs D) ℤ
  pub unmount : Ptr → Cmd (Fs D) ℤ
  pub root : Ptr → Cmd (Fs D) (ℤ × Ptr)
