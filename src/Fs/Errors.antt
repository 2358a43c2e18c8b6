-- ===== src/Fs/Errors.antt =====
-- The codes of <errno.h> that the file system returns. Only that they are not 0 and differ from
-- one another matters.
use franklin.Base.{ℤ, neg}

abbrev pub enoent : ℤ
enoent = neg 2

abbrev pub ebusy : ℤ
ebusy = neg 16

abbrev pub eexist : ℤ
eexist = neg 17

abbrev pub enotdir : ℤ
enotdir = neg 20

abbrev pub eisdir : ℤ
eisdir = neg 21

abbrev pub einval : ℤ
einval = neg 22

abbrev pub enotempty : ℤ
enotempty = neg 39
