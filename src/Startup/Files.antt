-- ===== src/Startup/Files.antt =====
-- load_file, save_file and prepare_dirs of util.cpp, over a file system.
use kedge.Base.{ℕ, Bool, true, false, Option, none, some, List, [], ◌∷◌, ltb, if◌then◌else◌, length}
use kedge.Bytes.{Bytes, codes, bytes_eq}
use kedge.Util.{path_join}

pub data Entry : Type 0 where
  regular : Bytes → Entry
  directory : Entry

-- What each name stands for, and what the system permits, given that. A full disk is not modelled.
pub record Disk : Type 0 where
  pub entries : Bytes → Option Entry
  pub may_create : (Bytes → Option Entry) → Bytes → Bool
  pub may_write : Bytes → Bool

unfoldable pub put_entry : Bytes → Entry → Disk → Disk
put_entry p e d = record d { entries = λ q. if bytes_eq q p then some e else d.entries q }

-- The second argument of load_file by default.
abbrev pub file_limit : ℕ
file_limit = 8000000

-- The position at the end; `none` is -1. A directory that was opened ends beyond every limit.
abbrev pub within : ℕ → Option Entry → Option Bytes
within limit none = none
within limit (some directory) = none
within limit (some (regular v)) = if ltb limit (length v) then none else some v

-- `none`: false is returned.
unfoldable pub load_file : Disk → Bytes → ℕ → Option Bytes
load_file d filename limit = within limit (d.entries filename)

abbrev pub can_open : Option Entry → Bool
can_open (some directory) = false
can_open _ = true

-- The content is replaced where the file can be opened for writing.
unfoldable pub save_file : Disk → Bytes → Bytes → Disk × Bool
unfolding put_entry
save_file d filename v =
    if can_open (d.entries filename)
    then (if d.may_write filename then (put_entry filename (regular v) d, true) else (d, false))
    else (d, false)

-- fs::create_directory: whether there is a directory now. One that was there is no error.
abbrev pub made : Disk → Bytes → Option Entry → Disk × Bool
made d p (some directory) = (d, true)
made d p (some (regular _)) = (d, false)
made d p none = if d.may_create d.entries p then (put_entry p directory d, true) else (d, false)

unfoldable pub create_directory : Disk → Bytes → Disk × Bool
unfolding put_entry
create_directory d p = made d p (d.entries p)

-- The loop, which ends at the first failure.
unfoldable pub create_all : Disk → List Bytes → Disk × Bool
unfolding create_directory
create_all d [] = (d, true)
create_all d (p ∷ ps) =
    let (d', ok) = create_directory d p in
    let rest = create_all d' ps in if ok then rest else (d', false)

abbrev pub resume_dir : Bytes
resume_dir = codes ".resume"

abbrev pub watch_dir : Bytes
watch_dir = codes "watching"

abbrev pub cert_dir : Bytes
cert_dir = codes "certificates"

abbrev pub conf_dirs : Bytes → List Bytes
unfolding path_join
conf_dirs cd = cd ∷ path_join cd resume_dir ∷ path_join cd watch_dir ∷ path_join cd cert_dir ∷ []

unfoldable pub prepare_dirs : Disk → Bytes → Disk × Bool
unfolding create_all
prepare_dirs d cd = create_all d (conf_dirs cd)
