-- ===== src/Files.antt =====
-- Files as the programs read and write them with the package os.
use ssle_project.Prelude.{Bool, true, false, Bytes}

-- A file that does not exist, that cannot be opened or read, or that holds these bytes.
pub data File : Type 0 where
  missing unreadable : File
  stored : Bytes → File

-- What the file system does on one write: all is written, the file cannot be opened, or an error
-- leaves these bytes in the file.
pub data Disk : Type 0 where
  writable create_fails : Disk
  write_fails : Bytes → Disk

-- Writing the text: whether it went well, and the file after it.
unfoldable pub write_file : Disk → Bytes → File → Bool × File
write_file writable text f = (true, stored text)
write_file create_fails text f = (false, f)
write_file (write_fails partial) text f = (false, stored partial)
