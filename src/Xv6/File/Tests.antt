-- ===== src/Xv6/File/Tests.antt =====
-- Writing 2000 bytes to an empty file, which takes two chunks.
use oscassignments.Base.{refl, true, ltb, arith, none}
use oscassignments.Xv6.Fs.{Fs}
use oscassignments.Xv6.Inode.{Inode, Devsw}
use oscassignments.Xv6.Inode.Place.{Sound}
use oscassignments.Xv6.File.{FileKind, File, filewrite}
use oscassignments.Xv6.File.Chunks.{FileWritten, filewrite_lem}

abbrev disk : Fs
disk = record {
  sb = record { size = 1000; ninodes = 200; inodestart = 32; bmapstart = 58 };
  bits = λ b i. ltb i 100;
  bytes = λ b i. b;
  words = λ b i. 0;
}

abbrev empty_file : Inode
empty_file = record {
  dev = 1;
  inum = 9;
  ref = 1;
  valid = true;
  type = 2;
  major = 0;
  minor = 0;
  nlink = 1;
  size = 0;
  addrs = λ i. 0;
}

abbrev opened : File
opened = record {
  kind = FileKind.fd_inode;
  ref = 1;
  readable = true;
  writable = true;
  pipe = 0;
  ip = 0;
  off = 0;
}

empty_file-Sound : Sound empty_file disk
empty_file-Sound = record {
  owned = λ p full. ground arith;
  single = λ p q full same. ground arith;
  boot = refl;
}

abbrev no_driver : Devsw
no_driver major = none

filewrite_lem_example :
    FileWritten opened empty_file disk
      (λ k. k)
      2000
      (filewrite no_driver opened empty_file disk (λ k. k) 2000)
filewrite_lem_example =
    filewrite_lem no_driver opened empty_file disk (λ k. k) 2000 refl (omega arith) empty_file-Sound
      (omega arith) (omega arith)
