-- ===== src/Xv6/Icache/Tests.antt =====
-- The inode cache and the freeing of a file at the small disk.
use oscassignments.Base.{ℕ, refl, true, false, ltb, ◌==◌, if◌then◌else◌, arith}
use oscassignments.Xv6.Fs.{Fs}
use oscassignments.Xv6.Inode.{Inode, itrunc}
use oscassignments.Xv6.Inode.Place.{Sound}
use oscassignments.Xv6.Inode.Direct.{Truncated}
use oscassignments.Xv6.Inode.Itrunc.{itrunc_lem}
use oscassignments.Xv6.Icache.{Dinode, Files, iput, iupdate}
use oscassignments.Xv6.Icache.Put.{Put, iput_lem}

abbrev used_disk : Fs
used_disk = record {
  sb = record { size = 1000; ninodes = 200; inodestart = 32; bmapstart = 58 };
  bits = λ b i. ltb i 100;
  bytes = λ b i. b;
  words = λ b i. 0;
}

-- An inode without links, with blocks 98 and 99, and its last reference.
abbrev unlinked : Inode
unlinked = record {
  dev = 1;
  inum = 7;
  ref = 1;
  valid = true;
  type = 2;
  major = 0;
  minor = 0;
  nlink = 0;
  size = 600;
  addrs = λ i. if i == 0 then 99 else if i == 1 then 98 else 0;
}

unlinked-Sound : Sound unlinked used_disk
unlinked-Sound = record {
  owned = λ p full. ground arith;
  single = λ p q full same. ground arith;
  boot = refl;
}

itrunc_lem_example : Truncated unlinked used_disk (itrunc unlinked used_disk)
itrunc_lem_example = itrunc_lem unlinked used_disk unlinked-Sound

-- A cache that holds the inode 7 in slot 0 and nothing else.
abbrev one_file : ℕ → Inode
one_file i = if i == 0 then unlinked else record unlinked { ref = 0 }

abbrev no_inodes_yet : ℕ → Dinode
no_inodes_yet k = record { type = 0; major = 0; minor = 0; nlink = 0; size = 0; addrs = λ i. 0 }

abbrev files : Files
files = record { fs = used_disk; dinodes = iupdate unlinked no_inodes_yet; icache = one_file }

iput_lem_example : Put 0 files (iput 0 files)
iput_lem_example = iput_lem 0 files unlinked-Sound

abbrev new_slot : Inode
new_slot = record unlinked { valid = false; type = 0; size = 0 }
