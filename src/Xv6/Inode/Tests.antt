-- ===== src/Xv6/Inode/Tests.antt =====
-- The file operations at a concrete disk of 1000 blocks, of which the first 100 are used, and a file of
-- 510 bytes in block 99.
use oscassignments.Base.{
  Bool, false, ℕ, ◌+◌, ◌≡◌, refl, true, ltb, ◌==◌, if◌then◌else◌, arith, Option, none,
}
use oscassignments.Xv6.Types.{Result, ok, panic}
use oscassignments.Xv6.Fs.{Fs, balloc, find_free, find_bit, bzero}
use oscassignments.Xv6.Inode.{Inode, bmap, addr_slot, write_loop, readi, writei, Devsw}
use oscassignments.Xv6.Inode.Place.{Sound}
use oscassignments.Xv6.Inode.Slot.{Mapped}
use oscassignments.Xv6.Inode.Map.{bmap_lem}
use oscassignments.Xv6.Inode.Readi.{Answered, readi_lem}
use oscassignments.Xv6.Inode.Roundtrip.{Echoed, readi-writei}

abbrev small_disk : Fs
small_disk = record {
  sb = record { size = 1000; ninodes = 200; inodestart = 32; bmapstart = 58 };
  bits = λ b i. ltb i 100;
  bytes = λ b i. b;
  words = λ b i. 0;
}

abbrev small_file : Inode
small_file = record {
  dev = 1;
  inum = 7;
  ref = 1;
  valid = true;
  type = 2;
  major = 0;
  minor = 0;
  nlink = 1;
  size = 510;
  addrs = λ i. if i == 0 then 99 else 0;
}

small_file-Sound : Sound small_file small_disk
small_file-Sound = record {
  owned = λ p full. ground arith;
  single = λ p q full same. ground arith;
  boot = refl;
}

abbrev no_devices : Devsw
no_devices major = none

abbrev source : ℕ → ℕ
source i = i + 65

bmap_lem_example : Mapped 14 small_file small_disk (bmap small_file 13 small_disk)
bmap_lem_example = bmap_lem small_file 13 small_disk (omega arith) small_file-Sound

readi_lem_example :
    Answered small_file small_disk source 500 20
      (readi no_devices small_file small_disk source 500 20)
readi_lem_example =
    readi_lem no_devices small_file small_disk source 500 20 (omega arith) small_file-Sound
      (omega arith) (omega arith) (omega arith)

-- the log has room
abbrev room_left : ℕ → Bool
room_left tot = false

abbrev or_start : Result (Option ℕ × Inode × Fs) → Option ℕ × Inode × Fs
or_start (ok r) = r
or_start (panic e) = (none, small_file, small_disk)

abbrev written : Option ℕ × Inode × Fs
written = or_start (writei no_devices room_left small_file small_disk source 510 4)

-- The write runs into a second block, which is the first free one.
writes_on : (written.1.size ≡ 514) × (written.1.addrs 1 ≡ 100)
unfolding writei write_loop bmap addr_slot balloc find_free find_bit bzero
writes_on = (refl, refl)

write_small : writei no_devices room_left small_file small_disk source 510 4 ≡ ok written
unfolding writei write_loop bmap addr_slot balloc find_free find_bit bzero
write_small = refl

readi-writei_example : Echoed source 4 (readi no_devices written.1 written.2 source 510 4)
readi-writei_example =
    readi-writei no_devices room_left small_file small_disk source source 510 4 written
      (omega arith) small_file-Sound (omega arith) (omega arith) (omega arith) write_small
