-- ===== src/Xv6/Memory/Tests.antt =====
-- The theorems on memory at a concrete one: the byte at each address is the address, less a multiple
-- of 4.
use oscassignments.Base.{◌%◌, ◌≡◌, refl}
use oscassignments.Xv6.Memory.{Memory, memmove, copy_down, copy_up}
use oscassignments.Xv6.Memory.Move.{Moved, memmove_lem}

abbrev mod_4 : Memory
mod_4 a = a % 4

-- The ranges overlap.
memmove_example : Moved 3 mod_4 10 9 (memmove mod_4 10 9 3)
memmove_example = memmove_lem mod_4 10 9 3

moves_last : memmove mod_4 10 9 3 12 ≡ 3
unfolding memmove copy_down copy_up
moves_last = refl
