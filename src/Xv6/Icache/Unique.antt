-- ===== src/Xv6/Icache/Unique.antt =====
-- `iget` of A5/xv6-public/fs.c: what it returns, and that an inode is never cached twice.
use oscassignments.Base.{ℕ, ◌+◌, ◌≡◌, ◌≢◌, ◌≤◌, ◌<◌, true, false, ◌⊎◌}
use oscassignments.Xv6.Types.{Panic, Result, ok, panic}
use oscassignments.Xv6.Inode.{Inode}
use oscassignments.Xv6.Icache.{is_cached, recycled}

-- Two slots in use that hold the same inode are one.
abbrev pub OneEntry : (ℕ → Inode) → Type 0
OneEntry icache =
    (i j : ℕ)
    → i < 50
    → j < 50
    → 1 ≤ (icache i).ref
    → 1 ≤ (icache j).ref
    → (icache i).dev ≡ (icache j).dev
    → (icache i).inum ≡ (icache j).inum
    → i ≡ j

-- The slot returned: in use for this inode already, or empty while no slot in use held it.
abbrev pub Held : (dev inum : ℕ) → (ℕ → Inode) → ℕ → Inode → Type 0
Held dev inum icache i ip =
    ((is_cached dev inum (icache i) ≡ true) × (ip ≡ record (icache i) { ref = (icache i).ref + 1 }))
    ⊎ (((j : ℕ) → j < 50 → is_cached dev inum (icache j) ≡ false)
        × ((icache i).ref ≡ 0)
        × (ip ≡ recycled dev inum (icache i)))

abbrev pub Fetched : (dev inum : ℕ) → (ℕ → Inode) → Result (ℕ × (ℕ → Inode)) → Type 0
Fetched dev inum icache (ok r) =
    (r.0 < 50)
    × Held dev inum icache r.0 (r.1 r.0)
    × ((j : ℕ) → j ≢ r.0 → r.1 j ≡ icache j)
    × OneEntry r.1
Fetched dev inum icache (panic e) =
    (e ≡ Panic.no_inodes)
    × ((j : ℕ) → j < 50 → is_cached dev inum (icache j) ≡ false)
    × ((j : ℕ) → j < 50 → 1 ≤ (icache j).ref)

abbrev Like : Inode → Inode → Type 0
Like a b = (a.dev ≡ b.dev) × (a.inum ≡ b.inum) × (1 ≤ a.ref → 1 ≤ b.ref)
