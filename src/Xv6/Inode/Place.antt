-- ===== src/Xv6/Inode/Place.antt =====
-- The places of an inode's block numbers: `addrs[0]` to `addrs[12]`, then the entries of the indirect
-- block (A5/xv6-public/fs.c).
use oscassignments.Base.{ℕ, ◌+◌, ◌-◌, ◌≡◌, ◌≢◌, true, ltb, ◌==◌, if◌then◌else◌}
use oscassignments.Xv6.Fs.{Fs, is_used}
use oscassignments.Xv6.Inode.{Inode}

abbrev pub place_of : (addrs : ℕ → ℕ) (words : ℕ → ℕ → ℕ) (p : ℕ) → ℕ
place_of addrs words p =
    if ltb p 13 then addrs p else (if addrs 12 == 0 then 0 else words (addrs 12) (p - 13))

abbrev pub place : Inode → Fs → ℕ → ℕ
place ip fs p = place_of ip.addrs fs.words p

-- The place of the file's block `bn`, and the file's contents: a block that is missing reads as zeros.
abbrev pub position : ℕ → ℕ
position bn = if ltb bn 12 then bn else bn + 1

abbrev pub byte_of : (ℕ → ℕ → ℕ) → (block j : ℕ) → ℕ
byte_of bytes x j = if x == 0 then 0 else bytes x j

abbrev pub content : Inode → Fs → (bn j : ℕ) → ℕ
content ip fs bn j = byte_of fs.bytes (place ip fs (position bn)) j

-- The blocks of the inode are marked as used, no two places name the same block, and block 0 is used.
pub record Sound (ip : Inode) (fs : Fs) : Type 0 where
  pub owned : (p : ℕ) → place ip fs p ≢ 0 → is_used (place ip fs p) fs ≡ true
  pub single : (p q : ℕ) → place ip fs p ≢ 0 → place ip fs p ≡ place ip fs q → p ≡ q
  pub boot : is_used 0 fs ≡ true

-- Where a call starts and ends: the blocks used stay so, the files' contents stay, and no place but `p`
-- and that of the indirect block changes.
pub record Keeps (p : ℕ) (ip : Inode) (fs : Fs) (ip' : Inode) (fs' : Fs) : Type 0 where
  pub sound : Sound ip' fs'
  pub stays : (q : ℕ) → place ip fs q ≢ 0 → place ip' fs' q ≡ place ip fs q
  pub apart : (q : ℕ) → q ≢ p → q ≢ 12 → place ip' fs' q ≡ place ip fs q
  pub contents : (bn j : ℕ) → content ip' fs' bn j ≡ content ip fs bn j
  pub used : (x : ℕ) → is_used x fs ≡ true → is_used x fs' ≡ true
  pub size : ip'.size ≡ ip.size
  pub type : ip'.type ≡ ip.type
