-- ===== src/Xv6/Log/Note.antt =====
-- What `log_write` of A5/xv6-public/log.c keeps between two commits.
use oscassignments.Base.{
  ℕ, zero, suc, ◌+◌, ◌≤◌, ◌<◌, ◌≡◌, ◌≢◌, ◌⊎◌, inl, inr, refl, ◌∙◌, sym, ap, ◌==◌, update_self,
  update_ne, arith, Bool-cases, ==→eq, eq→==, ne→==,
}
use mathlib.Core.Path.{subst}
use native.Mathlib.Decide.{ℕ_discrete}
use oscassignments.Xv6.Types.{ok}
use oscassignments.Xv6.Log.{Header, Machine, log_write, find_block, note_block}
use oscassignments.Xv6.Log.Writes.{Home}
use oscassignments.Xv6.Log.Commit.{Idle}
use oscassignments.Xv6.Log.Calls.{log_write_inv}

-- The first index from `i` up to `hi` with the block, or `hi`.
record At (i hi b : ℕ) (lh : Header) (at : ℕ) : Type 0 where
  le : at ≤ hi
  there : at < hi → lh.block at ≡ b
  before : (m : ℕ) → i ≤ m → m < at → lh.block m ≢ b

find_block-At : (c i hi b : ℕ) (lh : Header) → i + c ≡ hi → At i hi b lh (find_block c i b lh)
unfolding find_block
find_block-At zero i hi b lh e = record {
  le = omega arith;
  there = λ lt. absurd (omega arith);
  before = λ m lo up. absurd (omega arith);
}
find_block-At (suc c) i hi b lh e = elim (Bool-cases (lh.block i == b)) [
  | inl here ↦
      rw (here, find_block)
        (record {
          le = omega arith;
          there = λ lt. ==→eq (lh.block i) b here;
          before = λ m lo up. absurd (omega arith);
        })
  | inr no_match ↦
      let rest = find_block-At c (i + 1) hi b lh (omega arith) in
      rw (no_match, find_block)
        (record {
          le = rest.le;
          there = rest.there;
          before = λ m lo up. elim (ℕ_discrete m i) [
            | yes same ↦ rw same (λ x. let y = eq→== (lh.block i) b x in ground arith)
            | no other ↦ rest.before m (omega arith) up
          ];
        })
]

-- No block has two entries.
abbrev pub IsDistinct : Header → Type 0
IsDistinct lh = (i j : ℕ) → i < j → j < lh.n → lh.block i ≢ lh.block j

module _ (b : ℕ) (lh : Header) where
  abbrev at : ℕ
  at = find_block lh.n 0 b lh

  found : At 0 lh.n b lh at
  found = find_block-At lh.n 0 lh.n b lh (omega arith)

  noted_n :
      ((at ≡ lh.n) × ((note_block b lh).n ≡ lh.n + 1))
      ⊎ ((at < lh.n) × ((note_block b lh).n ≡ lh.n))
  noted_n = elim (ℕ_discrete at lh.n) [
    | yes last ↦ inl (last, rw (eq→== at lh.n last) refl)
    | no inner ↦ inr (let le = found.le in omega arith, rw (ne→== at lh.n inner) refl)
  ]

  at_in : at < (note_block b lh).n
  at_in = elim noted_n [ inl (last, e) ↦ omega arith | inr (inner, e) ↦ omega arith ]

  le_n : (note_block b lh).n ≤ lh.n + 1
  le_n = elim noted_n [ inl (last, e) ↦ omega arith | inr (inner, e) ↦ omega arith ]

  -- An entry besides that of `b` is an old one.
  old_entry : (i : ℕ) → i < (note_block b lh).n → i ≢ at → i < lh.n
  old_entry i lt other = elim noted_n [ inl (last, e) ↦ omega arith | inr (inner, e) ↦ omega arith ]

  block_at : (note_block b lh).block at ≡ b
  block_at = update_self lh.block at b

  block_ne : (i : ℕ) → i ≢ at → (note_block b lh).block i ≡ lh.block i
  block_ne i other = update_ne lh.block at b i other

  -- The blocks of the old entries have one still.
  old_blocks :
      (x : ℕ)
      → ((i : ℕ) → i < (note_block b lh).n → (note_block b lh).block i ≢ x)
      → (i : ℕ) → i < lh.n
      → lh.block i ≢ x
  old_blocks x none i lt e = elim (ℕ_discrete i at) [
    | yes same ↦
        none at at_in (
          block_at ∙ sym (found.there (subst (λ k. k < lh.n) same lt)) ∙ ap lh.block (sym same) ∙ e)
    | no other ↦
        none i (elim noted_n [ inl (last, n) ↦ omega arith | inr (inner, n) ↦ omega arith ])
          (block_ne i other ∙ e)
  ]

  -- A block that is logged once more gets no second entry.
  note_block-IsDistinct : IsDistinct lh → IsDistinct (note_block b lh)
  note_block-IsDistinct h i j lt jn e = elim (ℕ_discrete j at) [
    | yes last ↦
        found.before i (omega arith) (omega arith)
          (sym (block_ne i (omega arith)) ∙ e ∙ ap (note_block b lh).block last ∙ block_at)
    | no j_old ↦
        let jl = old_entry j jn j_old in
        elim (ℕ_discrete i at) [
          | yes i_at ↦ h i j lt jl (
              ap lh.block i_at
              ∙ found.there (omega arith)
              ∙ sym block_at
              ∙ ap (note_block b lh).block (sym i_at)
              ∙ e
              ∙ block_ne j j_old)
          | no i_old ↦ h i j lt jl (sym (block_ne i i_old) ∙ e ∙ block_ne j j_old)
        ]
  ]

-- `log_write` of a block outside of the log keeps the machine idle, and its entries distinct.
pub log_write-Idle :
    (b v : ℕ) (m m' : Machine)
    → Home m.start m.size b
    → Idle m
    → IsDistinct m.lh
    → log_write b v m ≡ ok m'
    → Idle m' × IsDistinct m'.lh
log_write-Idle b v m m' home idle distinct e =
    let (same, room) = log_write_inv b v m m' e in
    subst (λ z. Idle z × IsDistinct z.lh) same
      (
        record {
          cleared = idle.cleared;
          fits = record {
            room = let le = le_n b m.lh in omega arith;
            home = λ i lt. elim (ℕ_discrete i (at b m.lh)) [
              | yes same ↦ rw (same, block_at b m.lh) home
              | no other ↦
                  rw (block_ne b m.lh i other) (idle.fits.home i (old_entry b m.lh i lt other))
            ];
          };
          cached = λ x h none.
              idle.cached x h (old_blocks b m.lh x none)
              ∙ sym (
                  update_ne m.cache b v x
                    (λ same. none (at b m.lh) (at_in b m.lh) (block_at b m.lh ∙ sym same)));
        },
        note_block-IsDistinct b m.lh distinct,
      )
