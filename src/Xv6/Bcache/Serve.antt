-- ===== src/Xv6/Bcache/Serve.antt =====
-- What `bget` of A5/xv6-public/bio.c returns.
use oscassignments.Base.{
  arith, Bool-cases, ℕ, ◌+◌, ◌≡◌, ◌≢◌, ◌⊎◌, inl, inr, refl, Bool, true, false, Option, none, some,
  update_ne, update_self,
}
use oscassignments.Xv6.Types.{Panic, Result, ok, panic}
use oscassignments.Xv6.Bcache.{Buf, Bcache, find_next, find_prev, is_block, is_spare, set_buf, bget}
use oscassignments.Xv6.Bcache.Search.{In, Found, find_next-Found, find_prev-Found}

-- The slot held the block already and has one user more, or no slot held it and the slot was free to
-- take.
abbrev pub Shared : (dev blockno : ℕ) → (before after : Buf) → Type 0
Shared dev blockno b a = (is_block dev blockno b ≡ true) × (a ≡ record b { refcnt = b.refcnt + 1 })

abbrev pub Recycled : (dev blockno : ℕ) → (before after : Buf) → Type 0
Recycled dev blockno b a =
    (b.refcnt ≡ 0)
    × (b.dirty ≡ false)
    × (a ≡ record b { dev = dev; blockno = blockno; valid = false; dirty = false; refcnt = 1 })

abbrev pub Absent : (Buf → Bool) → Bcache → Type 0
Absent test c = (j : ℕ) → In j c.order → test (c.buf j) ≡ false

-- Every buffer of the list is referenced or dirty.
abbrev pub Busy : Bcache → Type 0
Busy c = (j : ℕ) → In j c.order → ((c.buf j).refcnt ≢ 0) ⊎ ((c.buf j).dirty ≡ true)

spare_free : (b : Buf) → is_spare b ≡ true → (b.refcnt ≡ 0) × (b.dirty ≡ false)
spare_free b e = (ground arith, ground arith)

not_spare : (b : Buf) → is_spare b ≡ false → (b.refcnt ≢ 0) ⊎ (b.dirty ≡ true)
not_spare b e = elim (Bool-cases b.dirty) [
  | inl dirty ↦ inr dirty
  | inr clean ↦ inl (λ z. ground arith)
]

abbrev pub Served : (dev blockno : ℕ) → Bcache → Result (ℕ × Bcache) → Type 0
Served dev k c (ok r) =
    In r.0 c.order
    × (r.1.order ≡ c.order)
    × ((j : ℕ) → j ≢ r.0 → r.1.buf j ≡ c.buf j)
    × (Shared dev k (c.buf r.0) (r.1.buf r.0)
        ⊎ (Absent (is_block dev k) c × Recycled dev k (c.buf r.0) (r.1.buf r.0)))
Served dev k c (panic p) = (p ≡ Panic.no_buffers) × Absent (is_block dev k) c × Busy c

after_searches :
    (dev k : ℕ) (c : Bcache) (hit spare : Option ℕ)
    → Found (is_block dev k) c.buf c.order hit
    → Found is_spare c.buf c.order spare
    → Served dev k c (elim hit [
      | some i ↦ ok (i, set_buf i (record (c.buf i) { refcnt = (c.buf i).refcnt + 1 }) c)
      | none ↦ elim spare [
        | some i ↦ ok (
          i,
          set_buf i
              (record (c.buf i) {
                dev = dev;
                blockno = k;
                valid = false;
                dirty = false;
                refcnt = 1;
              })
              c,
        )
        | none ↦ panic Panic.no_buffers
      ]
    ])
after_searches dev k c (some i) spare f g = (
  f.0,
  refl,
  λ j ne. update_ne c.buf i (record (c.buf i) { refcnt = (c.buf i).refcnt + 1 }) j ne,
  inl (f.1, update_self c.buf i (record (c.buf i) { refcnt = (c.buf i).refcnt + 1 })),
)
after_searches dev k c none (some i) f g =
    let b : Buf = record (c.buf i) {
      dev = dev;
      blockno = k;
      valid = false;
      dirty = false;
      refcnt = 1;
    } in
    (
      g.0,
      refl,
      λ j ne. update_ne c.buf i b j ne,
      (let (unused, clean) = spare_free (c.buf i) g.1 in
          inr (f, (unused, clean, update_self c.buf i b))),
    )
after_searches dev k c none none f g = (refl, f, λ j at. not_spare (c.buf j) (g j at))

-- `bget` returns a buffer of the list and changes no other and not the list. If a buffer holds the
-- block, it returns such a buffer with one more reference and all else as it was. If none does, it
-- takes over a buffer that nobody references and that is not dirty, for the block, not yet valid and
-- with one reference. It stops the machine only if no buffer holds the block and each is referenced or
-- dirty.
pub bget_lem : (dev k : ℕ) (c : Bcache) → Served dev k c (bget dev k c)
unfolding bget
bget_lem dev k c =
    after_searches dev k c (find_next (is_block dev k) c.buf c.order)
      (find_prev is_spare c.buf c.order) (find_next-Found (is_block dev k) c.buf c.order)
      (find_prev-Found is_spare c.buf c.order)
